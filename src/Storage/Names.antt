-- ===== src/Storage/Names.antt =====
-- The functions of the packages path and strings with which pkg/storage makes the keys of objects.
-- Strings are their bytes.
use yproxy.Base.{Bool, true, false, Option, none, some, List, [], ◌∷◌, ◌++◌, ◌==◌, if◌then◌else◌}
use yproxy.Bytes.{Bytes}
use yproxy.Proc.Garbage.Paths.{slash, dot_dot, empty_or_dot}

-- strings.TrimLeft(s, "/")
unfoldable pub trim_left : Bytes → Bytes
trim_left [] = []
trim_left (c ∷ s) = let rest = trim_left s in if c == slash then rest else c ∷ s

-- strings.CutPrefix(s, prefix): `none` if there is no such prefix
unfoldable pub cut_prefix : Bytes → Bytes → Option Bytes
cut_prefix s [] = some s
cut_prefix [] (c ∷ prefix) = none
cut_prefix (d ∷ s) (c ∷ prefix) = let rest = cut_prefix s prefix in if d == c then rest else none

abbrev pub add_to_first : Bytes → List Bytes → List Bytes
add_to_first c [] = c ∷ []
add_to_first c (part ∷ parts) = (c ++ part) ∷ parts

-- The parts of a path between its slashes
unfoldable pub parts_of : Bytes → List Bytes
parts_of [] = [] ∷ []
parts_of (c ∷ s) =
    let rest = parts_of s in if c == slash then [] ∷ rest else add_to_first (c ∷ []) rest

-- One step up: from the root nowhere, and from a relative path above its start.
abbrev pub up : Bool → List Bytes → List Bytes
up true [] = []
up false [] = (46 ∷ 46 ∷ []) ∷ []
up rooted (part ∷ above) = if dot_dot part then (46 ∷ 46 ∷ []) ∷ part ∷ above else above

-- The parts that path.Clean keeps, the last one first.
unfoldable pub kept_parts : Bool → List Bytes → List Bytes → List Bytes
kept_parts rooted [] above = above
kept_parts rooted (part ∷ parts) above =
    kept_parts rooted parts
      (if empty_or_dot part then above else if dot_dot part then up rooted above else part ∷ above)

-- The parts, the last one first, with slashes between them
unfoldable pub with_slashes : List Bytes → Bytes → Bytes
with_slashes [] tail = tail
with_slashes (part ∷ []) tail = part ++ tail
with_slashes (part ∷ (next ∷ above)) tail = with_slashes (next ∷ above) (slash ∷ (part ++ tail))

abbrev pub is_rooted : Bytes → Bool
is_rooted [] = false
is_rooted (c ∷ s) = c == slash

abbrev pub or_dot : Bytes → Bytes
or_dot [] = 46 ∷ []
or_dot (c ∷ s) = c ∷ s

-- path.Clean
unfoldable pub clean : Bytes → Bytes
unfolding kept_parts with_slashes parts_of
clean p =
    let body = with_slashes (kept_parts (is_rooted p) (parts_of p) []) [] in
    if is_rooted p then slash ∷ body else or_dot body

-- path.Join(a, b): empty elements are left out.
unfoldable pub join : Bytes → Bytes → Bytes
unfolding clean
join [] [] = []
join [] (c ∷ b) = clean (c ∷ b)
join (c ∷ a) [] = clean (c ∷ a)
join (c ∷ a) (d ∷ b) = clean ((c ∷ a) ++ slash ∷ (d ∷ b))
