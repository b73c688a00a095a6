-- ===== src/Proc/Garbage/Paths.antt =====
-- TrashPathFromRegPath and RegPathFromTrasnPath of pkg/proc/delete_handler.go, with what they use
-- of the packages path, strings and fmt. Strings are their bytes.
use yproxy.Base.{
  ℕ, zero, suc, ◌+◌, ◌-◌, ◌/◌, ◌%◌, ◌^◌, ◌≡◌, refl, sym, Bool, true, false, [], ◌∷◌, ◌++◌,
  append_assoc, ◌||◌, ◌&&◌, arith, ltb, ◌==◌, if◌then◌else◌,
}
use yproxy.Bytes.{Bytes}

-- A uint64 has at most 20 digits.
abbrev pub digits : ℕ → ℕ → Bytes
digits zero n = []
digits (suc fuel) n =
    let front = digits fuel (n / 10) in
    if ltb n 10 then (48 + n) ∷ [] else front ++ ((48 + n % 10) ∷ [])

-- fmt's %d of int(n), for a uint64
abbrev pub decimal : ℕ → Bytes
decimal n = if ltb n (2 ^ 63) then digits 20 n else 45 ∷ digits 20 (2 ^ 64 - n)

abbrev pub slash : ℕ
slash = 47

abbrev has_slash : Bytes → Bool
has_slash [] = false
has_slash (c ∷ s) = c == slash || has_slash s

-- The last of the parts of strings.Split(p, "/")
unfoldable pub last_part : Bytes → Bytes
last_part [] = []
last_part (c ∷ s) =
    let rest = last_part s in if has_slash s then rest else if c == slash then s else c ∷ s

abbrev pub dot_dot : Bytes → Bool
dot_dot (a ∷ b ∷ []) = a == 46 && b == 46
dot_dot _ = false

abbrev pub empty_or_dot : Bytes → Bool
empty_or_dot [] = true
empty_or_dot (a ∷ []) = a == 46
empty_or_dot _ = false

-- "basebackups_005" and "basebackups_005/yezzey"
abbrev pub basebackups : Bytes
basebackups = 98 ∷ 97 ∷ 115 ∷ 101 ∷ 98 ∷ 97 ∷ 99 ∷ 107 ∷ 117 ∷ 112 ∷ 115 ∷ 95 ∷ 48 ∷ 48 ∷ 53 ∷ []

abbrev pub yezzey : Bytes
yezzey = 121 ∷ 101 ∷ 122 ∷ 122 ∷ 101 ∷ 121 ∷ []

-- "segments_005/seg"
abbrev pub segments : Bytes
segments =
    115 ∷ 101 ∷ 103 ∷ 109 ∷ 101 ∷ 110 ∷ 116 ∷ 115 ∷ 95 ∷ 48 ∷ 48 ∷ 53 ∷ slash ∷ 115 ∷ 101 ∷ 103 ∷ []

-- "trash/"
abbrev pub trash : Bytes
trash = 116 ∷ 114 ∷ 97 ∷ 115 ∷ 104 ∷ slash ∷ []

-- path.Join(..., "basebackups_005", "yezzey", name), where `dir` is what comes before: an empty
-- name and `.` are left out, and `..` takes "yezzey" off again.
abbrev pub join_name : Bytes → Bytes → Bytes
join_name dir name =
    let upper = dir ++ slash ∷ basebackups in
    if dot_dot name
    then upper
    else if empty_or_dot name
    then upper ++ slash ∷ yezzey
    else upper ++ slash ∷ (yezzey ++ slash ∷ name)

unfoldable pub trash_path_from_reg_path : Bytes → ℕ → Bytes
trash_path_from_reg_path p segnum = join_name (trash ++ (segments ++ decimal segnum)) (last_part p)

unfoldable pub reg_path_from_trash_path : Bytes → ℕ → Bytes
reg_path_from_trash_path p segnum = join_name (segments ++ decimal segnum) (last_part p)

-- The name of a file: not empty, `.` or `..`, and without a slash.
pub record IsFileName (name : Bytes) : Type 0 where
  pub no_slash : has_slash name ≡ false
  pub not_up : dot_dot name ≡ false
  pub not_here : empty_or_dot name ≡ false

has_slash-append : (s t : Bytes) → has_slash (s ++ slash ∷ t) ≡ true
has_slash-append [] t = refl
has_slash-append (c ∷ s) t = ground (arith, has_slash-append s t)

last_part_name : (name : Bytes) → has_slash name ≡ false → last_part name ≡ name
unfolding last_part
last_part_name [] h = refl
last_part_name (c ∷ s) h = ground (arith, h)

last_part-append :
    (dir name : Bytes) → has_slash name ≡ false → last_part (dir ++ slash ∷ name) ≡ name
unfolding last_part
last_part-append [] name h = ground (arith, h)
last_part-append (c ∷ dir) name h = rw (has_slash-append dir name, last_part-append dir name h) refl

last_part-join_name : (dir name : Bytes) → IsFileName name → last_part (join_name dir name) ≡ name
last_part-join_name dir name h =
    let base = dir ++ slash ∷ basebackups in
    rw (h.not_up, h.not_here, sym (append_assoc base (slash ∷ yezzey) (slash ∷ name)))
      (last_part-append (base ++ slash ∷ yezzey) name h.no_slash)

-- A file that was moved to the trash of a segment and is moved back from there gets the path that
-- it had in the segment's directory, if its name is that of a file.
pub reg_path_from_trash_path-trash_path_from_reg_path :
    (name : Bytes) (segnum : ℕ)
    → IsFileName name
    → reg_path_from_trash_path
        (trash_path_from_reg_path (join_name (segments ++ decimal segnum) name) segnum)
        segnum
      ≡ join_name (segments ++ decimal segnum) name
unfolding trash_path_from_reg_path reg_path_from_trash_path
reg_path_from_trash_path-trash_path_from_reg_path name segnum h =
    rw
      (
        last_part-join_name (segments ++ decimal segnum) name h,
        last_part-join_name (trash ++ (segments ++ decimal segnum)) name h,
      )
      refl
