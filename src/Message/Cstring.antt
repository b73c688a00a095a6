-- ===== src/Message/Cstring.antt =====
-- GetCstring of pkg/message/utils.go: the string before the first NUL byte, and the number of
-- bytes read, the NUL included.
use yproxy.Base.{
  ℕ, ◌+◌, ◌≡◌, ◌<◌, refl, ◌∙◌, [], ◌∷◌, ◌++◌, arith, ◌==◌, if◌then◌else◌, length, All, some,
  append_assoc, append-nil, ap,
}
use yproxy.Bytes.{Bytes, slice_from, slice_from-add, slice_from-append}

-- The loop over `b`, with the buffer and the offset reached.
cstring_loop : Bytes → ℕ → Bytes → Bytes × ℕ
cstring_loop buff offset [] = (buff, offset)
cstring_loop buff offset (c ∷ b) =
    let rest = cstring_loop (buff ++ (c ∷ [])) (offset + 1) b in
    if c == 0 then (buff, offset + 1) else rest

unfoldable pub get_cstring : Bytes → Bytes × ℕ
unfolding cstring_loop
get_cstring b = cstring_loop [] 0 b

-- No byte of the string is NUL.
abbrev pub NoNul : Bytes → Type 0
NoNul = All (λ c. 0 < c)

cstring_loop-append :
    (s rest buff : Bytes) (offset : ℕ)
    → NoNul s
    → cstring_loop buff offset (s ++ 0 ∷ rest) ≡ (buff ++ s, offset + length s + 1)
unfolding cstring_loop
cstring_loop-append [] rest buff offset h = rw append-nil (ground arith)
cstring_loop-append (c ∷ s) rest buff offset h = ground (
  arith,
  cstring_loop-append s rest (buff ++ (c ∷ [])) (offset + 1) h.1,
  append_assoc buff (c ∷ []) s,
)

pub get_cstring-append :
    (s rest : Bytes) → NoNul s → get_cstring (s ++ 0 ∷ rest) ≡ (s, length s + 1)
unfolding get_cstring
get_cstring-append s rest h =
    cstring_loop-append s rest [] 0 h ∙ ap (λ (n : ℕ). (s, n)) (omega arith)

-- Behind a string that stands at `off`, and its NUL, the body goes on.
pub slice_from-cstring :
    (off : ℕ) (body s rest : Bytes)
    → slice_from off body ≡ some (s ++ 0 ∷ rest)
    → slice_from (off + (length s + 1)) body ≡ some rest
slice_from-cstring off body s rest h =
    slice_from-add off (length s + 1) body _ h
    ∙ slice_from-add (length s) 1 _ _ (slice_from-append s (0 ∷ rest))

-- The loop that GetPatchName and GetGoolName run: the bytes before the first NUL.
unfoldable pub name_loop : Bytes → Bytes → Bytes
name_loop buff [] = buff
name_loop buff (c ∷ b) = let rest = name_loop (buff ++ (c ∷ [])) b in if c == 0 then buff else rest

pub name_loop-append : (s rest buff : Bytes) → NoNul s → name_loop buff (s ++ 0 ∷ rest) ≡ buff ++ s
unfolding name_loop
name_loop-append [] rest buff h = rw append-nil refl
name_loop-append (c ∷ s) rest buff h =
    ground (arith, name_loop-append s rest (buff ++ (c ∷ [])) h.1, append_assoc buff (c ∷ []) s)
