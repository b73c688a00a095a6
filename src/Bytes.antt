-- ===== src/Bytes.antt =====
-- Byte slices as Go has them: a slice is the list of its bytes, and its capacity is its length,
-- as it is for the buffers that pkg/io/proto_reader.go allocates. `none` is the run-time panic
-- of an index or a bound out of range. Also encoding/binary's big-endian integers, and the
-- equality of strings.
use Prim.Native.Char.{code}
use Prim.Native.Nat.add
use Prim.Native.String.{String}
use yproxy.Base.{
  ℕ, zero, suc, ◌+◌, ◌-◌, ◌*◌, ◌/◌, ◌%◌, ◌^◌, ◌<◌, ◌≡◌, refl, ap, ◌∙◌, Option, none, some, List, [],
  ◌∷◌, ◌++◌, arith, Bool, true, false, ◌&&◌, ◌==◌, leb, if◌then◌else◌, ◌>>=◌, length, get_elem?,
}

abbrev pub Bytes : Type 0
Bytes = List ℕ

-- The bytes of an ASCII text
abbrev pub ascii : String → Bytes
ascii String.[] = []
ascii (String.◌∷◌ c t) = code c ∷ ascii t

abbrev pub IsU64 : ℕ → Type 0
IsU64 v = v < 2 ^ 64

-- `a + b` on uint64
unfoldable pub add64 : ℕ → ℕ → ℕ
add64 a b = (a + b) % 2 ^ 64

-- b[i:]
abbrev pub slice_from : ℕ → Bytes → Option Bytes
slice_from zero b = some b
slice_from (suc i) [] = none
slice_from (suc i) (x ∷ b) = slice_from i b

-- b[:n]
abbrev pub slice_to : ℕ → Bytes → Option Bytes
slice_to zero b = some []
slice_to (suc n) [] = none
slice_to (suc n) (x ∷ b) = slice_to n b >>= λ r. some (x ∷ r)

-- b[i:j]
unfoldable pub slice : ℕ → ℕ → Bytes → Option Bytes
slice i j b = if leb i j then (slice_from i b >>= λ r. slice_to (j - i) r) else none

-- `n - k` on a length as a bound of a slice: a negative bound panics.
abbrev pub sub_int : ℕ → ℕ → Option ℕ
sub_int n k = if leb k n then some (n - k) else none

-- binary.BigEndian.PutUint64 into a fresh slice of eight bytes, and AppendUint64's suffix
unfoldable pub put_u64 : ℕ → Bytes
put_u64 v =
    v / 2 ^ 56 % 256
    ∷ v / 2 ^ 48 % 256
    ∷ v / 2 ^ 40 % 256
    ∷ v / 2 ^ 32 % 256
    ∷ v / 2 ^ 24 % 256
    ∷ v / 2 ^ 16 % 256
    ∷ v / 2 ^ 8 % 256
    ∷ v % 256
    ∷ []

-- binary.BigEndian.Uint64: the bytes behind the eighth are not looked at.
unfoldable pub u64 : Bytes → Option ℕ
u64 (a ∷ b ∷ c ∷ d ∷ e ∷ f ∷ g ∷ h ∷ _) =
    some
      (a * 2 ^ 56 + b * 2 ^ 48 + c * 2 ^ 40 + d * 2 ^ 32 + e * 2 ^ 24 + f * 2 ^ 16 + g * 2 ^ 8 + h)
u64 _ = none

pub length-put_u64 : (v : ℕ) → length (put_u64 v) ≡ 8
unfolding put_u64
length-put_u64 v = refl

pub u64-put_u64_append : (v : ℕ) (rest : Bytes) → IsU64 v → u64 (put_u64 v ++ rest) ≡ some v
unfolding u64 put_u64
u64-put_u64_append v rest h = ap some (omega arith)

pub u64-put_u64 : (v : ℕ) → IsU64 v → u64 (put_u64 v) ≡ some v
unfolding u64 put_u64
u64-put_u64 v h = ap some (omega arith)

pub slice_to-append : (s rest : Bytes) → slice_to (length s) (s ++ rest) ≡ some s
slice_to-append [] rest = refl
slice_to-append (x ∷ s) rest = rw (slice_to-append s rest)

pub slice_from-append : (s rest : Bytes) → slice_from (length s) (s ++ rest) ≡ some rest
slice_from-append [] rest = refl
slice_from-append (x ∷ s) rest = slice_from-append s rest

-- b[i+j:] is b[i:][j:].
pub slice_from-add :
    (i j : ℕ) (b r : Bytes) → slice_from i b ≡ some r → slice_from (i + j) b ≡ slice_from j r
slice_from-add zero j b r h = rw (add.zero j) (ground (arith, h))
slice_from-add (suc i) j [] r h = cc
slice_from-add (suc i) j (x ∷ b) r h = rw (add.suc i j) (slice_from-add i j b r h)

-- b[i:i+j] is b[i:][:j].
pub slice-add :
    (i j k : ℕ) (b r : Bytes) → slice_from i b ≡ some r → k ≡ i + j → slice i k b ≡ slice_to j r
unfolding slice
slice-add i j k b r h e =
    let le : leb i k ≡ true = ground (arith, e) in
    let diff : k - i ≡ j = omega arith in rw (le, h, diff) refl

-- What a decoder reads at b[i:k] and what is left for it at b[k:], where b[i:] begins with `s`.
pub slice-append :
    (i k : ℕ) (b s rest : Bytes)
    → slice_from i b ≡ some (s ++ rest)
    → k ≡ i + length s
    → (slice i k b ≡ some s) × (slice_from k b ≡ some rest)
slice-append i k b s rest h e = (
  slice-add i (length s) k b (s ++ rest) h e ∙ slice_to-append s rest,
  rw e (slice_from-add i (length s) b (s ++ rest) h ∙ slice_from-append s rest),
)

pub length-slice_from : (i : ℕ) (b r : Bytes) → slice_from i b ≡ some r → length b ≡ i + length r
length-slice_from zero b r h = ground (arith, h)
length-slice_from (suc i) [] r h = cc
length-slice_from (suc i) (x ∷ b) r h = omega (arith, length-slice_from i b r h)

-- A uint64 sum that stays below the modulus is the sum.
pub add64-eq-add : (a b : ℕ) → a + b < 2 ^ 64 → add64 a b ≡ a + b
unfolding add64
add64-eq-add a b h = omega arith

-- Eight bytes of the body are read as a uint64.
pub slice-put_u64 :
    (i : ℕ) (b rest : Bytes) (v : ℕ)
    → slice_from i b ≡ some (put_u64 v ++ rest)
    → (slice i (i + 8) b ≡ some (put_u64 v)) × (slice_from (i + 8) b ≡ some rest)
slice-put_u64 i b rest v h =
    slice-append i (i + 8) b (put_u64 v) rest h (omega (arith, length-put_u64 v))

pub get_elem?-slice_from :
    (i : ℕ) (b : Bytes) (x : ℕ) (rest : Bytes)
    → slice_from i b ≡ some (x ∷ rest)
    → get_elem? b i ≡ some x
get_elem?-slice_from zero [] x rest h = cc
get_elem?-slice_from zero (y ∷ b) x rest h = ground (arith, h)
get_elem?-slice_from (suc i) [] x rest h = cc
get_elem?-slice_from (suc i) (y ∷ b) x rest h = get_elem?-slice_from i b x rest h

pub sub_int-add : (n k : ℕ) → sub_int (n + k) k ≡ some n
sub_int-add n k = ground arith

-- Equality of strings
abbrev pub eqb : Bytes → Bytes → Bool
eqb [] [] = true
eqb [] (d ∷ q) = false
eqb (c ∷ p) [] = false
eqb (c ∷ p) (d ∷ q) = c == d && eqb p q

pub eqb-eq : (p q : Bytes) → eqb p q ≡ true → p ≡ q
eqb-eq [] [] h = refl
eqb-eq [] (d ∷ q) h = cc
eqb-eq (c ∷ p) [] h = cc
eqb-eq (c ∷ p) (d ∷ q) h = grind (arith, eqb-eq p q)

pub eqb_refl : (p : Bytes) → eqb p p ≡ true
eqb_refl [] = refl
eqb_refl (c ∷ p) = ground (arith, eqb_refl p)
