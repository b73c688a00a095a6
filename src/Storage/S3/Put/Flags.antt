-- ===== src/Storage/S3/Put/Flags.antt =====
-- What PutFileToDest of pkg/storage/s3storage.go reads of the settings that `yproxy-client put` of
-- cmd/client/main.go makes of its flags.
use yproxy.Base.{
  ℕ, zero, suc, ◌+◌, ◌*◌, ◌-◌, ◌/◌, ◌%◌, ◌^◌, ◌≤◌, ◌<◌, ◌≡◌, refl, ap, ◌∙◌, Bool, true, false, ◌==◌,
  some, [], ◌∷◌, ◌++◌, ltb, leb, ◌&&◌, arith, inl, inr, Bool-cases,
}
use yproxy.Bytes.{Bytes, ascii}
use yproxy.Proc.Effect.{M, pure, ◌>>=◌}
use yproxy.Proc.Garbage.Mgr.{Error, ℤ, pos, negsuc}
use yproxy.Proc.Garbage.Paths.{digits}
use yproxy.Commands.{Flags, decimal, truth, put_settings}
use yproxy.Storage.Settings.{
  StorageConfig, lookup, build_bucket_map, resolve_storage_setting, storage_class_setting,
}
use yproxy.Storage.S3.{Service, or_raise, session_of}
use yproxy.Storage.S3.Put.{Puts, Planned, digits_value, parse_int, parse_bool, planned}

power : ℕ → ℕ
power zero = 1
power (suc k) = 10 * power k

digits_value-last :
    (s : Bytes) (n v c : ℕ)
    → digits_value n s ≡ some v
    → 48 ≤ c
    → c ≤ 57
    → digits_value n (s ++ c ∷ []) ≡ some (v * 10 + (c - 48))
unfolding digits_value
digits_value-last [] n v c h low high = ground arith
digits_value-last (d ∷ s) n v c h low high = elim (Bool-cases (leb 48 d && leb d 57)) [
  | inl e ↦ rw e (digits_value-last s (n * 10 + (d - 48)) v c (rw e at h) low high)
  | inr e ↦ cc (rw e at h)
]

digits_value-digits : (fuel n : ℕ) → n < power fuel → digits_value 0 (digits fuel n) ≡ some n
unfolding power digits_value
digits_value-digits zero n h = ap some (omega arith)
digits_value-digits (suc fuel) n h = elim (Bool-cases (ltb n 10)) [
  | inl e ↦
      rw e (
        digits_value-last [] 0 0 (48 + n) refl (omega arith) (ground arith) ∙ ap some (omega arith))
  | inr e ↦ rw e (
      digits_value-last (digits fuel (n / 10)) 0 (n / 10) (48 + n % 10)
        (digits_value-digits fuel (n / 10) (omega arith)) (omega arith) (omega arith)
      ∙ ap some (omega arith))
]

-- Digits that write the number, and at least one
abbrev IsNumeral : ℕ → Bytes → Type 0
IsNumeral n [] = ⊥
IsNumeral n (c ∷ s) = (48 ≤ c) × (digits_value 0 (c ∷ s) ≡ some n)

Starts : Bytes → Type 0
Starts [] = ⊥
Starts (c ∷ s) = 48 ≤ c

Starts-append : (s t : Bytes) → Starts s → Starts (s ++ t)
unfolding Starts
Starts-append [] t h = absurd h
Starts-append (c ∷ s) t h = h

digits-Starts : (fuel n : ℕ) → Starts (digits (suc fuel) n)
unfolding Starts
digits-Starts zero n = elim (Bool-cases (ltb n 10)) [
  | inl e ↦ rw e (omega arith)
  | inr e ↦ rw e (omega arith)
]
digits-Starts (suc fuel) n = elim (Bool-cases (ltb n 10)) [
  | inl e ↦ rw e (omega arith)
  | inr e ↦ rw e (Starts-append (digits (suc fuel) (n / 10)) _ (digits-Starts fuel (n / 10)))
]

IsNumeral-of : (n : ℕ) (s : Bytes) → Starts s → digits_value 0 s ≡ some n → IsNumeral n s
unfolding Starts
IsNumeral-of n [] h e = absurd h
IsNumeral-of n (c ∷ s) h e = (h, e)

digits-IsNumeral : (fuel n : ℕ) → n < power (suc fuel) → IsNumeral n (digits (suc fuel) n)
digits-IsNumeral fuel n h =
    IsNumeral-of n (digits (suc fuel) n) (digits-Starts fuel n) (digits_value-digits (suc fuel) n h)

parse_int-pos : (n : ℕ) (s : Bytes) → IsNumeral n s → n < 2 ^ 63 → parse_int s ≡ some (pos n)
unfolding parse_int
parse_int-pos n [] h small = absurd h
parse_int-pos n (c ∷ s) (low, value) small =
    let not_minus : (c == 45) ≡ false = ground arith in
    let not_plus : (c == 43) ≡ false = ground arith in
    let fits : leb n (2 ^ 63 - 1) ≡ true = ground arith in
    rw (not_minus, not_plus, value, fits) refl

parse_int-negsuc :
    (n : ℕ) (s : Bytes) → IsNumeral (suc n) s → n < 2 ^ 63 → parse_int (45 ∷ s) ≡ some (negsuc n)
unfolding parse_int
parse_int-negsuc n [] h small = absurd h
parse_int-negsuc n (c ∷ s) (low, value) small =
    let not_zero : leb (suc n) 0 ≡ false = ground arith in
    let fits : leb (suc n) (2 ^ 63) ≡ true = ground arith in
    rw (value, not_zero, fits) (ap (λ k. some (negsuc k)) (omega arith))

-- The numbers of an int64
abbrev pub IsInt64 : ℤ → Type 0
IsInt64 (pos n) = n < 2 ^ 63
IsInt64 (negsuc n) = n < 2 ^ 63

parse_int-decimal : (n : ℤ) → IsInt64 n → parse_int (decimal n) ≡ some n
unfolding power
parse_int-decimal (pos n) h = parse_int-pos n (digits 20 n) (digits-IsNumeral 19 n (ground arith)) h
parse_int-decimal (negsuc n) h =
    parse_int-negsuc n (digits 20 (suc n)) (digits-IsNumeral 19 (suc n) (ground arith)) h

parse_bool-truth : (b : Bool) → parse_bool (truth b) ≡ some b
unfolding parse_bool
parse_bool-truth true = refl
parse_bool-truth false = refl

module _ {W Session Body : Type 0} (sv : Service W Session Body) (puts : Puts W Session)
    (cnf : StorageConfig) where
  -- What PutFileToDest does with the size of the parts and the kind of upload that it read
  pub bucket_planned : Bytes → ℤ → Bool → M W Error (Planned Session)
  bucket_planned table_space part_size multipart = do
    bucket ←
        or_raise "failed to match tablespace to s3 bucket"
          (lookup table_space (build_bucket_map cnf))
    sess ← session_of sv cnf bucket
    pure (record { part_size = part_size; multipart = multipart; bucket = bucket; sess = sess })

  -- From the settings that the client makes of its flags, PutFileToDest reads back the class, the
  -- size of the parts, the kind of upload and the tablespace of the flags, if the size is an int64:
  -- it fails only where the tablespace has no bucket, or there is no session for it.
  pub planned-put_settings :
      (f : Flags) (w : W)
      → IsInt64 f.multipart_chunk_size
      → (resolve_storage_setting (put_settings f) storage_class_setting (ascii "STANDARD")
          ≡ f.storage_class)
        × (planned sv puts cnf (put_settings f) w
            ≡ bucket_planned f.table_space f.multipart_chunk_size f.multipart_upload w)
  unfolding planned bucket_planned resolve_storage_setting
  planned-put_settings f w h = (
    refl,
    rw (parse_int-decimal f.multipart_chunk_size h, parse_bool-truth f.multipart_upload) refl,
  )
