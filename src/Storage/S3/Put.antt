-- ===== src/Storage/S3/Put.antt =====
-- PutFileToDest and PatchFile of pkg/storage/s3storage.go, and the numbers that they read with
-- strconv. A stream goes by what it delivers and the error that it ends with.
pub mod Running
pub mod Flags
use yproxy.Base.{
  ℕ, ◌+◌, ◌*◌, ◌-◌, ◌^◌, Bool, true, false, ◌&&◌, ◌||◌, Option, none, some, List, [], ◌∷◌, ◌++◌,
  if◌then◌else◌, leb,
}
use yproxy.Bytes.{Bytes, ascii, eqb}
use yproxy.Message.Settings.{StorageSettings}
use yproxy.Proc.Effect.{M, Result, ok, err, pure, ◌>>=◌}
use yproxy.Proc.Garbage.Mgr.{Error, ℤ, pos, negsuc}
use yproxy.Proc.Garbage.Paths.{digits}
use yproxy.Storage.Settings.{
  StorageConfig, resolve_storage_setting, storage_class_setting, multipart_chunk_size_setting,
  multipart_upload_setting,
}
use yproxy.Storage.S3.{Service, or_raise, bucket_of, session_of, object_path}

-- The number that decimal digits write, if there is nothing else.
unfoldable pub digits_value : ℕ → Bytes → Option ℕ
digits_value n [] = some n
digits_value n (c ∷ s) =
    let rest = digits_value (n * 10 + (c - 48)) s in if leb 48 c && leb c 57 then rest else none

abbrev pub parse_digits : Bytes → Option ℕ
parse_digits [] = none
parse_digits (c ∷ s) = digits_value 0 (c ∷ s)

abbrev pub positive : Option ℕ → Option ℤ
positive none = none
positive (some n) = if leb n (2 ^ 63 - 1) then some (pos n) else none

abbrev pub negative : Option ℕ → Option ℤ
negative none = none
negative (some n) =
    if leb n 0 then some (pos 0) else if leb n (2 ^ 63) then some (negsuc (n - 1)) else none

-- strconv.ParseInt(s, 10, 64); `none` is an error.
unfoldable pub parse_int : Bytes → Option ℤ
unfolding digits_value
parse_int [] = none
parse_int (c ∷ s) =
    if eqb (c ∷ []) (ascii "-")
    then negative (parse_digits s)
    else if eqb (c ∷ []) (ascii "+")
    then positive (parse_digits s)
    else positive (parse_digits (c ∷ s))

abbrev pub one_of : Bytes → List Bytes → Bool
one_of s [] = false
one_of s (t ∷ ts) = eqb s t || one_of s ts

-- strconv.ParseBool
unfoldable pub parse_bool : Bytes → Option Bool
parse_bool s =
    if one_of s
      (ascii "1" ∷ ascii "t" ∷ ascii "T" ∷ ascii "true" ∷ ascii "TRUE" ∷ ascii "True" ∷ [])
    then some true
    else if one_of s
        (ascii "0" ∷ ascii "f" ∷ ascii "F" ∷ ascii "false" ∷ ascii "FALSE" ∷ ascii "False" ∷ [])
    then some false
    else none

pub record Stream : Type 0 where
  pub bytes : Bytes
  pub failure : Option Error

-- What the two functions call of the AWS library: a bucket, a key and a storage class, then the
-- size of the parts or the whole body; or the range that is patched.
pub record Puts (W Session : Type 0) : Type 0 where
  pub upload : Session → Bytes → Bytes → Bytes → ℤ → Stream → M W Error Unit
  pub put_object : Session → Bytes → Bytes → Bytes → Bytes → M W Error Unit
  pub patch_object : Session → Bytes → Bytes → Bytes → Bytes → M W Error Unit

-- multipartUploads, as the list of its keys
abbrev pub mark : Bytes → List Bytes → List Bytes
mark key marked = key ∷ marked

unfoldable pub unmark : Bytes → List Bytes → List Bytes
unmark key [] = []
unmark key (k ∷ marked) = let rest = unmark key marked in if eqb k key then rest else k ∷ rest

-- What is known before the stream is read
pub record Planned (Session : Type 0) : Type 0 where
  pub part_size : ℤ
  pub multipart : Bool
  pub bucket : Bytes
  pub sess : Session

module _ {W Session Body : Type 0} (sv : Service W Session Body) (puts : Puts W Session)
    (cnf : StorageConfig) where
  unfoldable pub planned : List StorageSettings → M W Error (Planned Session)
  unfolding parse_int parse_bool
  planned settings = do
    part_size ← or_raise "invalid multipart chunk size" (
        parse_int
          (resolve_storage_setting settings multipart_chunk_size_setting (ascii "16777216")))
    multipart ←
        or_raise "invalid multipart upload"
          (parse_bool (resolve_storage_setting settings multipart_upload_setting (ascii "1")))
    bucket ← bucket_of sv cnf settings
    sess ← session_of sv cnf bucket
    pure (record { part_size = part_size; multipart = multipart; bucket = bucket; sess = sess })

  -- io.ReadAll and PutObject
  put_whole : Planned Session → Bytes → Bytes → Stream → M W Error Unit
  put_whole p key class r w = elim r.failure [
    | some e ↦ (err e, w)
    | none ↦ puts.put_object p.sess p.bucket key class r.bytes w
  ]

  put_planned :
      Bytes
      → Bytes
      → Stream
      → List Bytes
      → Result Error (Planned Session) × W
      → Result Error Unit × List Bytes × W
  unfolding put_whole unmark
  put_planned key class r marked (err e, w) = (err e, marked, w)
  put_planned key class r marked (ok p, w) =
      if p.multipart
      then (let (result, w') = puts.upload p.sess p.bucket key class p.part_size r w in
          (result, unmark key (mark key marked), w'))
      else (let (result, w') = put_whole p key class r w in (result, marked, w'))

  -- What it returns, and the keys that are marked then
  unfoldable pub put_file_to_dest :
      Bytes → Stream → List StorageSettings → List Bytes → W → Result Error Unit × List Bytes × W
  unfolding put_planned planned
  put_file_to_dest name r settings marked w =
      put_planned (object_path cnf name)
        (resolve_storage_setting settings storage_class_setting (ascii "STANDARD")) r marked
        (planned settings w)

  -- `start_offset` is not negative.
  unfoldable pub patch_file : Bytes → Bytes → ℕ → M W Error Unit
  patch_file name body start_offset = do
    sess ← session_of sv cnf cnf.storage_bucket
    puts.patch_object sess cnf.storage_bucket (object_path cnf name)
        (ascii "bytes " ++ (digits 20 start_offset ++ ascii "-18446744073709551615")) body
