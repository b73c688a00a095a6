-- ===== src/Storage/S3.antt =====
-- S3StorageInteractor of pkg/storage/s3storage.go, over the client of the S3 service.
pub mod Cache
pub mod Listing
pub mod Moves
pub mod Put
pub mod Removes
pub mod Uploads
use Prim.Native.String.{String}
use yproxy.Base.{
  ℕ, zero, suc, Bool, true, false, Option, none, some, List, [], ◌∷◌, ◌++◌, ◌==◌, if◌then◌else◌,
}
use yproxy.Bytes.{Bytes, eqb}
use yproxy.Message.ObjectMeta.{ObjectInfo}
use yproxy.Message.Settings.{StorageSettings}
use yproxy.Proc.Effect.{M, Result, ok, err, pure, raise, ◌>>=◌, ◌>>◌}
use yproxy.Proc.Garbage.Mgr.{Error, text}
use yproxy.Proc.Garbage.Handlers.{has_prefix}
use yproxy.Proc.Garbage.Paths.{slash}
use yproxy.Storage.Names.{join, trim_left, cut_prefix}
use yproxy.Storage.Settings.{
  StorageCredentials, StorageConfig, lookup, resolve_storage_setting, default_tablespace,
  tablespace_setting, build_bucket_map, build_cred_map,
}

-- An object of ListObjectsV2
pub record Content : Type 0 where
  pub key : Bytes
  pub size : ℕ
  pub last_modified : ℕ

pub record Page (A : Type 0) : Type 0 where
  pub contents : List A
  pub is_truncated : Bool
  -- the token, or the marker, of the next page
  pub next : Bytes

-- What the storage calls: a session of the pool for the credentials, and the requests of the S3
-- client over it. `Body` is an object that is being read.
pub record Service (W Session Body : Type 0) : Type 0 where
  pub get_session : StorageCredentials → M W Error Session
  -- bucket, key and first byte
  pub get_object : Session → Bytes → Bytes → ℕ → M W Error Body
  pub delete_object : Session → Bytes → Bytes → M W Error Unit
  -- the storage class of an object
  pub head_object : Session → Bytes → Bytes → M W Error Bytes
  -- bucket, source, key and storage class
  pub copy_object : Session → Bytes → Bytes → Bytes → Bytes → M W Error Unit
  -- bucket, prefix and token
  pub list_objects : Session → Bytes → Bytes → Option Bytes → M W Error (Page Content)
  -- bucket and marker; an upload is its key and its id
  pub list_uploads : Session → Bytes → Option Bytes → M W Error (Page (Bytes × Bytes))
  -- bucket, key and id
  pub abort_upload : Session → Bytes → Bytes → Bytes → M W Error Unit

-- The key of a name
unfoldable pub object_path : StorageConfig → Bytes → Bytes
object_path cnf name = trim_left (join cnf.storage_prefix name)

-- The key of a path that may have the prefix already
unfoldable pub key_of : Bytes → Bytes → Bytes
key_of prefix p = trim_left (if has_prefix p prefix then p else join prefix p)

-- The path that a listing shows for a key, if it has the storage's prefix: `none` inside is the
-- panic at `cPath[0]` of a key that is the prefix.
shown : Option Bytes → Option (Option Bytes)
shown none = none
shown (some []) = some none
shown (some (c ∷ p)) = some (some (if c == slash then c ∷ p else slash ∷ (c ∷ p)))

unfoldable pub shown_path : StorageConfig → Bytes → Option (Option Bytes)
unfolding shown
shown_path cnf key = shown (cut_prefix key cnf.storage_prefix)

-- The loop over the contents of a page; a panic ends the process.
abbrev pub add_shown :
    Content → Option (Option Bytes) → Option (List ObjectInfo) → Option (List ObjectInfo)
add_shown c none rest = rest
add_shown c (some none) rest = none
add_shown c (some (some p)) none = none
add_shown c (some (some p)) (some objects) =
    some (record { path = p; size = c.size; last_mod = c.last_modified } ∷ objects)

unfoldable pub metas_of : StorageConfig → List Content → Option (List ObjectInfo)
metas_of cnf [] = some []
metas_of cnf (c ∷ contents) = add_shown c (shown_path cnf c.key) (metas_of cnf contents)

abbrev pub append_some :
    Option (List ObjectInfo) → Option (List ObjectInfo) → Option (List ObjectInfo)
append_some (some xs) (some ys) = some (xs ++ ys)
append_some _ _ = none

abbrev pub or_raise : {W A : Type 0} → String → Option A → M W Error A
or_raise t none = raise (text t)
or_raise t (some a) = pure a

unfoldable pub has_key : Bytes → List Bytes → Bool
has_key key [] = false
has_key key (k ∷ ks) = let rest = has_key key ks in if eqb k key then true else rest

-- The entry of a key in a map, in place of the one that it had.
unfoldable pub set_entry : Bytes → Bytes → List (Bytes × Bytes) → List (Bytes × Bytes)
set_entry key value [] = (key, value) ∷ []
set_entry key value (e ∷ es) =
    let rest = set_entry key value es in if eqb e.0 key then (key, value) ∷ es else e ∷ rest

-- The map from keys to upload ids, without the uploads that are running.
unfoldable pub failed_uploads :
    List Bytes → List (Bytes × Bytes) → List (Bytes × Bytes) → List (Bytes × Bytes)
unfolding has_key set_entry
failed_uploads running [] out = out
failed_uploads running (u ∷ uploads) out =
    failed_uploads running uploads (if has_key u.0 running then out else set_entry u.0 u.1 out)

pub selected :
    {W : Type 0}
    → List Bytes
    → Option (List (Bytes × Bytes))
    → M W Error (Option (List (Bytes × Bytes)))
unfolding failed_uploads
selected running none = pure none
selected running (some uploads) = pure (some (failed_uploads running uploads []))

module _ {W Session Body : Type 0} (sv : Service W Session Body) (cnf : StorageConfig) where
  abbrev pub get_credentials : Bytes → M W Error StorageCredentials
  get_credentials bucket =
      or_raise "no credentials configured for bucket" (lookup bucket (build_cred_map cnf))

  abbrev pub session_of : Bytes → M W Error Session
  session_of bucket = do cr ← get_credentials bucket; sv.get_session cr

  abbrev pub bucket_of : List StorageSettings → M W Error Bytes
  bucket_of settings = or_raise "failed to match tablespace to s3 bucket" (
      lookup (resolve_storage_setting settings tablespace_setting default_tablespace)
        (build_bucket_map cnf))

  unfoldable pub cat_file_from_storage : Bytes → ℕ → List StorageSettings → M W Error Body
  cat_file_from_storage name offset settings = do
    bucket ← bucket_of settings
    sess ← session_of bucket
    sv.get_object sess bucket (object_path cnf name) offset

  abbrev pub copy_with : Bytes → Bytes → Bytes → Bytes → Session → M W Error Unit
  copy_with from to from_bucket to_bucket sess = do
    class ← sv.head_object sess from_bucket from
    sv.copy_object sess to_bucket (join from_bucket from) to class

  -- SScopyObject, and CopyObject
  unfoldable pub ss_copy_object : Bytes → Bytes → Bytes → Bytes → Bytes → M W Error Unit
  ss_copy_object from to from_prefix from_bucket to_bucket =
      session_of to_bucket
      >>= copy_with (key_of from_prefix from) (key_of cnf.storage_prefix to) from_bucket to_bucket

  unfoldable pub delete_object : Bytes → Bytes → M W Error Unit
  delete_object bucket key =
      session_of bucket >>= λ sess. sv.delete_object sess bucket (key_of cnf.storage_prefix key)

  unfoldable pub move_object : Bytes → Bytes → Bytes → M W Error Unit
  move_object bucket from to =
      if eqb from to
      then pure tt
      else ss_copy_object from to cnf.storage_prefix bucket bucket >> delete_object bucket from

  -- The listing of all pages; `none` is the end of the fuel or a panic. Each page takes one unit.
  unfoldable pub list_pages :
      ℕ → Session → Bytes → Bytes → Option Bytes → M W Error (Option (List ObjectInfo))
  list_pages zero sess bucket prefix token = pure none
  list_pages (suc fuel) sess bucket prefix token =
      sv.list_objects sess bucket prefix token >>= λ out.
      let metas = metas_of cnf out.contents in
      let rest = list_pages fuel sess bucket prefix (some out.next) in
      if out.is_truncated then (rest >>= λ more. pure (append_some metas more)) else pure metas

  -- ListBucketPath, up to the cache
  unfoldable pub list_bucket_path : ℕ → Bytes → Bytes → M W Error (Option (List ObjectInfo))
  unfolding list_pages
  list_bucket_path fuel bucket prefix = do
    sess ← session_of bucket
    list_pages fuel sess bucket (object_path cnf prefix) none

  unfoldable pub abort_multipart_upload : Bytes → Bytes → Bytes → M W Error Unit
  abort_multipart_upload bucket key upload_id =
      session_of bucket >>= λ sess. sv.abort_upload sess bucket key upload_id

  unfoldable pub upload_pages :
      ℕ → Session → Bytes → Option Bytes → M W Error (Option (List (Bytes × Bytes)))
  upload_pages zero sess bucket marker = pure none
  upload_pages (suc fuel) sess bucket marker = sv.list_uploads sess bucket marker >>= λ out.
      let rest = upload_pages fuel sess bucket (some out.next) in
      if out.is_truncated
      then (rest >>= λ more. pure (elim more [ none ↦ none | some us ↦ some (out.contents ++ us) ]))
      else pure (some out.contents)

  -- ListFailedMultipartUploads; `running` are the keys that this server is uploading to.
  unfoldable pub list_failed_multipart_uploads :
      ℕ → List Bytes → Bytes → M W Error (Option (List (Bytes × Bytes)))
  unfolding upload_pages selected
  list_failed_multipart_uploads fuel running bucket = do
    sess ← session_of bucket
    uploads ← upload_pages fuel sess bucket none
    selected running uploads
