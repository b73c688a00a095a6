-- ===== src/Storage/Settings.antt =====
-- ResolveStorageSetting of pkg/storage/utils.go, and the maps that pkg/storage/storage.go makes of
-- the configuration, with the names of the settings. A map is the list of its entries.
use yproxy.Base.{Option, none, some, List, [], ◌∷◌, if◌then◌else◌}
use yproxy.Bytes.{Bytes, ascii, eqb}
use yproxy.Message.Settings.{StorageSettings}

unfoldable pub resolve_storage_setting : List StorageSettings → Bytes → Bytes → Bytes
resolve_storage_setting [] name default_val = default_val
resolve_storage_setting (s ∷ settings) name default_val =
    let rest = resolve_storage_setting settings name default_val in
    if eqb s.name name then s.value else rest

pub record StorageCredentials : Type 0 where
  pub access_key_id : Bytes
  pub secret_access_key : Bytes

-- The fields of config.Storage that the storages use.
pub record StorageConfig : Type 0 where
  pub storage_prefix : Bytes
  pub storage_bucket : Bytes
  pub access_key_id : Bytes
  pub secret_access_key : Bytes
  pub tablespace_map : List (Bytes × Bytes)
  pub credential_map : List (Bytes × StorageCredentials)
  -- what ID() makes of the endpoint, the bucket and the prefix
  pub id : Bytes

-- The value of a key, if it has one
unfoldable pub lookup : {A : Type 0} → Bytes → List (Bytes × A) → Option A
lookup key [] = none
lookup key (e ∷ es) = let rest = lookup key es in if eqb e.0 key then some e.1 else rest

abbrev pub add_missing : {A : Type 0} → Bytes → A → List (Bytes × A) → List (Bytes × A)
add_missing key a mp = elim (lookup key mp) [ some _ ↦ mp | none ↦ (key, a) ∷ mp ]

-- `pg_default`
abbrev pub default_tablespace : Bytes
default_tablespace = 112 ∷ 103 ∷ 95 ∷ 100 ∷ 101 ∷ 102 ∷ 97 ∷ 117 ∷ 108 ∷ 116 ∷ []

-- `TableSpace`
abbrev pub tablespace_setting : Bytes
tablespace_setting = 84 ∷ 97 ∷ 98 ∷ 108 ∷ 101 ∷ 83 ∷ 112 ∷ 97 ∷ 99 ∷ 101 ∷ []

abbrev pub storage_class_setting : Bytes
storage_class_setting = ascii "StorageClass"

abbrev pub multipart_chunk_size_setting : Bytes
multipart_chunk_size_setting = ascii "MultipartChunkSize"

abbrev pub multipart_upload_setting : Bytes
multipart_upload_setting = ascii "MultipartUpload"

unfoldable pub build_bucket_map : StorageConfig → List (Bytes × Bytes)
unfolding lookup
build_bucket_map cnf = add_missing default_tablespace cnf.storage_bucket cnf.tablespace_map

unfoldable pub build_cred_map : StorageConfig → List (Bytes × StorageCredentials)
unfolding lookup
build_cred_map cnf =
    add_missing cnf.storage_bucket
      (record { access_key_id = cnf.access_key_id; secret_access_key = cnf.secret_access_key })
      cnf.credential_map
