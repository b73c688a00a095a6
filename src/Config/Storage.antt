-- ===== src/Config/Storage.antt =====
-- config/storage.go, but for ID().
use yproxy.Base.{ℕ, ◌*◌, Bool, false, List, [], ◌∷◌}
use yproxy.Bytes.{Bytes, ascii}
use yproxy.Proc.Garbage.Mgr.{ℤ, pos}
use yproxy.Storage.Settings.{StorageCredentials}

pub record Crypto : Type 0 where
  pub gpg_key_id : Bytes
  pub gpg_key_path : Bytes

pub record Storage : Type 0 where
  pub storage_endpoint : Bytes
  pub access_key_id : Bytes
  pub secret_access_key : Bytes
  pub storage_prefix : Bytes
  pub storage_bucket : Bytes
  pub credential_map : List (Bytes × StorageCredentials)
  pub tablespace_map : List (Bytes × Bytes)
  pub storage_concurrency : ℤ
  pub copy_storage_concurrency : ℤ
  pub enable_rate_limiter : Bool
  pub storage_rate_limit : ℕ
  pub storage_region : Bytes
  pub storage_optimize_copy : Bool
  pub storage_type : Bytes
  pub endpoint_source_host : Bytes
  pub endpoint_source_port : Bytes
  pub endpoint_source_scheme : Bytes

-- The zero values
abbrev pub no_crypto : Crypto
no_crypto = record { gpg_key_id = []; gpg_key_path = [] }

abbrev pub no_storage : Storage
no_storage = record {
  storage_endpoint = [];
  access_key_id = [];
  secret_access_key = [];
  storage_prefix = [];
  storage_bucket = [];
  credential_map = [];
  tablespace_map = [];
  storage_concurrency = pos 0;
  copy_storage_concurrency = pos 0;
  enable_rate_limiter = false;
  storage_rate_limit = 0;
  storage_region = [];
  storage_optimize_copy = false;
  storage_type = [];
  endpoint_source_host = [];
  endpoint_source_port = [];
  endpoint_source_scheme = [];
}

abbrev pub default_storage_type : Bytes
default_storage_type = ascii "s3"

abbrev pub default_storage_concurrency : ℤ
default_storage_concurrency = pos 100

abbrev pub default_copy_storage_concurrency : ℤ
default_copy_storage_concurrency = pos 200

abbrev pub default_endpoint_source_scheme : Bytes
default_endpoint_source_scheme = ascii "https"

abbrev pub default_storage_rate_limit : ℕ
default_storage_rate_limit = 1024 * 1024 * 1024

abbrev pub StorageOption : Type 0
StorageOption = Storage → Storage

abbrev pub with_storage_type : Bytes → StorageOption
with_storage_type storage_type s = record s { storage_type = storage_type }

abbrev pub with_storage_concurrency : ℤ → StorageOption
with_storage_concurrency storage_concurrency s = record s {
  storage_concurrency = storage_concurrency;
}

abbrev pub with_copy_storage_concurrency : ℤ → StorageOption
with_copy_storage_concurrency copy_storage_concurrency s = record s {
  copy_storage_concurrency = copy_storage_concurrency;
}

abbrev pub with_storage_rate_limit : ℕ → StorageOption
with_storage_rate_limit storage_rate_limit s = record s { storage_rate_limit = storage_rate_limit }

abbrev pub with_endpoint_source_scheme : Bytes → StorageOption
with_endpoint_source_scheme endpoint_source_scheme s = record s {
  endpoint_source_scheme = endpoint_source_scheme;
}

-- The options in order, each on what the one before has left
abbrev pub apply_options : {A : Type 0} → A → List (A → A) → A
apply_options a [] = a
apply_options a (opt ∷ opts) = apply_options (opt a) opts

unfoldable pub build_storage : List StorageOption → Storage
build_storage opts =
    apply_options
      (apply_options no_storage (
        with_storage_type default_storage_type
        ∷ with_storage_concurrency default_storage_concurrency
        ∷ with_copy_storage_concurrency default_copy_storage_concurrency
        ∷ with_storage_rate_limit default_storage_rate_limit
        ∷ with_endpoint_source_scheme default_endpoint_source_scheme
        ∷ []))
      opts

unfoldable pub build_backup_storage : List StorageOption → Storage
build_backup_storage opts =
    apply_options
      (apply_options no_storage (
        with_storage_type default_storage_type
        ∷ with_storage_concurrency default_storage_concurrency
        ∷ []))
      opts
