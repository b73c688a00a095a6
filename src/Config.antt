-- ===== src/Config.antt =====
-- config/instance.go: the configuration of the server, its defaults, and how it is loaded and
-- reloaded. Decoding is a parameter; closing a file and printing the configuration succeed.
pub mod Storage
pub mod Vacuum
pub mod Reload
mod Tests
use yproxy.Base.{
  ℕ, Bool, true, false, ◌&&◌, not, Option, none, some, List, [], ◌∷◌, ◌++◌, if◌then◌else◌,
}
use yproxy.Bytes.{Bytes, ascii, eqb}
use yproxy.Proc.Effect.{M, Result, ok, err}
use yproxy.Proc.Garbage.Mgr.{Error, text, ℤ, pos}
use yproxy.Proc.Garbage.Mgr as Clean
use yproxy.Backups.{has_suffix}
use yproxy.Config.Storage as Store
use yproxy.Config.Storage.{
  Crypto, no_crypto, no_storage, build_storage, build_backup_storage, apply_options,
}
use yproxy.Config.Vacuum.{no_vacuum, build_vacuum}

pub record Proxy : Type 0 where
  pub console_port : Bytes
  pub bucket_cache_path : Bytes

pub record Instance : Type 0 where
  pub storage_cnf : Store.Storage
  pub backup_storage_cnf : Store.Storage
  pub proxy_cnf : Proxy
  pub crypto_cnf : Crypto
  pub vacuum_cnf : Clean.Vacuum
  pub log_path : Bytes
  pub log_level : Bytes
  pub socket_path : Bytes
  pub stat_port : ℤ
  pub psql_port : ℤ
  pub interconnect_socket_path : Bytes
  pub debug_port : ℤ
  pub debug_minutes : ℤ
  pub metrics_port : ℤ
  pub yezzey_restore_paranoid : Bool
  pub yezzey_cleanup_paranoid : Bool
  pub systemd_notifications_debug : Bool
  pub systemd_socket_path : Bytes

-- The zero value
abbrev pub no_instance : Instance
no_instance = record {
  storage_cnf = no_storage;
  backup_storage_cnf = no_storage;
  proxy_cnf = record { console_port = []; bucket_cache_path = [] };
  crypto_cnf = no_crypto;
  vacuum_cnf = no_vacuum;
  log_path = [];
  log_level = [];
  socket_path = [];
  stat_port = pos 0;
  psql_port = pos 0;
  interconnect_socket_path = [];
  debug_port = pos 0;
  debug_minutes = pos 0;
  metrics_port = pos 0;
  yezzey_restore_paranoid = false;
  yezzey_cleanup_paranoid = false;
  systemd_notifications_debug = false;
  systemd_socket_path = [];
}

abbrev pub InstanceOption : Type 0
InstanceOption = Instance → Instance

abbrev pub with_storage_cnf : Store.Storage → InstanceOption
with_storage_cnf storage i = record i { storage_cnf = storage }

abbrev pub with_backup_storage_cnf : Store.Storage → InstanceOption
with_backup_storage_cnf storage i = record i { backup_storage_cnf = storage }

abbrev pub with_vacuum_cnf : Clean.Vacuum → InstanceOption
with_vacuum_cnf vacuum i = record i { vacuum_cnf = vacuum }

abbrev pub with_stat_port : ℤ → InstanceOption
with_stat_port stat_port i = record i { stat_port = stat_port }

abbrev pub with_psql_port : ℤ → InstanceOption
with_psql_port psql_port i = record i { psql_port = psql_port }

abbrev pub with_metrics_port : ℤ → InstanceOption
with_metrics_port metrics_port i = record i { metrics_port = metrics_port }

abbrev pub with_cleanup_opts : Bool → InstanceOption
with_cleanup_opts p i = record i { yezzey_cleanup_paranoid = p }

unfoldable pub build_instance : List InstanceOption → Instance
unfolding build_storage build_backup_storage build_vacuum
build_instance opts =
    apply_options
      (apply_options no_instance (
        with_storage_cnf (build_storage [])
        ∷ with_backup_storage_cnf (build_backup_storage [])
        ∷ with_vacuum_cnf (build_vacuum [])
        ∷ with_stat_port (pos 7432)
        ∷ with_psql_port (pos 8432)
        ∷ with_metrics_port (pos 2112)
        ∷ with_cleanup_opts true
        ∷ []))
      opts

-- What is called to read a file: Open with what reading gives, the decoders, which may have set
-- some fields before they fail, and the environment.
pub record Reading (W : Type 0) : Type 0 where
  pub open_file : Bytes → M W Error Bytes
  pub toml : Bytes → Instance → Instance × Option Error
  pub yaml : Bytes → Instance → Instance × Option Error
  pub json : Bytes → Instance → Instance × Option Error
  pub notify_socket : W → Bytes

-- The variables of the package
pub record Loaded : Type 0 where
  pub cfg_instance : Instance
  pub bootstrap_cfg_path : Bytes

module _ {W : Type 0} (reading : Reading W) where
  unfoldable pub init_instance_config : Bytes → Bytes → Instance × Option Error
  unfolding build_instance has_suffix
  init_instance_config name content =
      if has_suffix name (ascii ".toml")
      then reading.toml content (build_instance [])
      else if has_suffix name (ascii ".yaml")
      then reading.yaml content (build_instance [])
      else if has_suffix name (ascii ".json")
      then reading.json content (build_instance [])
      else (build_instance [], some (text "unknown config format type"))

  decoded : Bytes → Result Error Bytes × W → (Instance × Option Error) × W
  unfolding init_instance_config
  decoded cfg_path (err e, w) = ((no_instance, some e), w)
  decoded cfg_path (ok content, w) = (init_instance_config cfg_path content, w)

  -- The configuration and the error, both of which are returned
  unfoldable pub read_instance_config : Bytes → W → (Instance × Option Error) × W
  unfolding decoded
  read_instance_config cfg_path w = decoded cfg_path (reading.open_file cfg_path w)

  unfoldable pub read_systemd_socket_path : W → Instance → Instance
  read_systemd_socket_path w i =
      if eqb (reading.notify_socket w) []
      then i
      else record i { systemd_socket_path = reading.notify_socket w }

  stored : Bytes → (Instance × Option Error) × W → Option Error × Loaded × W
  unfolding read_systemd_socket_path
  stored cfg_path ((i, some e), w) =
      (some e, record { cfg_instance = i; bootstrap_cfg_path = cfg_path }, w)
  stored cfg_path ((i, none), w) = (
    none,
    record { cfg_instance = read_systemd_socket_path w i; bootstrap_cfg_path = cfg_path },
    w,
  )

  unfoldable pub load_instance_config : Bytes → Loaded → W → Option Error × Loaded × W
  unfolding read_instance_config stored
  load_instance_config cfg_path l w =
      if not (eqb l.bootstrap_cfg_path []) && not (eqb l.bootstrap_cfg_path cfg_path)
      then (some (text "bootstrap config path already set"), l, w)
      else stored cfg_path (read_instance_config cfg_path w)

  unfoldable pub reload_instance_config : Loaded → W → Option Error × Loaded × W
  unfolding load_instance_config
  reload_instance_config l w = load_instance_config l.bootstrap_cfg_path l w
