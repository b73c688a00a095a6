-- ===== src/Config/Tests.antt =====
-- A configuration that can be read once. `W` is whether it has been read.
use yproxy.Base.{◌≡◌, refl, Bool, true, false, Option, none, some, []}
use yproxy.Bytes.{Bytes, ascii}
use yproxy.Proc.Effect.{ok, err, M}
use yproxy.Proc.Garbage.Mgr.{Error, text, pos}
use yproxy.Config.{Instance, Reading, Loaded, load_instance_config, reload_instance_config}
use yproxy.Config.Reload.{
  initial, started, reloaded, IsRead, Loads-IsRead, reload_instance_config-lost,
}

abbrev once : Bytes → M Bool Error Bytes
once path false = (ok [], true)
once path true = (err (text "no such file"), true)

-- The bucket is the only setting.
abbrev bucket : Bytes → Instance → Instance × Option Error
bucket content i =
    (record i { storage_cnf = record (i.storage_cnf) { storage_bucket = ascii "b" } }, none)

abbrev reading : Reading Bool
reading = record {
  open_file = once;
  toml = bucket;
  yaml = bucket;
  json = bucket;
  notify_socket = λ w. [];
}

abbrev path : Bytes
path = ascii "y.yaml"

abbrev running : Loaded
running = (load_instance_config reading path initial false).1

has_bucket : running.cfg_instance.storage_cnf.storage_bucket ≡ ascii "b"
unfolding load_instance_config
has_bucket = refl

Loads-IsRead_example :
    ((reload_instance_config reading running true).1.bootstrap_cfg_path ≡ path)
    × IsRead reading path (reload_instance_config reading running true).1.cfg_instance
Loads-IsRead_example =
    Loads-IsRead reading path (reload_instance_config reading running true).1 (λ e. cc)
      (reloaded true (started false))

reload_instance_config-lost_example :
    ((reload_instance_config reading running true).0 ≡ some (text "no such file"))
    × ((reload_instance_config reading running true).1.cfg_instance.storage_cnf.storage_bucket ≡ [])
    × ((reload_instance_config reading running true).1.cfg_instance.storage_cnf.storage_prefix ≡ [])
    × ((reload_instance_config reading running true).1.cfg_instance.vacuum_cnf.check_backup ≡ false)
    × ((reload_instance_config reading running true).1.cfg_instance.vacuum_cnf.protection_window
        ≡ pos 0)
reload_instance_config-lost_example =
    reload_instance_config-lost reading running true true (text "no such file") refl
