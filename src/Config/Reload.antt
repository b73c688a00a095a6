-- ===== src/Config/Reload.antt =====
-- Loading and reloading the configuration of config/instance.go while the server runs.
use yproxy.Base.{◌≡◌, refl, subst, ◌⊎◌, inl, inr, false, Option, none, some, [], ◌∷◌, Bool-cases}
use yproxy.Bytes.{Bytes, eqb, eqb-eq, eqb_refl}
use yproxy.Proc.Effect.{err}
use yproxy.Proc.Garbage.Mgr.{Error, pos}
use yproxy.Config.{
  Instance, no_instance, Reading, Loaded, decoded, read_instance_config, read_systemd_socket_path,
  stored, load_instance_config, reload_instance_config,
}

not_empty : (p : Bytes) → ¬ (p ≡ []) → eqb p [] ≡ false
not_empty [] given = absurd (given refl)
not_empty (c ∷ p) given = refl

-- The variables when the program starts
abbrev pub initial : Loaded
initial = record { cfg_instance = no_instance; bootstrap_cfg_path = [] }

module _ {W : Type 0} (reading : Reading W) where
  -- After the server was started with a path: loads of any path, and reloads, whatever is there.
  pub data Loads (p : Bytes) : Loaded → Type 0 where
    started : (w : W) → Loads p (load_instance_config reading p initial w).1
    loaded :
        {l : Loaded} (path : Bytes) (w : W)
        → Loads p l
        → Loads p (load_instance_config reading path l w).1
    reloaded : {l : Loaded} (w : W) → Loads p l → Loads p (reload_instance_config reading l w).1

  -- What reading the path gave at some time, and the socket of systemd if there was no error
  abbrev pub IsRead : Bytes → Instance → Type 0
  IsRead p i =
      (w : W) × ((i ≡ (read_instance_config reading p w).0.0)
        ⊎ (i
            ≡ read_systemd_socket_path reading (read_instance_config reading p w).1
                (read_instance_config reading p w).0.0))

  abbrev Runs : Bytes → Loaded → Type 0
  Runs p l = (l.bootstrap_cfg_path ≡ p) × IsRead p l.cfg_instance

  stored-Runs :
      (p : Bytes) (iw : (Instance × Option Error) × W) (w : W)
      → read_instance_config reading p w ≡ iw
      → Runs p (stored reading p iw).1
  unfolding stored
  stored-Runs p ((i, some e), w') w h = (refl, (w, inl (rw h refl)))
  stored-Runs p ((i, none), w') w h = (refl, (w, inr (rw h refl)))

  same_path-Runs :
      (p : Bytes) (l : Loaded) (w : W)
      → l.bootstrap_cfg_path ≡ p
      → Runs p (load_instance_config reading p l w).1
  unfolding load_instance_config
  same_path-Runs p l w h = elim (Bool-cases (eqb p [])) [
    | inl e ↦ rw (h, eqb_refl p, e) (stored-Runs p (read_instance_config reading p w) w refl)
    | inr e ↦ rw (h, eqb_refl p, e) (stored-Runs p (read_instance_config reading p w) w refl)
  ]

  load_instance_config-Runs :
      (p path : Bytes) (l : Loaded) (w : W)
      → ¬ (p ≡ [])
      → Runs p l
      → Runs p (load_instance_config reading path l w).1
  unfolding load_instance_config
  load_instance_config-Runs p path l w given runs = elim (Bool-cases (eqb p path)) [
    | inl same ↦
        subst (λ q. Runs p (load_instance_config reading q l w).1) (eqb-eq p path same)
          (same_path-Runs p l w runs.0)
    | inr other ↦ rw (runs.0, not_empty p given, other) (refl, runs.1)
  ]

  -- Whatever is loaded and reloaded after the server was started with a path, it goes on with
  -- this path, and its configuration is what reading this path gave at some time, if the path is
  -- not empty.
  pub Loads-IsRead :
      (p : Bytes) (l : Loaded)
      → ¬ (p ≡ [])
      → Loads p l
      → (l.bootstrap_cfg_path ≡ p) × IsRead p l.cfg_instance
  unfolding load_instance_config reload_instance_config
  Loads-IsRead p _ given (started w) = stored-Runs p (read_instance_config reading p w) w refl
  Loads-IsRead p _ given (loaded {l = l} path w h) =
      load_instance_config-Runs p path l w given (Loads-IsRead p l given h)
  Loads-IsRead p _ given (reloaded {l = l} w h) =
      load_instance_config-Runs p l.bootstrap_cfg_path l w given (Loads-IsRead p l given h)

  -- A reload that cannot open the file returns the error and leaves the server, which goes on,
  -- without the configuration that it had: there is no bucket and no prefix, and the garbage
  -- manager neither looks at the backups nor protects new files.
  pub reload_instance_config-lost :
      (l : Loaded) (w w' : W) (e : Error)
      → reading.open_file l.bootstrap_cfg_path w ≡ (err e, w')
      → ((reload_instance_config reading l w).0 ≡ some e)
        × ((reload_instance_config reading l w).1.cfg_instance.storage_cnf.storage_bucket ≡ [])
        × ((reload_instance_config reading l w).1.cfg_instance.storage_cnf.storage_prefix ≡ [])
        × ((reload_instance_config reading l w).1.cfg_instance.vacuum_cnf.check_backup ≡ false)
        × ((reload_instance_config reading l w).1.cfg_instance.vacuum_cnf.protection_window ≡ pos 0)
  unfolding reload_instance_config load_instance_config read_instance_config decoded stored
  reload_instance_config-lost l w w' e h = elim (Bool-cases (eqb l.bootstrap_cfg_path [])) [
    | inl empty ↦ rw (eqb_refl l.bootstrap_cfg_path, empty, h) (refl, refl, refl, refl, refl)
    | inr given ↦ rw (eqb_refl l.bootstrap_cfg_path, given, h) (refl, refl, refl, refl, refl)
  ]
