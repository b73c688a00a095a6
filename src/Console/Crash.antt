-- ===== src/Console/Crash.antt =====
-- The COPY command of pkg/core/pg/pg.go with options that its type assertions do not take, and with a
-- source that cannot be read.
use yproxy.Base.{
  ◌≡◌, ◌↔◌, ◌⊎◌, ◌∙◌, sym, ap, ℕ, inl, inr, Bool-cases, Option-cases, refl, Option, none, some,
  List, [], ◌∷◌,
}
use yproxy.Bytes.{Bytes, ascii, eqb, eqb-eq}
use yproxy.Proc.Effect.{Result, ok, err}
use yproxy.Proc.Garbage.Mgr.{Error, ℤ}
use yproxy.Proc.Copy.{CopyLister, Lists, list_files_to_copy}
use yproxy.Clients.{PoolImpl}
use yproxy.Console.{
  Arg, sconst, iconst, bconst, no_arg, CopyOption, CopySource, copy, panicked, config_option,
  ConsoleEnv, Fault, failed, panic, to_uint64, listed_rows, opened_rows, configured_rows,
  process_copy, copied_rows, port_option, copy_option, copy_options, default_source, answer_copy,
  answer_node, answer_query,
}
use yproxy.Console.Shown.{Texts}

-- A `config` whose argument is no string, or a `port` whose argument is no integer
pub data IsBad (to_lower : Bytes → Bytes) : CopyOption → Type 0 where
  config :
      (o : CopyOption)
      → to_lower o.name ≡ ascii "config"
      → ((v : Bytes) → ¬ (o.arg ≡ sconst v))
      → IsBad to_lower o
  port :
      (o : CopyOption)
      → to_lower o.name ≡ ascii "port"
      → ((v : ℤ) → ¬ (o.arg ≡ iconst v))
      → IsBad to_lower o

pub data HasBad (to_lower : Bytes → Bytes) : List CopyOption → Type 0 where
  here : {o : CopyOption} {os : List CopyOption} → IsBad to_lower o → HasBad to_lower (o ∷ os)
  there : {o : CopyOption} {os : List CopyOption} → HasBad to_lower os → HasBad to_lower (o ∷ os)

config_option-bad :
    (a : Arg) (s : CopySource) → config_option a s ≡ none → (v : Bytes) → ¬ (a ≡ sconst v)
unfolding config_option
config_option-bad (sconst u) s h v e = cc
config_option-bad (iconst u) s h v e = cc
config_option-bad (bconst u) s h v e = cc
config_option-bad no_arg s h v e = cc

bad-config_option :
    (a : Arg) (s : CopySource) → ((v : Bytes) → ¬ (a ≡ sconst v)) → config_option a s ≡ none
unfolding config_option
bad-config_option (sconst u) s h = absurd (h u refl)
bad-config_option (iconst u) s h = refl
bad-config_option (bconst u) s h = refl
bad-config_option no_arg s h = refl

port_option-bad : (a : Arg) (s : CopySource) → port_option a s ≡ none → (v : ℤ) → ¬ (a ≡ iconst v)
unfolding port_option
port_option-bad (sconst u) s h v e = cc
port_option-bad (iconst u) s h v e = cc
port_option-bad (bconst u) s h v e = cc
port_option-bad no_arg s h v e = cc

bad-port_option : (a : Arg) (s : CopySource) → ((v : ℤ) → ¬ (a ≡ iconst v)) → port_option a s ≡ none
unfolding port_option
bad-port_option (sconst u) s h = refl
bad-port_option (iconst u) s h = absurd (h u refl)
bad-port_option (bconst u) s h = refl
bad-port_option no_arg s h = refl

none-ne : {A : Type 0} {a : A} → ¬ (some a ≡ none)
none-ne h = cc

module _ (to_lower : Bytes → Bytes) where
  copy_option-IsBad :
      (o : CopyOption) (s : CopySource) → copy_option to_lower o s ≡ none → IsBad to_lower o
  unfolding copy_option
  copy_option-IsBad o s h = elim (Bool-cases (eqb (to_lower o.name) (ascii "config"))) [
    | inl e ↦ config o (eqb-eq _ _ e) (config_option-bad o.arg s (rw e at h))
    | inr e ↦ elim (Bool-cases (eqb (to_lower o.name) (ascii "port"))) [
      | inl e' ↦ port o (eqb-eq _ _ e') (port_option-bad o.arg s (rw (e, e') at h))
      | inr e' ↦ absurd (none-ne (rw (e, e') at h))
    ]
  ]

  IsBad-copy_option :
      (o : CopyOption) (s : CopySource) → IsBad to_lower o → copy_option to_lower o s ≡ none
  unfolding copy_option
  IsBad-copy_option o s (config _ e h) = rw e (bad-config_option o.arg s h)
  IsBad-copy_option o s (port _ e h) = rw e (bad-port_option o.arg s h)

  copy_options-HasBad :
      (os : List CopyOption) (s : CopySource)
      → copy_options to_lower os s ≡ none
      → HasBad to_lower os
  unfolding copy_options
  copy_options-HasBad [] s h = cc
  copy_options-HasBad (o ∷ os) s h = elim (Option-cases (copy_option to_lower o s)) [
    | inl e ↦ here (copy_option-IsBad o s e)
    | inr (t, e) ↦ there (copy_options-HasBad os t (rw e at h))
  ]

  HasBad-copy_options :
      (os : List CopyOption) (s : CopySource)
      → HasBad to_lower os
      → copy_options to_lower os s ≡ none
  unfolding copy_options
  HasBad-copy_options [] s b = elim b [ ]
  HasBad-copy_options (o ∷ os) s (here b) = rw (IsBad-copy_option o s b) refl
  HasBad-copy_options (o ∷ os) s (there b) = elim (Option-cases (copy_option to_lower o s)) [
    | inl e ↦ rw e refl
    | inr (t, e) ↦ rw e (HasBad-copy_options os t b)
  ]

module _ {W Cnf : Type 0} (env : ConsoleEnv W Cnf) where
  -- The options are read, and the configuration and the storages, and then listing the files
  -- panics.
  pub record ListPanics (to_lower : Bytes → Bytes) (path : Bytes) (options : List CopyOption)
      (w : W) : Type 0 where
    pub source : CopySource
    pub cnf : Cnf
    pub lister : CopyLister W Fault
    pub world : W
    pub options_read : copy_options to_lower options default_source ≡ some source
    pub config_read : env.read_instance_config source.old_cfg_path w ≡ (ok cnf, world)
    pub opened : env.new_lister cnf ≡ ok lister
    pub listed : (list_files_to_copy lister path (to_uint64 source.port) world).0 ≡ err panic

  listed_rows-panic :
      (lw : Result Fault Lists × W) → (listed_rows env lw).0 ≡ none → lw.0 ≡ err panic
  unfolding listed_rows
  listed_rows-panic (err (failed e), w) h = cc
  listed_rows-panic (err panic, w) h = refl
  listed_rows-panic (ok lists, w) h = cc

  opened_rows-panic :
      (prefix : Bytes) (port : ℕ) (r : Result Error (CopyLister W Fault)) (w : W)
      → (opened_rows env prefix port r w).0 ≡ none
      → (lister : CopyLister W Fault) × (r ≡ ok lister)
        × ((list_files_to_copy lister prefix port w).0 ≡ err panic)
  unfolding opened_rows
  opened_rows-panic prefix at_port (err e) w h = cc
  opened_rows-panic prefix at_port (ok lister) w h = (lister, refl, listed_rows-panic _ h)

  process_copy-panic :
      (to_lower : Bytes → Bytes) (path : Bytes) (options : List CopyOption) (s : CopySource) (w : W)
      → copy_options to_lower options default_source ≡ some s
      → (process_copy env path (to_uint64 s.port) s.old_cfg_path w).0 ≡ none
      → ListPanics to_lower path options w
  unfolding process_copy configured_rows
  process_copy-panic to_lower path options s w read h =
      go (env.read_instance_config s.old_cfg_path w) refl h
    where
      go :
          (r : Result Error Cnf × W)
          → env.read_instance_config s.old_cfg_path w ≡ r
          → (configured_rows env path (to_uint64 s.port) r).0 ≡ none
          → ListPanics to_lower path options w
      go (err e, w') same k = cc
      go (ok c, w') same k =
          let (found, opens, panics) = opened_rows-panic path (to_uint64 s.port) _ w' k in
          record {
            source = s;
            cnf = c;
            lister = found;
            world = w';
            options_read = read;
            config_read = same;
            opened = opens;
            listed = panics;
          }

  panic-listed_rows :
      (lw : Result Fault Lists × W) → lw.0 ≡ err panic → (listed_rows env lw).0 ≡ none
  unfolding listed_rows
  panic-listed_rows (err (failed e), w) h = cc
  panic-listed_rows (err panic, w) h = refl
  panic-listed_rows (ok lists, w) h = cc

  ListPanics-process_copy :
      (to_lower : Bytes → Bytes) (path : Bytes) (options : List CopyOption) (w : W)
      (l : ListPanics to_lower path options w)
      → (process_copy env path (to_uint64 l.source.port) l.source.old_cfg_path w).0 ≡ none
  unfolding process_copy configured_rows opened_rows
  ListPanics-process_copy to_lower path options w l =
      ap (λ (r : Result Error Cnf × W). (configured_rows env path (to_uint64 l.source.port) r).0)
        l.config_read
      ∙ ap
          (λ (r : Result Error (CopyLister W Fault)).
            (opened_rows env path (to_uint64 l.source.port) r l.world).0)
          l.opened
      ∙ panic-listed_rows _ l.listed

  module _ (t : Texts) (p : PoolImpl) where
    copied_rows-panicked :
        (r : Option (List (List Bytes))) → copied_rows env t p r ≡ panicked → r ≡ none
    unfolding copied_rows
    copied_rows-panicked none h = refl
    copied_rows-panicked (some rows) h = cc

    answer_copy-panicked :
        (path : Bytes) (options : List CopyOption) (w : W)
        → (answer_copy env t p path (copy_options t.to_lower options default_source) w).0 ≡ panicked
        → HasBad t.to_lower options ⊎ ListPanics t.to_lower path options w
    unfolding answer_copy
    answer_copy-panicked path options w h =
        elim (Option-cases (copy_options t.to_lower options default_source)) [
          | inl bad ↦ inl (copy_options-HasBad t.to_lower options default_source bad)
          | inr (s, read) ↦
              let listing =
                ap (λ (o : Option CopySource). (answer_copy env t p path o w).0) (sym read) ∙ h in
              inr (
                process_copy-panic t.to_lower path options s w read
                  (copied_rows-panicked _ listing))
        ]

    panicked-answer_copy :
        (path : Bytes) (options : List CopyOption) (w : W)
        → HasBad t.to_lower options ⊎ ListPanics t.to_lower path options w
        → (answer_copy env t p path (copy_options t.to_lower options default_source) w).0 ≡ panicked
    unfolding answer_copy copied_rows
    panicked-answer_copy path options w (inl bad) =
        rw (HasBad-copy_options t.to_lower options default_source bad) refl
    panicked-answer_copy path options w (inr l) =
        ap (λ (o : Option CopySource). (answer_copy env t p path o w).0) l.options_read
        ∙ ap (copied_rows env t p) (ListPanics-process_copy t.to_lower path options w l)

    -- A COPY command panics, which ends the server, exactly if one of its options is named
    -- `config` in some case and its argument is no string, or `port` and is no integer, or if
    -- its options are taken, the configuration and the storages are read, and listing the files
    -- panics.
    pub answer_query-panicked :
        (path : Bytes) (options : List CopyOption) (w : W)
        → ((answer_query env t p (ok (copy path options)) w).0 ≡ panicked)
          ↔ (HasBad t.to_lower options ⊎ ListPanics t.to_lower path options w)
    unfolding answer_query answer_node
    answer_query-panicked path options w =
        (answer_copy-panicked path options w, panicked-answer_copy path options w)
