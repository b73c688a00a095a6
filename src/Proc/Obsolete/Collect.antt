-- ===== src/Proc/Obsolete/Collect.antt =====
-- Which files get an expire hint from ProcessCollectObsolete of pkg/proc/interaction.go.
use Prim.Native.String.{String}
use yproxy.Base.{ℕ, ◌≡◌, ◌≢◌, sym, ap, ◌∙◌, ◌⊎◌, inl, inr, true, false, List, [], ◌∷◌, Bool-cases}
use yproxy.Bytes.{Bytes}
use yproxy.Message.ObjectMeta.{ObjectInfo}
use yproxy.Message.Obsolete.{ObsoleteMessage}
use yproxy.Database.{Maps}
use yproxy.Proc.Effect.{M, Result, ok, err, Keeps, Keeps-bind}
use yproxy.Proc.Garbage.Mgr.{Error}
use yproxy.Proc.Obsolete.{
  Services, in_virtual, in_expire, replied, replying, collect_files, collect_over, collect_since,
  collect_listed, process_collect_obsolete,
}

replied-ok :
    {W Conn A : Type 0} (sv : Services W Conn) (t : String) (r : Result Error A × W) (a : A)
    → (replied sv t r).0 ≡ ok a
    → r.0 ≡ ok a
unfolding replied
replied-ok sv t (ok b, w) a h = h
replied-ok sv t (err e, w) a h = cc

module _ {W Conn : Type 0} (sv : Services W Conn) (P : W → Type 0) where
  -- `P` outlasts all that the handler does but an added hint.
  pub record Outlasts : Type 0 where
    pub listing : (prefix : Bytes) → Keeps P (sv.list_path prefix)
    pub indexes : (port : ℕ) → Keeps P (sv.get_virtual_expire_indexes port)
    pub next_lsn : (port : ℕ) (db : Bytes) → Keeps P (sv.get_next_lsn port db)
    pub connects : (port : ℕ) (db : Bytes) → Keeps P (sv.get_connect_to_database port db)
    pub replies : (e : Error) (t : String) (w : W) → P w → P (sv.reply_error e t w)

  abbrev AddKeeps : Bytes → Type 0
  AddKeeps q = (conn : Conn) (lsn : ℕ) → Keeps P (sv.add_to_expire_index conn q lsn)

  module _ (outlasts : Outlasts) where
    replied-P : {A : Type 0} (t : String) (r : Result Error A × W) → P r.1 → P (replied sv t r).1
    unfolding replied
    replied-P t (ok a, w) h = h
    replied-P t (err e, w) h = outlasts.replies e t w h

    replying-Keeps :
        {A : Type 0} (t : String) (m : M W Error A) → Keeps P m → Keeps P (replying sv t m)
    replying-Keeps t m keeps w h = replied-P t (m w) (keeps w h)

    collect_files-P :
        (conn : Conn) (lsn : ℕ) (m : Maps) (files : List ObjectInfo) (w : W)
        → ((q : Bytes) → in_virtual q m.virtual ≡ false → in_expire q m.expire ≡ false → AddKeeps q)
        → P w
        → P (collect_files sv conn lsn m files w).1
    unfolding collect_files
    collect_files-P conn lsn m [] w adds h = h
    collect_files-P conn lsn m (v ∷ files) w adds h =
        elim (Bool-cases (in_virtual v.path m.virtual)) [
          | inl used ↦ rw (used, collect_files) (collect_files-P conn lsn m files w adds h)
          | inr unused ↦ elim (Bool-cases (in_expire v.path m.expire)) [
            | inl hinted ↦
                rw (unused, hinted, collect_files) (collect_files-P conn lsn m files w adds h)
            | inr fresh ↦
                rw (unused, fresh, collect_files)
                  (collect_files-P conn lsn m files _ adds (
                    replying-Keeps "error while adding to ei"
                      (sv.add_to_expire_index conn v.path lsn) (adds v.path unused fresh conn lsn) w
                      h))
          ]
        ]

    collect_listed-Keeps :
        (msg : ObsoleteMessage) (files : List ObjectInfo)
        → ((w : W) (m : Maps) (q : Bytes)
            → (sv.get_virtual_expire_indexes msg.port w).0 ≡ ok m
            → in_virtual q m.virtual ≡ false
            → in_expire q m.expire ≡ false
            → AddKeeps q)
        → Keeps P (collect_listed sv msg files)
    collect_listed-Keeps msg files adds =
        Keeps-bind P
          (replying sv "failed get virtual expire indexes" (sv.get_virtual_expire_indexes msg.port))
          (collect_since sv msg files)
          (replying-Keeps "failed get virtual expire indexes"
            (sv.get_virtual_expire_indexes msg.port) (outlasts.indexes msg.port))
          (λ w m index.
            Keeps-bind P (replying sv "failed get min lsn" (sv.get_next_lsn msg.port msg.db_name))
              (collect_over sv msg files m)
              (replying-Keeps "failed get min lsn" (sv.get_next_lsn msg.port msg.db_name)
                (outlasts.next_lsn msg.port msg.db_name))
              (λ _ lsn _.
                Keeps-bind P
                  (replying sv "failed connect to db"
                    (sv.get_connect_to_database msg.port msg.db_name))
                  (λ conn. collect_files sv conn lsn m files)
                  (replying-Keeps "failed connect to db"
                    (sv.get_connect_to_database msg.port msg.db_name)
                    (outlasts.connects msg.port msg.db_name))
                  (λ _ conn _ w' h.
                    collect_files-P conn lsn m files w'
                      (λ q. adds w m q (
                        replied-ok sv "failed get virtual expire indexes"
                          (sv.get_virtual_expire_indexes msg.port w) m index))
                      h)))

    -- No run of ProcessCollectObsolete adds a hint for a path that is in the virtual index or in
    -- the expire index already: what only such a hint could end still holds.
    pub process_collect_obsolete-Keeps :
        (msg : ObsoleteMessage) (p : Bytes)
        → ((q : Bytes)
            → q ≢ p
            → (conn : Conn) (lsn : ℕ) → Keeps P (sv.add_to_expire_index conn q lsn))
        → ((w : W) (m : Maps)
            → (sv.get_virtual_expire_indexes msg.port w).0 ≡ ok m
            → (in_virtual p m.virtual ≡ true) ⊎ (in_expire p m.expire ≡ true))
        → Keeps P (process_collect_obsolete sv msg)
    unfolding process_collect_obsolete
    process_collect_obsolete-Keeps msg p others known =
        Keeps-bind P (replying sv "failed list path" (sv.list_path msg.message))
          (collect_listed sv msg)
          (replying-Keeps "failed list path" (sv.list_path msg.message)
            (outlasts.listing msg.message))
          (λ _ files _. collect_listed-Keeps msg files (λ w m q index unused fresh.
            others q (λ same. elim (known w m index) [
              | inl used ↦ cc (sym unused ∙ ap (λ (b : Bytes). in_virtual b m.virtual) same ∙ used)
              | inr hinted ↦ cc (sym fresh ∙ ap (λ (b : Bytes). in_expire b m.expire) same ∙ hinted)
            ])))
