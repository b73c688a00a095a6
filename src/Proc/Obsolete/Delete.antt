-- ===== src/Proc/Obsolete/Delete.antt =====
-- What ProcessDeleteObsolete of pkg/proc/interaction.go leaves in the storage.
use yproxy.Base.{
  ℕ, ◌≤◌, ◌≡◌, ◌≢◌, refl, sym, subst, ◌∙◌, ◌⊎◌, inl, inr, true, false, List, [], ◌∷◌, ◌++◌, leb,
  ◌==◌, Elem, Bool-cases, arith,
}
use yproxy.Bytes.{Bytes}
use yproxy.Message.Obsolete.{ObsoleteMessage}
use yproxy.Backups.{no_lsn}
use yproxy.Database.{Maps}
use yproxy.Proc.Garbage.Mgr.{Error}
use yproxy.Proc.Effect.{Result, ok, err, Keeps, Keeps-bind}
use yproxy.Proc.Garbage.Handlers.{contains}
use yproxy.Proc.Obsolete.{
  Services, in_virtual, distinct, trash_prefix, move_to_trash, delete_candidate, delete_candidates,
  delete_since, delete_indexed, process_delete_obsolete,
}

distinct-Elem :
    (es : List (Bytes × ℕ)) (seen : List Bytes) (e : Bytes × ℕ)
    → Elem e (distinct es seen)
    → Elem e es
unfolding distinct
distinct-Elem [] seen e h = absurd h
distinct-Elem (x ∷ es) seen e h = elim (Bool-cases (in_virtual x.0 seen)) [
  | inl old ↦ inr (
      distinct-Elem es seen e
        (subst (λ (b : List (Bytes × ℕ)). Elem e b) (rw (old, distinct) refl) h))
  | inr fresh ↦
      let shown : distinct (x ∷ es) seen ≡ x ∷ distinct es (x.0 ∷ seen) =
        rw (fresh, distinct) refl in
      elim (subst (λ (b : List (Bytes × ℕ)). Elem e b) shown h) [
        | inl same ↦ inl same
        | inr there ↦ inr (distinct-Elem es (x.0 ∷ seen) e there)
      ]
]

module _ {W Conn : Type 0} (sv : Services W Conn) (key : Bytes → Bytes) (P : W → Type 0)
    (p : Bytes) where
  -- `P` is about the object at `p`, where `key` gives the key that the storage makes of a path:
  -- nothing but a move of a path with the same key can end it.
  pub record OnlyMoves : Type 0 where
    pub indexes : (port : ℕ) → Keeps P (sv.get_virtual_expire_indexes port)
    pub first_lsn : (seg : ℕ) → Keeps P (sv.get_first_lsn seg)
    pub connects : (port : ℕ) (db : Bytes) → Keeps P (sv.get_connect_to_database port db)
    pub hints : (conn : Conn) (path : Bytes) → Keeps P (sv.delete_from_expire_index conn path)
    pub moves : (b q to : Bytes) → key q ≢ key p → Keeps P (sv.move_object b q to)

  -- The path is in the virtual index, all its hints are needed by the first backup, it does not
  -- match the request, or there is no backup.
  abbrev pub Spared : Bytes → Maps → ℕ → Bytes → Type 0
  Spared substring m first_lsn q =
      (in_virtual q m.virtual ≡ true)
      ⊎ (((lsn : ℕ) → Elem (q, lsn) m.expire → first_lsn ≤ lsn)
          ⊎ ((contains q substring ≡ false) ⊎ (first_lsn ≡ no_lsn)))

  -- Each path of the expire index with the key of `p` is spared.
  abbrev pub AllSpared : Bytes → Maps → ℕ → Type 0
  AllSpared substring m first_lsn =
      (e : Bytes × ℕ) → Elem e m.expire → key e.0 ≡ key p → Spared substring m first_lsn e.0

  -- A path that would be moved has another key.
  apart :
      (substring q : Bytes) (m : Maps) (first_lsn lsn : ℕ)
      → AllSpared substring m first_lsn
      → first_lsn ≢ no_lsn
      → Elem (q, lsn) m.expire
      → leb first_lsn lsn ≡ false
      → in_virtual q m.virtual ≡ false
      → contains q substring ≡ true
      → key q ≢ key p
  apart substring q m first_lsn lsn spared backup e low unused matches same =
      elim (spared (q, lsn) e same) [
        | inl used ↦ cc (sym unused ∙ used)
        | inr (inl needed) ↦ let high = needed lsn e in ground (arith, low, high)
        | inr (inr (inl other)) ↦ cc (sym matches ∙ other)
        | inr (inr (inr none_left)) ↦ absurd (backup none_left)
      ]

  module _ (only : OnlyMoves) where
    move_to_trash-P :
        (q : Bytes) (r : Result Error Unit × W) → key q ≢ key p → P r.1 → P (move_to_trash sv q r)
    unfolding move_to_trash
    move_to_trash-P q (ok tt, w) other h =
        only.moves sv.default_bucket q (trash_prefix ++ q) other w h
    move_to_trash-P q (err x, w) other h = h

    delete_candidate-P :
        (conn : Conn) (substring q : Bytes) (first_lsn lsn : ℕ) (m : Maps) (w : W)
        → AllSpared substring m first_lsn
        → first_lsn ≢ no_lsn
        → Elem (q, lsn) m.expire
        → P w
        → P (delete_candidate sv conn substring first_lsn m (q, lsn) w)
    unfolding delete_candidate
    delete_candidate-P conn substring q first_lsn lsn m w spared backup e h =
        elim (Bool-cases (leb first_lsn lsn)) [
          | inl high ↦ rw (high, delete_candidate) h
          | inr low ↦ elim (Bool-cases (in_virtual q m.virtual)) [
            | inl used ↦ rw (low, used, delete_candidate) (only.hints conn q w h)
            | inr unused ↦ elim (Bool-cases (contains q substring)) [
              | inl matches ↦
                  rw (low, unused, matches, delete_candidate)
                    (move_to_trash-P q (sv.delete_from_expire_index conn q w)
                      (apart substring q m first_lsn lsn spared backup e low unused matches)
                      (only.hints conn q w h))
              | inr other ↦ rw (low, unused, other, delete_candidate) h
            ]
          ]
        ]

    delete_candidates-P :
        (conn : Conn) (substring : Bytes) (first_lsn : ℕ) (m : Maps) (es : List (Bytes × ℕ)) (w : W)
        → AllSpared substring m first_lsn
        → first_lsn ≢ no_lsn
        → ((e : Bytes × ℕ) → Elem e es → Elem e m.expire)
        → P w
        → P (delete_candidates sv conn substring first_lsn m es w).1
    unfolding delete_candidates
    delete_candidates-P conn substring first_lsn m [] w spared backup inside h = h
    delete_candidates-P conn substring first_lsn m ((q, lsn) ∷ es) w spared backup inside h =
        delete_candidates-P conn substring first_lsn m es
          (delete_candidate sv conn substring first_lsn m (q, lsn) w) spared backup
          (λ e there. inside e (inr there))
          (delete_candidate-P conn substring q first_lsn lsn m w spared backup
            (inside (q, lsn) (inl refl)) h)

    delete_since-Keeps :
        (msg : ObsoleteMessage) (m : Maps) (first_lsn : ℕ)
        → ((es : List (Bytes × ℕ)) (e : Bytes × ℕ) → Elem e (sv.range_order es) → Elem e es)
        → AllSpared msg.message m first_lsn
        → Keeps P (delete_since sv msg m first_lsn)
    delete_since-Keeps msg m first_lsn ranges spared = elim (Bool-cases (first_lsn == no_lsn)) [
      | inl none_left ↦ rw none_left (λ w h. h)
      | inr some_left ↦
          let backup : first_lsn ≢ no_lsn = λ e. ground (arith, some_left, e) in
          rw some_left (
            Keeps-bind P (sv.get_connect_to_database msg.port msg.db_name)
              (λ conn.
                delete_candidates sv conn msg.message first_lsn m
                  (sv.range_order (distinct m.expire [])))
              (only.connects msg.port msg.db_name)
              (λ _ conn _ w h.
                delete_candidates-P conn msg.message first_lsn m
                  (sv.range_order (distinct m.expire [])) w spared backup
                  (λ e there. distinct-Elem m.expire [] e (ranges (distinct m.expire []) e there))
                  h))
    ]

    -- No run of ProcessDeleteObsolete, with an error or without, moves the object at a path if each
    -- path of the expire index with the same key is spared: one of a file that a table uses, whose
    -- hints the first backup needs, that does not match the request, or any path where there is no
    -- backup. The storage moves nothing but what is at the key of the path that it is told to move,
    -- and the loop may range over the expire index in any order.
    pub process_delete_obsolete-Keeps :
        (msg : ObsoleteMessage)
        → ((es : List (Bytes × ℕ)) (e : Bytes × ℕ) → Elem e (sv.range_order es) → Elem e es)
        → ((w w' : W) (m : Maps) (first_lsn : ℕ)
            → (sv.get_virtual_expire_indexes msg.port w).0 ≡ ok m
            → (sv.get_first_lsn msg.segnum w').0 ≡ ok first_lsn
            → AllSpared msg.message m first_lsn)
        → Keeps P (process_delete_obsolete sv msg)
    unfolding process_delete_obsolete
    process_delete_obsolete-Keeps msg ranges spared =
        Keeps-bind P (sv.get_virtual_expire_indexes msg.port) (delete_indexed sv msg)
          (only.indexes msg.port)
          (λ w m index.
            Keeps-bind P (sv.get_first_lsn msg.segnum) (delete_since sv msg m)
              (only.first_lsn msg.segnum)
              (λ w' n lsn. delete_since-Keeps msg m n ranges (spared w w' m n index lsn)))
