-- ===== src/Clients/Served.antt =====
-- The pool against the connections that are served.
use yproxy.Base.{
  ℕ, ◌<◌, ◌≡◌, ◌≢◌, ◌↔◌, refl, ap, subst, inl, inr, true, false, ◌&&◌, ◌^◌, List, [], ◌∷◌, Elem,
  map, All, ltb, ◌==◌, Bool-cases, arith,
}
use yproxy.Bytes.{Bytes}
use yproxy.Message.Kind.{MessageType}
use yproxy.Clients.{
  YClient, size_to_cat, delete, put, record_speed, find_speeds, has_client, pop, update, System,
  remove, Step, accept, handle, finish, Reach, start, step,
}

abbrev pub ids : List YClient → List ℕ
ids = map (λ (c : YClient). c.id)

remove-Elem : (id k : ℕ) (ks : List ℕ) → Elem k (remove id ks) → Elem k ks × (k ≢ id)
unfolding remove
remove-Elem id k [] h = absurd h
remove-Elem id k (j ∷ ks) h = elim (Bool-cases (j == id)) [
  | inl same ↦
      let (there, other) = remove-Elem id k ks (rw (same, remove) at h) in (inr there, other)
  | inr other ↦ elim (subst (λ (l : List ℕ). Elem k l) (kept other) h) [
    | inl here ↦ (inl here, λ e. ground (arith, other, here, e))
    | inr there ↦ let (there', apart) = remove-Elem id k ks there in (inr there', apart)
  ]
]
  where
    kept : (j == id) ≡ false → remove id (j ∷ ks) ≡ j ∷ remove id ks
    kept other = rw (other, remove) refl

Elem-remove : (id k : ℕ) (ks : List ℕ) → Elem k ks → k ≢ id → Elem k (remove id ks)
unfolding remove
Elem-remove id k [] h apart = absurd h
Elem-remove id k (j ∷ ks) h apart = elim (Bool-cases (j == id)) [
  | inl same ↦
      rw (same, remove)
        (elim h [
          | inl here ↦ absurd (apart (ground (arith, same, here)))
          | inr there ↦ Elem-remove id k ks there apart
        ])
  | inr other ↦
      rw (other, remove)
        (elim h [ inl here ↦ inl here | inr there ↦ inr (Elem-remove id k ks there apart) ])
]

ids-delete : (id : ℕ) (cs : List YClient) → ids (delete id cs) ≡ remove id (ids cs)
unfolding delete remove
ids-delete id [] = refl
ids-delete id (c ∷ cs) = elim (Bool-cases (c.id == id)) [
  | inl same ↦ rw (same, delete, remove) (ids-delete id cs)
  | inr other ↦ rw (other, delete, remove) (ap (λ (ks : List ℕ). c.id ∷ ks) (ids-delete id cs))
]

ids-update :
    (id : ℕ) (op : MessageType) (path : Bytes) (progress : ℕ) (cs : List YClient)
    → ids (update id op path progress cs) ≡ ids cs
unfolding update
ids-update id op path progress [] = refl
ids-update id op path progress (c ∷ cs) = elim (Bool-cases (c.id == id)) [
  | inl same ↦
      rw (same, update) (ap (λ (ks : List ℕ). c.id ∷ ks) (ids-update id op path progress cs))
  | inr other ↦
      rw (other, update) (ap (λ (ks : List ℕ). c.id ∷ ks) (ids-update id op path progress cs))
]

has_client-Elem : (id : ℕ) (cs : List YClient) → Elem id (ids cs) → has_client id cs ≡ true
unfolding has_client
has_client-Elem id [] h = absurd h
has_client-Elem id (c ∷ cs) h = elim (Bool-cases (c.id == id)) [
  | inl same ↦ rw (same, has_client) refl
  | inr other ↦ elim h [
    | inl here ↦ ground (arith, other, here)
    | inr there ↦ rw (other, has_client) (has_client-Elem id cs there)
  ]
]

abbrev pub Categories : List (ℕ × MessageType) → Type 0
Categories = All (λ e. e.0 < 3)

size_to_cat-bound : (sz : ℕ) → size_to_cat sz < 3
unfolding size_to_cat
size_to_cat-bound sz = ground arith

record_speed-Categories :
    (c : YClient) (speeds : List (ℕ × MessageType))
    → Categories speeds
    → Categories (record_speed c speeds)
unfolding record_speed
record_speed-Categories c speeds h =
    elim (Bool-cases (ltb 0 c.progress && ltb c.progress (2 ^ 63))) [
      | inl positive ↦ rw (positive, record_speed) (size_to_cat-bound c.progress, h)
      | inr other ↦ rw (other, record_speed) h
    ]

find_speeds-Categories :
    (id : ℕ) (cs : List YClient) (speeds : List (ℕ × MessageType))
    → Categories speeds
    → Categories (find_speeds id cs speeds)
unfolding find_speeds
find_speeds-Categories id [] speeds h = h
find_speeds-Categories id (c ∷ cs) speeds h = elim (Bool-cases (c.id == id)) [
  | inl same ↦ rw (same, find_speeds) (record_speed-Categories c speeds h)
  | inr other ↦ rw (other, find_speeds) (find_speeds-Categories id cs speeds h)
]

-- The clients of the pool are those of the connections that are served, and the speeds are
-- recorded under the size categories that the pool has.
pub record InPool (s : System) : Type 0 where
  pub same : (k : ℕ) → Elem k (ids s.clients.pool) ↔ Elem k s.live
  pub categories : Categories s.clients.op_speed

Step-InPool : (s t : System) → Step s t → InPool s → InPool t
unfolding put pop
Step-InPool _ _ (accept id op s fresh) inv = record {
  same = λ k. rw (ids-delete id s.clients.pool) (
    λ h. elim h [
      | inl here ↦ inl here
      | inr there ↦ inr ((inv.same k).0 (remove-Elem id k (ids s.clients.pool) there).0)
    ],
    λ h. elim h [
      | inl here ↦ inl here
      | inr there ↦ inr (
          Elem-remove id k (ids s.clients.pool) ((inv.same k).1 there)
            (λ e. fresh (subst (λ (n : ℕ). Elem n s.live) e there)))
    ],
  );
  categories = inv.categories;
}
Step-InPool _ _ (handle id op path progress s there) inv = record {
  same = λ k. rw (ids-update id op path progress s.clients.pool) (inv.same k);
  categories = inv.categories;
}
Step-InPool _ _ (finish id s there) inv =
    let found = has_client-Elem id s.clients.pool ((inv.same id).1 there) in
    rw found (record {
      same = λ k. rw (ids-delete id s.clients.pool) (
        λ h.
            let (in_ids, apart) = remove-Elem id k (ids s.clients.pool) h in
            Elem-remove id k s.live ((inv.same k).0 in_ids) apart,
        λ h.
            let (in_live, apart) = remove-Elem id k s.live h in
            Elem-remove id k (ids s.clients.pool) ((inv.same k).1 in_live) apart,
      );
      categories = find_speeds-Categories id s.clients.pool s.clients.op_speed inv.categories;
    })

-- However connections begin, make progress and end, the pool shows exactly those that are served,
-- and records speeds only under its three size categories.
pub Reach-InPool : (s : System) → Reach s → InPool s
Reach-InPool _ start = record { same = λ k. (λ h. h, λ h. h); categories = tt }
Reach-InPool _ (step s t reached moved) = Step-InPool s t moved (Reach-InPool s reached)

-- The Pop at the end of a connection always finds its client.
pub pop-Reach : (s : System) (id : ℕ) → Reach s → Elem id s.live → (pop id s.clients).0 ≡ true
unfolding pop
pop-Reach s id reached there =
    rw (has_client-Elem id s.clients.pool (((Reach-InPool s reached).same id).1 there)) refl
