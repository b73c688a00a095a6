-- ===== src/Storage/File/Listed.antt =====
-- What ListPath of pkg/storage/filestorage.go selects.
use yproxy.Base.{
  ℕ, ◌≡◌, ◌↔◌, ◌⊎◌, refl, sym, ap, ap₂, subst, ◌∙◌, inl, inr, true, Bool-cases, none, some, List,
  [], ◌∷◌, ◌++◌, Elem, append_assoc, ◌==◌, arith,
}
use yproxy.Bytes.{Bytes}
use yproxy.Message.ObjectMeta.{ObjectInfo}
use yproxy.Proc.Effect.{ok, err}
use yproxy.Proc.Garbage.Handlers.{has_prefix}
use yproxy.Proc.Garbage.Paths.{slash}
use yproxy.Storage.Names.{cut_prefix}
use yproxy.Storage.Settings.{StorageConfig}
use yproxy.Storage.File.{
  System, Visit, walk_failed, directory, file, cut_slash, needed_prefix, object_of, visited,
  list_path,
}

has_prefix-rest : (s q : Bytes) → has_prefix s q ≡ true → (rest : Bytes) × (s ≡ q ++ rest)
has_prefix-rest s [] h = (s, refl)
has_prefix-rest [] (c ∷ q) h = cc
has_prefix-rest (d ∷ s) (c ∷ q) h = elim (Bool-cases (d == c)) [
  | inl e ↦
      (let (rest, same) = has_prefix-rest s q (rw e at h) in
        let first : d ≡ c = ground arith in (rest, ap₂ (λ x y. x ∷ y) first same))
  | inr e ↦ cc (rw e at h)
]

has_prefix-append : (q rest : Bytes) → has_prefix (q ++ rest) q ≡ true
has_prefix-append [] rest = refl
has_prefix-append (c ∷ q) rest =
    let same : (c == c) ≡ true = ground arith in rw (same, has_prefix-append q rest) refl

cut_prefix-append : (q rest : Bytes) → cut_prefix (q ++ rest) q ≡ some rest
unfolding cut_prefix
cut_prefix-append [] [] = refl
cut_prefix-append [] (c ∷ rest) = refl
cut_prefix-append (c ∷ q) rest =
    let same : (c == c) ≡ true = ground arith in rw (same, cut_prefix-append q rest) refl

Elem-append : {A : Type 0} (a : A) (xs ys : List A) → Elem a (xs ++ ys) ↔ (Elem a xs ⊎ Elem a ys)
Elem-append a [] ys = (λ h. inr h, λ h. elim h [ inl n ↦ absurd n | inr there ↦ there ])
Elem-append a (x ∷ xs) ys =
    let rest = Elem-append a xs ys in
    (
      λ h. elim h [
        | inl here ↦ inl (inl here)
        | inr later ↦ elim (rest.0 later) [ inl one ↦ inl (inr one) | inr two ↦ inr two ]
      ],
      λ h. elim h [
        | inl one ↦ elim one [ inl here ↦ inl here | inr later ↦ inr (rest.1 (inl later)) ]
        | inr two ↦ inr (rest.1 (inr two))
      ],
    )

-- The object is that of a file whose path is the storage's prefix, the one that is asked for
-- without a slash before it, and something more.
abbrev pub IsObject : StorageConfig → Bytes → Bytes → ℕ × ℕ → ObjectInfo → Type 0
IsObject cnf prefix p info o =
    (rest : Bytes) × (p ≡ cnf.storage_prefix ++ (cut_slash prefix ++ rest))
    × (record { path = slash ∷ (cut_slash prefix ++ rest); size = info.0; last_mod = info.1 } ≡ o)

abbrev pub IsListed : StorageConfig → Bytes → List Visit → ObjectInfo → Type 0
IsListed cnf prefix visits o =
    (p : Bytes) × (info : ℕ × ℕ) × Elem (file p (ok info)) visits × IsObject cnf prefix p info o

module _ (cnf : StorageConfig) (prefix : Bytes) where
  object_of-append :
      (rest : Bytes) (info : ℕ × ℕ)
      → object_of cnf prefix (cnf.storage_prefix ++ (cut_slash prefix ++ rest)) info
        ≡ record { path = slash ∷ (cut_slash prefix ++ rest); size = info.0; last_mod = info.1 }
          ∷ []
  unfolding object_of
  object_of-append rest info =
      let asked : has_prefix (cnf.storage_prefix ++ (cut_slash prefix ++ rest))
            (needed_prefix cnf prefix)
          ≡ true =
        rw⁻¹ (append_assoc cnf.storage_prefix (cut_slash prefix) rest)
          (has_prefix-append (needed_prefix cnf prefix) rest) in
      rw (asked, cut_prefix-append cnf.storage_prefix (cut_slash prefix ++ rest)) refl

  object_of-rest :
      (p : Bytes) (info : ℕ × ℕ) (o : ObjectInfo)
      → Elem o (object_of cnf prefix p info)
      → (rest : Bytes) × (p ≡ cnf.storage_prefix ++ (cut_slash prefix ++ rest))
  unfolding object_of
  object_of-rest p info o h = elim (Bool-cases (has_prefix p (needed_prefix cnf prefix))) [
    | inl e ↦
        (let (rest, same) = has_prefix-rest p (needed_prefix cnf prefix) e in
          (rest, same ∙ append_assoc cnf.storage_prefix (cut_slash prefix) rest))
    | inr e ↦ absurd (rw e at h)
  ]

  only : {A : Type 0} {a b : A} → Elem a (b ∷ []) → b ≡ a
  only (inl h) = h
  only (inr h) = absurd h

  object_of_iff :
      (p : Bytes) (info : ℕ × ℕ) (o : ObjectInfo)
      → Elem o (object_of cnf prefix p info) ↔ IsObject cnf prefix p info o
  object_of_iff p info o = (
    λ h.
        let (rest, same) = object_of-rest p info o h in
        let found = ap (λ q. object_of cnf prefix q info) same ∙ object_of-append rest info in
        (rest, same, only (subst (λ os. Elem o os) found h)),
    λ (rest, same, is).
        let found = ap (λ q. object_of cnf prefix q info) same ∙ object_of-append rest info in
        subst (λ os. Elem o os) (sym found) (inl is),
  )

  visited_iff :
      (visits : List Visit) (o : ObjectInfo)
      → (visited cnf prefix visits).1 ≡ none
      → Elem o (visited cnf prefix visits).0 ↔ IsListed cnf prefix visits o
  unfolding visited
  visited_iff [] o h = (λ b. absurd b, λ l. absurd l.2)
  visited_iff (walk_failed e ∷ visits) o h = cc
  visited_iff (file p (err e) ∷ visits) o h = cc
  visited_iff (directory p ∷ visits) o h =
      let rest = visited_iff visits o h in
      (
        λ b. let (q, info, there, is) = rest.0 b in (q, info, inr there, is),
        λ (q, info, there, is). elim there [
          | inl e ↦ cc e
          | inr later ↦ rest.1 (q, info, later, is)
        ],
      )
  visited_iff (file p (ok info) ∷ visits) o h =
      let rest = visited_iff visits o h in
      let both = Elem-append o (object_of cnf prefix p info) (visited cnf prefix visits).0 in
      (
        λ b. elim (both.0 b) [
          | inl here ↦ (p, info, inl refl, (object_of_iff p info o).0 here)
          | inr later ↦ (let (q, i, there, is) = rest.0 later in (q, i, inr there, is))
        ],
        λ (q, i, there, is). elim there [
          | inl e ↦
              (let same_path : p ≡ q = cc e in
                let same_info : info ≡ i = cc e in
                let moved =
                  subst (λ x. IsObject cnf prefix x info o) (sym same_path)
                    (subst (λ x. IsObject cnf prefix q x o) (sym same_info) is) in
                both.1 (inl ((object_of_iff p info o).1 moved)))
          | inr later ↦ both.1 (inr (rest.1 (q, i, later, is)))
        ],
      )

  module _ {W : Type 0} (os : System W) where
    -- A ListPath that returns no error returns exactly the files below the storage's prefix whose
    -- paths begin with this prefix and then the one that is asked for, without a slash before it,
    -- each under the rest of its path after a slash, with its size and its time.
    pub list_path_iff :
        (w : W) (o : ObjectInfo)
        → (list_path os cnf prefix w).0.1 ≡ none
        → Elem o (list_path os cnf prefix w).0.0
          ↔ IsListed cnf prefix (os.walk cnf.storage_prefix w).0 o
    unfolding list_path
    list_path_iff w o h = visited_iff (os.walk cnf.storage_prefix w).0 o h
