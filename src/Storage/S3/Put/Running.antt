-- ===== src/Storage/S3/Put/Running.antt =====
-- The uploads that a server runs beside each other, and multipartUploads of pkg/storage/s3storage.go,
-- which keeps ListFailedMultipartUploads from returning them.
use yproxy.Base.{
  ℕ, ◌≡◌, refl, sym, subst, ◌∙◌, true, false, some, List, [], ◌∷◌, Elem, inl, inr, Bool-cases,
}
use yproxy.Bytes.{Bytes, eqb, eqb-eq, eqb_refl}
use yproxy.Message.Settings.{StorageSettings}
use yproxy.Proc.Effect.{Result, ok, err}
use yproxy.Proc.Garbage.Mgr.{Error}
use yproxy.Storage.Settings.{StorageConfig}
use yproxy.Storage.S3.{Service, has_key, list_failed_multipart_uploads, object_path}
use yproxy.Storage.S3.Uploads.{keys, list_failed_multipart_uploads_iff}
use yproxy.Storage.S3.Put.{
  Puts, Stream, Planned, mark, unmark, put_planned, planned, put_file_to_dest,
}

-- The keys that are marked, and those of the uploads that are running, one for each upload.
pub record Uploads : Type 0 where
  pub marked : List Bytes
  pub running : List Bytes

-- The first list without one occurrence of the key is the second.
pub data Removed (key : Bytes) : List Bytes → List Bytes → Type 0 where
  first : (ks : List Bytes) → Removed key (key ∷ ks) ks
  later : {ks js : List Bytes} (k : Bytes) → Removed key ks js → Removed key (k ∷ ks) (k ∷ js)

-- The multipart branch of PutFileToDest up to the upload, if `Allowed`, and after it.
pub data Step (Allowed : Bytes → List Bytes → Type 0) : Uploads → Uploads → Type 0 where
  begins :
      (key : Bytes) (marked running : List Bytes)
      → Allowed key running
      → Step Allowed
          (record { marked = marked; running = running })
          (record { marked = mark key marked; running = key ∷ running })
  ends :
      (key : Bytes) (marked running left : List Bytes)
      → Removed key running left
      → Step Allowed
          (record { marked = marked; running = running })
          (record { marked = unmark key marked; running = left })

pub data Reach (Allowed : Bytes → List Bytes → Type 0) : Uploads → Type 0 where
  start : Reach Allowed (record { marked = []; running = [] })
  step : {u v : Uploads} → Reach Allowed u → Step Allowed u v → Reach Allowed v

-- No upload of the key is running.
abbrev pub Apart : Bytes → List Bytes → Type 0
Apart key running = ¬ (Elem key running)

abbrev pub Any : Bytes → List Bytes → Type 0
Any key running = Unit

has_key-mark : (key : Bytes) (marked : List Bytes) → has_key key (mark key marked) ≡ true
unfolding has_key
has_key-mark key marked = rw (eqb_refl key) refl

has_key-mark_other :
    (key k : Bytes) (marked : List Bytes)
    → has_key k marked ≡ true
    → has_key k (mark key marked) ≡ true
unfolding has_key
has_key-mark_other key k marked h = elim (Bool-cases (eqb key k)) [
  | inl e ↦ rw e refl
  | inr e ↦ rw e h
]

eqb-ne : (p q : Bytes) → ¬ (p ≡ q) → eqb p q ≡ false
eqb-ne p q h = elim (Bool-cases (eqb p q)) [ inl e ↦ absurd (h (eqb-eq p q e)) | inr e ↦ e ]

has_key-unmark :
    (key k : Bytes) (marked : List Bytes)
    → ¬ (key ≡ k)
    → has_key k (unmark key marked) ≡ has_key k marked
unfolding has_key unmark
has_key-unmark key k [] h = refl
has_key-unmark key k (m ∷ marked) h = elim (Bool-cases (eqb m key)) [
  | inl e ↦
      rw (e, has_key-unmark key k marked h, eqb-ne m k (λ same. h (sym (eqb-eq m key e) ∙ same)))
        refl
  | inr e ↦ rw (e, has_key-unmark key k marked h) refl
]

unmark-not_in :
    (key : Bytes) (marked : List Bytes) → has_key key marked ≡ false → unmark key marked ≡ marked
unfolding has_key unmark
unmark-not_in key [] h = refl
unmark-not_in key (m ∷ marked) h = elim (Bool-cases (eqb m key)) [
  | inl e ↦ cc (rw e at h)
  | inr e ↦ rw (e, unmark-not_in key marked (rw e at h)) refl
]

unmark-mark :
    (key : Bytes) (marked : List Bytes)
    → has_key key marked ≡ false
    → unmark key (mark key marked) ≡ marked
unfolding unmark
unmark-mark key marked h = rw (eqb_refl key) (unmark-not_in key marked h)

Removed-Elem :
    {key : Bytes} {ks js : List Bytes} (k : Bytes) → Removed key ks js → Elem k js → Elem k ks
Removed-Elem k (first ks) h = inr h
Removed-Elem k (later j r) (inl h) = inl h
Removed-Elem k (later j r) (inr h) = inr (Removed-Elem k r h)

Elem-Removed : {key : Bytes} {ks js : List Bytes} → Removed key ks js → Elem key ks
Elem-Removed (first ks) = inl refl
Elem-Removed (later j r) = inr (Elem-Removed r)

Elem-same : {j key : Bytes} (ks : List Bytes) → j ≡ key → Elem key ks → Elem j ks
Elem-same ks same h = subst (λ k. Elem k ks) (sym same) h

abbrev Distinct : List Bytes → Type 0
Distinct [] = Unit
Distinct (k ∷ ks) = ¬ (Elem k ks) × Distinct ks

Removed-Distinct :
    {key : Bytes} {ks js : List Bytes}
    → Removed key ks js
    → Distinct ks
    → ¬ (Elem key js) × Distinct js
Removed-Distinct (first ks) d = d
Removed-Distinct (later j r) d =
    let (out, distinct) = Removed-Distinct r d.1 in
    (
      λ h. elim h [ inl same ↦ d.0 (Elem-same _ same (Elem-Removed r)) | inr there ↦ out there ],
      (λ h. d.0 (Removed-Elem j r h), distinct),
    )

-- Each running upload is marked.
abbrev pub Marks : Uploads → Type 0
Marks u = (k : Bytes) → Elem k u.running → has_key k u.marked ≡ true

Reach-Marks : {u : Uploads} → Reach Apart u → Distinct u.running × Marks u
Reach-Marks start = (tt, λ k h. absurd h)
Reach-Marks (step r (begins key marked running apart)) =
    let (distinct, marks) = Reach-Marks r in
    (
      (apart, distinct),
      λ k h. elim h [
        | inl same ↦ subst (λ j. has_key j (mark key marked) ≡ true) same (has_key-mark key marked)
        | inr there ↦ has_key-mark_other key k marked (marks k there)
      ],
    )
Reach-Marks (step r (ends key marked running left removed)) =
    let (distinct, marks) = Reach-Marks r in
    let (out, left_distinct) = Removed-Distinct removed distinct in
    (
      left_distinct,
      λ k h.
          has_key-unmark key k marked (λ same. out (subst (λ j. Elem j left) (sym same) h))
          ∙ marks k (Removed-Elem k removed h),
    )

-- With two uploads of a key, the first that ends takes off the mark of the other.
pub same_key-unmarked :
    (key : Bytes)
    → (u : Uploads) × Reach Any u × Elem key u.running × (has_key key u.marked ≡ false)
unfolding unmark has_key
same_key-unmarked key =
    let one = step start (begins key [] [] tt) in
    let two = step one (begins key (mark key []) (key ∷ []) tt) in
    let left = ends key (mark key (mark key [])) (key ∷ (key ∷ [])) (key ∷ []) (first (key ∷ [])) in
    (
      record { marked = unmark key (mark key (mark key [])); running = key ∷ [] },
      step two left,
      inl refl,
      rw (eqb_refl key) refl,
    )

module _ {W Session Body : Type 0} (sv : Service W Session Body) (cnf : StorageConfig) where
  -- While each key has at most one running upload, ListFailedMultipartUploads returns none that this
  -- server is running, whatever the service lists, so that none of them is aborted as failed.
  pub running_not_failed :
      (u : Uploads) (fuel : ℕ) (bucket : Bytes) (out : List (Bytes × Bytes)) (w : W) (key : Bytes)
      → Reach Apart u
      → (list_failed_multipart_uploads sv cnf fuel u.marked bucket w).0 ≡ ok (some out)
      → Elem key u.running
      → ¬ (Elem key (keys out))
  running_not_failed u fuel bucket out w key reach listed running failed =
      let (uploads, sess, w', pages, exactly) =
        list_failed_multipart_uploads_iff sv cnf fuel u.marked bucket out w listed in
      let unmarked = ((exactly key).0 failed).1 in
      let marked = (Reach-Marks reach).1 key running in cc

  module _ (puts : Puts W Session) where
    put_planned-marked :
        (key class : Bytes) (r : Stream) (marked : List Bytes)
        (pw : Result Error (Planned Session) × W)
        → has_key key marked ≡ false
        → (put_planned sv puts cnf key class r marked pw).1 ≡ marked
    unfolding put_planned
    put_planned-marked key class r marked (err e, w) h = refl
    put_planned-marked key class r marked (ok p, w) h = elim (Bool-cases p.multipart) [
      | inl e ↦ rw e (unmark-mark key marked h)
      | inr e ↦ rw e refl
    ]

    -- However PutFileToDest ends, by an error of a setting, of the bucket or of the session, by a
    -- failed upload or a stored object, it leaves the marks as they were, if its key had none.
    pub put_file_to_dest-marked :
        (name : Bytes) (r : Stream) (settings : List StorageSettings) (marked : List Bytes) (w : W)
        → has_key (object_path cnf name) marked ≡ false
        → (put_file_to_dest sv puts cnf name r settings marked w).1 ≡ marked
    unfolding put_file_to_dest
    put_file_to_dest-marked name r settings marked w h =
        put_planned-marked (object_path cnf name) _ r marked (planned sv puts cnf settings w) h
