-- ===== src/Storage/S3/Uploads.antt =====
-- ListFailedMultipartUploads of pkg/storage/s3storage.go.
use yproxy.Base.{
  ℕ, Option, none, some, ◌≡◌, ◌↔◌, refl, sym, ap, subst, ◌∙◌, ◌⊎◌, inl, inr, true, false, List, [],
  ◌∷◌, Elem, map, Bool-cases,
}
use yproxy.Bytes.{Bytes, eqb, eqb-eq}
use yproxy.Proc.Effect.{ok, bind-ok, ◌>>=◌}
use yproxy.Storage.Settings.{StorageConfig}
use yproxy.Storage.S3.{
  Service, has_key, set_entry, failed_uploads, session_of, upload_pages, selected,
  list_failed_multipart_uploads,
}

abbrev pub keys : List (Bytes × Bytes) → List Bytes
keys = map (λ (e : Bytes × Bytes). e.0)

set_entry-Elem :
    (key value k : Bytes) (es : List (Bytes × Bytes))
    → Elem k (keys (set_entry key value es))
    → (key ≡ k) ⊎ Elem k (keys es)
unfolding set_entry
set_entry-Elem key value k [] (inl same) = inl same
set_entry-Elem key value k [] (inr h) = absurd h
set_entry-Elem key value k (e ∷ es) h = elim (Bool-cases (eqb e.0 key)) [
  | inl same ↦ elim (subst (λ (x : List (Bytes × Bytes)). Elem k (keys x)) (the_same same) h) [
    | inl new ↦ inl new
    | inr old ↦ inr (inr old)
  ]
  | inr other ↦ elim (subst (λ (x : List (Bytes × Bytes)). Elem k (keys x)) (the_other other) h) [
    | inl old ↦ inr (inl old)
    | inr there ↦ elim (set_entry-Elem key value k es there) [
      | inl new ↦ inl new
      | inr old ↦ inr (inr old)
    ]
  ]
]
  where
    the_same : eqb e.0 key ≡ true → set_entry key value (e ∷ es) ≡ (key, value) ∷ es
    the_same same = rw (same, set_entry) refl

    the_other : eqb e.0 key ≡ false → set_entry key value (e ∷ es) ≡ e ∷ set_entry key value es
    the_other other = rw (other, set_entry) refl

Elem-set_entry :
    (key value k : Bytes) (es : List (Bytes × Bytes))
    → (key ≡ k) ⊎ Elem k (keys es)
    → Elem k (keys (set_entry key value es))
unfolding set_entry
Elem-set_entry key value k [] (inl new) = inl new
Elem-set_entry key value k [] (inr h) = absurd h
Elem-set_entry key value k (e ∷ es) h = elim (Bool-cases (eqb e.0 key)) [
  | inl same ↦
      rw (same, set_entry)
        (elim h [
          | inl new ↦ inl new
          | inr (inl here) ↦ inl (sym (eqb-eq e.0 key same) ∙ here)
          | inr (inr there) ↦ inr there
        ])
  | inr other ↦
      rw (other, set_entry)
        (elim h [
          | inl new ↦ inr (Elem-set_entry key value k es (inl new))
          | inr (inl here) ↦ inl here
          | inr (inr there) ↦ inr (Elem-set_entry key value k es (inr there))
        ])
]

-- An upload of the key is listed, and this server is not uploading to it.
abbrev pub IsFailed : List Bytes → List (Bytes × Bytes) → Bytes → Type 0
IsFailed running uploads k = Elem k (keys uploads) × (has_key k running ≡ false)

failed_uploads-to :
    (running : List Bytes) (uploads out : List (Bytes × Bytes)) (k : Bytes)
    → Elem k (keys (failed_uploads running uploads out))
    → Elem k (keys out) ⊎ IsFailed running uploads k
unfolding failed_uploads
failed_uploads-to running [] out k h = inl h
failed_uploads-to running (u ∷ uploads) out k h = elim (Bool-cases (has_key u.0 running)) [
  | inl busy ↦ elim (failed_uploads-to running uploads out k (rw (busy, failed_uploads) at h)) [
    | inl before ↦ inl before
    | inr (there, idle) ↦ inr (inr there, idle)
  ]
  | inr free ↦
      elim (failed_uploads-to running uploads (set_entry u.0 u.1 out) k
        (rw (free, failed_uploads) at h)) [
          | inr (there, idle) ↦ inr (inr there, idle)
          | inl entered ↦ elim (set_entry-Elem u.0 u.1 k out entered) [
            | inl new ↦ inr (inl new, ap (λ (b : Bytes). has_key b running) (sym new) ∙ free)
            | inr before ↦ inl before
          ]
        ]
]

failed_uploads-from :
    (running : List Bytes) (uploads out : List (Bytes × Bytes)) (k : Bytes)
    → Elem k (keys out) ⊎ IsFailed running uploads k
    → Elem k (keys (failed_uploads running uploads out))
unfolding failed_uploads
failed_uploads-from running [] out k (inl h) = h
failed_uploads-from running [] out k (inr h) = absurd h.0
failed_uploads-from running (u ∷ uploads) out k h = elim (Bool-cases (has_key u.0 running)) [
  | inl busy ↦
      rw (busy, failed_uploads)
        (failed_uploads-from running uploads out k (elim h [
          | inl before ↦ inl before
          | inr (inl here, idle) ↦ cc (sym busy ∙ ap (λ (b : Bytes). has_key b running) here ∙ idle)
          | inr (inr there, idle) ↦ inr (there, idle)
        ]))
  | inr free ↦
      rw (free, failed_uploads)
        (failed_uploads-from running uploads (set_entry u.0 u.1 out) k (elim h [
          | inl before ↦ inl (Elem-set_entry u.0 u.1 k out (inr before))
          | inr (inl here, idle) ↦ inl (Elem-set_entry u.0 u.1 k out (inl here))
          | inr (inr there, idle) ↦ inr (there, idle)
        ]))
]

module _ {W Session Body : Type 0} (sv : Service W Session Body) (cnf : StorageConfig) where
  -- The keys that ListFailedMultipartUploads returns are exactly those of the uploads that the
  -- pages of the bucket list and that this server is not running itself.
  pub list_failed_multipart_uploads_iff :
      (fuel : ℕ) (running : List Bytes) (bucket : Bytes) (out : List (Bytes × Bytes)) (w : W)
      → (list_failed_multipart_uploads sv cnf fuel running bucket w).0 ≡ ok (some out)
      → (uploads : List (Bytes × Bytes)) × (sess : Session) × (w' : W) × ((upload_pages sv cnf fuel
            sess bucket none w').0
          ≡ ok (some uploads))
        × ((k : Bytes) → Elem k (keys out) ↔ IsFailed running uploads k)
  unfolding list_failed_multipart_uploads selected
  list_failed_multipart_uploads_iff fuel running bucket out w h =
      let (sess, session, k) =
        bind-ok (session_of sv cnf bucket)
          (λ sess. upload_pages sv cnf fuel sess bucket none >>= selected running) w (some out) h in
      let (pages, listed, k') =
        bind-ok (upload_pages sv cnf fuel sess bucket none) (selected running)
          (session_of sv cnf bucket w).1 (some out) k in
      of_pages pages sess (session_of sv cnf bucket w).1 _ listed k'
    where
      of_pages :
          (pages : Option (List (Bytes × Bytes))) (sess : Session) (w' v : W)
          → (upload_pages sv cnf fuel sess bucket none w').0 ≡ ok pages
          → (selected {W = W} running pages v).0 ≡ ok (some out)
          → (uploads : List (Bytes × Bytes)) × (sess : Session) × (w' : W) × ((upload_pages sv cnf
                fuel sess bucket none w').0
              ≡ ok (some uploads))
            × ((k : Bytes) → Elem k (keys out) ↔ IsFailed running uploads k)
      of_pages none sess w' v listed e = cc
      of_pages (some uploads) sess w' v listed e =
          let same : failed_uploads running uploads [] ≡ out = cc e in
          (
            uploads,
            sess,
            w',
            listed,
            λ k. rw⁻¹ same (
              λ h. elim (failed_uploads-to running uploads [] k h) [ inl b ↦ absurd b | inr f ↦ f ],
              λ f. failed_uploads-from running uploads [] k (inr f),
            ),
          )
