-- ===== src/Proc/Copy/Select.antt =====
-- What ListFilesToCopy selects.
use yproxy.Base.{
  ◌≡◌, ◌≢◌, ◌↔◌, refl, sym, subst, ap, ◌∙◌, ℕ, Bool, true, false, not, ◌&&◌, List, [], ◌∷◌, ◌⊎◌,
  inl, inr, Bool-cases, arith,
}
use yproxy.Bytes.{Bytes, eqb, eqb-eq, eqb_refl}
use yproxy.Message.ObjectMeta.{ObjectInfo}
use yproxy.Proc.Effect.{ok, bind-ok}
use yproxy.Proc.Garbage.Handlers.{filter}
use yproxy.Proc.Garbage.Select.{In, filter-In}
use yproxy.Proc.Copy.{
  CopyLister, trim_prefix, is_copied, Lists, split_objects, split_listed, list_copied, list_index,
  list_files_to_copy,
}

-- No object of the list has the path.
abbrev pub Absent : Bytes → List ObjectInfo → Type 0
Absent p [] = Unit
Absent p (c ∷ copied) = (c.path ≢ p) × Absent p copied

is_copied-Absent :
    (copied : List ObjectInfo) (p : Bytes) → (is_copied copied p ≡ false) ↔ Absent p copied
unfolding is_copied
is_copied-Absent [] p = (λ h. tt, λ h. refl)
is_copied-Absent (c ∷ copied) p = elim (Bool-cases (eqb c.path p)) [
  | inl e ↦ rw e (λ h. absurd cc, λ (other, _). absurd (other (eqb-eq c.path p e)))
  | inr e ↦ rw e (
    (λ h. (
      λ same. cc (e, subst (λ (q : Bytes). eqb c.path q ≡ true) same (eqb_refl c.path)),
      (is_copied-Absent copied p).0 h,
    )),
    λ (_, absent). (is_copied-Absent copied p).1 absent,
  )
]

module _ {W E : Type 0} (lister : CopyLister W E) where
  -- The virtual index has the object's path behind the source's prefix.
  abbrev pub Indexed : (Bytes → Bool) → ObjectInfo → Type 0
  Indexed vi f = vi (trim_prefix f.path lister.storage_prefix) ≡ true

  abbrev pub ToCopy : (Bytes → Bool) → List ObjectInfo → ObjectInfo → Type 0
  ToCopy vi copied f =
      ((lister.storage_optimize_copy ≡ false) ⊎ Indexed vi f) × Absent f.path copied

  -- The test that the loop makes of one object
  abbrev taken : (Bytes → Bool) → List ObjectInfo → ObjectInfo → Bool
  taken vi copied f =
      not (not (vi (trim_prefix f.path lister.storage_prefix)) && lister.storage_optimize_copy)
      && not (is_copied copied f.path)

  taken-ToCopy :
      (vi : Bytes → Bool) (copied : List ObjectInfo) (f : ObjectInfo)
      → (taken vi copied f ≡ true) ↔ ToCopy vi copied f
  taken-ToCopy vi copied f =
      let absent = is_copied-Absent copied f.path in
      (
        λ h. (
          elim (Bool-cases lister.storage_optimize_copy) [
            | inl e ↦ inr (ground (arith, h))
            | inr e ↦ inl e
          ],
          absent.0 (ground (arith, h)),
        ),
        λ (why, h).
            let fresh = absent.1 h in
            elim why [ inl e ↦ ground (arith, fresh) | inr e ↦ ground (arith, fresh) ],
      )

  split_objects-filter :
      (vi : Bytes → Bool) (copied objects : List ObjectInfo)
      → (split_objects lister vi copied objects).to_copy ≡ filter (taken vi copied) objects
  unfolding split_objects filter
  split_objects-filter vi copied [] = refl
  split_objects-filter vi copied (f ∷ objects) =
      ground (arith, split_objects-filter vi copied objects)

  -- Every listed object is to be copied or skipped.
  split_objects-covers :
      (vi : Bytes → Bool) (copied objects : List ObjectInfo) (f : ObjectInfo)
      → In f objects
      → In f (split_objects lister vi copied objects).to_copy
        ⊎ In f (split_objects lister vi copied objects).skipped
  unfolding split_objects
  split_objects-covers vi copied [] f h = absurd h
  split_objects-covers vi copied (g ∷ objects) f h =
      let later = split_objects-covers vi copied objects f in
      elim (Bool-cases (vi (trim_prefix g.path lister.storage_prefix))) [
        | inl e ↦ elim (Bool-cases (is_copied copied g.path)) [
          | inl e' ↦ rw (e, e') (grind (arith, h, later))
          | inr e' ↦ rw (e, e') (grind (arith, h, later))
        ]
        | inr e ↦ elim (Bool-cases lister.storage_optimize_copy) [
          | inl e' ↦ rw (e, e') (grind (arith, h, later))
          | inr e' ↦ elim (Bool-cases (is_copied copied g.path)) [
            | inl e'' ↦ rw (e, e', e'') (grind (arith, h, later))
            | inr e'' ↦ rw (e, e', e'') (grind (arith, h, later))
          ]
        ]
      ]

  -- The answers that the two lists were made from.
  pub record Seen (prefix : Bytes) (port : ℕ) (w : W) (lists : Lists) : Type 0 where
    pub objects : List ObjectInfo
    pub vi : Bytes → Bool
    pub copied : List ObjectInfo
    pub at_index : W
    pub at_copied : W
    pub listed : (lister.src_list_path prefix true w).0 ≡ ok objects
    pub index : (lister.get_virtual_index port at_index).0 ≡ ok vi
    pub present : (lister.dst_list_path prefix false at_copied).0 ≡ ok copied
    pub split : split_objects lister vi copied objects ≡ lists

  list_files_to_copy_ok :
      (prefix : Bytes) (port : ℕ) (w : W) (lists : Lists)
      → (list_files_to_copy lister prefix port w).0 ≡ ok lists
      → Seen prefix port w lists
  unfolding list_files_to_copy
  list_files_to_copy_ok prefix port w lists h =
      let src = lister.src_list_path prefix true in
      let (objects, listed, h₁) = bind-ok src (list_index lister prefix port) w lists h in
      let w₁ = (src w).1 in
      let get = lister.get_virtual_index port in
      let (vi, index, h₂) = bind-ok get (list_copied lister prefix objects) w₁ lists h₁ in
      let w₂ = (get w₁).1 in
      let dst = lister.dst_list_path prefix false in
      let (copied, present, h₃) = bind-ok dst (split_listed lister vi objects) w₂ lists h₂ in
      record {
        objects = objects;
        vi = vi;
        copied = copied;
        at_index = w₁;
        at_copied = w₂;
        listed = listed;
        index = index;
        present = present;
        split = cc;
      }

  -- If ListFilesToCopy returns its lists, then the first has exactly those of the listed objects
  -- of which the destination has none at the same path, and which the virtual index has, if the
  -- copy is to be optimized; and each listed object is in one of the two lists.
  pub list_files_to_copy_iff :
      (prefix : Bytes) (port : ℕ) (w : W) (lists : Lists)
      → (list_files_to_copy lister prefix port w).0 ≡ ok lists
      → (seen : Seen prefix port w lists) × ((f : ObjectInfo)
          → (In f lists.to_copy ↔ (In f seen.objects × ToCopy seen.vi seen.copied f))
            × (In f seen.objects → In f lists.to_copy ⊎ In f lists.skipped))
  list_files_to_copy_iff prefix port w lists h =
      let seen = list_files_to_copy_ok prefix port w lists h in
      let chosen : filter (taken seen.vi seen.copied) seen.objects ≡ lists.to_copy =
        sym (split_objects-filter seen.vi seen.copied seen.objects)
        ∙ ap (λ (l : Lists). l.to_copy) seen.split in
      (
        seen,
        λ f.
            let test = taken-ToCopy seen.vi seen.copied f in
            let within = filter-In (taken seen.vi seen.copied) f seen.objects in
            (
              (
                λ h'.
                    let (a, b) = within.0 (subst (λ fs. In f fs) (sym chosen) h') in (a, test.0 b),
                λ (a, b). subst (λ fs. In f fs) chosen (within.1 (a, test.1 b)),
              ),
              λ a.
                  subst (λ (l : Lists). In f l.to_copy ⊎ In f l.skipped) seen.split
                    (split_objects-covers seen.vi seen.copied seen.objects f a),
            ),
      )
