-- ===== src/Proc/Copy/Workers/Complete.antt =====
-- One goroutine at a time, as in a round of ProcessCopyExtended of pkg/proc/interaction.go with a
-- semaphore of one permit, loses no failure.
use yproxy.Base.{
  ℕ, ◌<◌, ◌≡◌, ◌≢◌, refl, subst, Bool-cases, true, false, Option, Option-cases, none, List, [], ◌∷◌,
  ◌++◌, ◌⊎◌, inl, inr, arith, length,
}
use yproxy.Bytes.{Bytes, eqb, eqb-eq, eqb_refl}
use yproxy.Message.ObjectMeta.{ObjectInfo}
use yproxy.Proc.Copy.Workers.{
  CopyServices, Modes, Attempt, copied_there, no_reader, put, attempt, is_some, Pick, here, there,
  Round, after, checked, Step, run, check, Reach, start, step, new_round, Rounds, none_left,
  given_up, again,
}

-- One of the objects has the path.
abbrev pub InPath : Bytes → List ObjectInfo → Type 0
InPath q [] = ⊥
InPath q (o ∷ os) = (o.path ≡ q) ⊎ InPath q os

InPath-append : (q : Bytes) (xs ys : List ObjectInfo) → InPath q xs → InPath q (xs ++ ys)
InPath-append q [] ys h = absurd h
InPath-append q (o ∷ xs) ys (inl e) = inl e
InPath-append q (o ∷ xs) ys (inr h) = inr (InPath-append q xs ys h)

InPath-last :
    (q : Bytes) (xs : List ObjectInfo) (o : ObjectInfo) → o.path ≡ q → InPath q (xs ++ (o ∷ []))
InPath-last q [] o e = inl e
InPath-last q (x ∷ xs) o e = inr (InPath-last q xs o e)

Pick-InPath :
    (q : Bytes) (o : ObjectInfo) (xs ys : List ObjectInfo)
    → Pick o xs ys
    → InPath q xs
    → (o.path ≡ q) ⊎ InPath q ys
Pick-InPath q _ _ _ (here o xs) h = h
Pick-InPath q _ _ _ (there o y xs ys p) (inl e) = inr (inl e)
Pick-InPath q _ _ _ (there o y xs ys p) (inr h) = elim (Pick-InPath q o xs ys p h) [
  | inl e ↦ inl e
  | inr k ↦ inr (inr k)
]

abbrev pub Succeeded : {E : Type 0} → Attempt E → Type 0
Succeeded copied_there = Unit
Succeeded no_reader = ⊥
Succeeded (put noted e) = (noted ≡ false) × (e ≡ none)

path_decided : (p q : Bytes) → (p ≡ q) ⊎ (p ≢ q)
path_decided p q = elim (Bool-cases (eqb p q)) [
  | inl e ↦ inl (eqb-eq p q e)
  | inr e ↦ inr (λ same. cc (e, subst (λ (r : Bytes). eqb p r ≡ true) same (eqb_refl p)))
]

module _ {W E : Type 0} (sv : CopyServices W E) (modes : Modes) (q : Bytes) (Q : W → Type 0) where
  -- A copy of the path brings `Q` about if it succeeds, and that of another path does not undo it.
  pub record Copies : Type 0 where
    pub does :
        (o : ObjectInfo) (w : W)
        → o.path ≡ q
        → Succeeded (attempt sv modes o w).0
        → Q (attempt sv modes o w).1
    pub lasts : (o : ObjectInfo) (w : W) → o.path ≢ q → Q w → Q (attempt sv modes o w).1

  -- Where the object at the path is in a round
  data Covered (r : Round W E) : Type 0 where
    to_do : InPath q r.waiting → Covered r
    has_failed : InPath q r.failed → Covered r
    is_done : Q r.world → Covered r
    to_check : InPath q r.checking → (r.err ≡ none → Q r.world) → Covered r

  after-own :
      (a : Attempt E) (w : W) (o : ObjectInfo) (rest : List ObjectInfo) (r : Round W E)
      → o.path ≡ q
      → (Succeeded a → Q w)
      → Covered (after (a, w) o rest r)
  unfolding after
  after-own copied_there w o rest r same does = is_done (does tt)
  after-own no_reader w o rest r same does = has_failed (InPath-last q r.failed o same)
  after-own (put true e) w o rest r same does = has_failed (InPath-last q r.failed o same)
  after-own (put false e) w o rest r same does = to_check (inl same) (λ h. does (refl, h))

  after-other :
      (a : Attempt E) (w : W) (o : ObjectInfo) (rest : List ObjectInfo) (r : Round W E)
      → o.path ≢ q
      → r.checking ≡ []
      → Pick o r.waiting rest
      → (Q r.world → Q w)
      → Covered r
      → Covered (after (a, w) o rest r)
  unfolding after
  after-other a w o rest r other none_checking pick lasts (to_do h) =
      elim (Pick-InPath q o r.waiting rest pick h) [
        | inl same ↦ absurd (other same)
        | inr k ↦ still_to_do a k
      ]
    where
      still_to_do : (a : Attempt E) → InPath q rest → Covered (after (a, w) o rest r)
      still_to_do copied_there k = to_do k
      still_to_do no_reader k = to_do k
      still_to_do (put noted e) k = to_do k
  after-other copied_there w o rest r other none_checking pick lasts (has_failed h) = has_failed h
  after-other no_reader w o rest r other none_checking pick lasts (has_failed h) =
      has_failed (InPath-append q r.failed (o ∷ []) h)
  after-other (put true e) w o rest r other none_checking pick lasts (has_failed h) =
      has_failed (InPath-append q r.failed (o ∷ []) h)
  after-other (put false e) w o rest r other none_checking pick lasts (has_failed h) = has_failed h
  after-other copied_there w o rest r other none_checking pick lasts (is_done h) = is_done (lasts h)
  after-other no_reader w o rest r other none_checking pick lasts (is_done h) = is_done (lasts h)
  after-other (put noted e) w o rest r other none_checking pick lasts (is_done h) =
      is_done (lasts h)
  after-other a w o rest r other none_checking pick lasts (to_check h f) =
      absurd (subst (InPath q) none_checking h)

  checked-Covered :
      (o : ObjectInfo) (rest : List ObjectInfo) (r : Round W E)
      → Pick o r.checking rest
      → Covered r
      → Covered (checked o rest r)
  unfolding checked
  checked-Covered o rest r pick (to_do h) = to_do h
  checked-Covered o rest r pick (is_done h) = is_done h
  checked-Covered o rest r pick (has_failed h) = elim (Bool-cases (is_some r.err)) [
    | inl e ↦ has_failed (rw e (InPath-append q r.failed (o ∷ []) h))
    | inr e ↦ has_failed (rw e h)
  ]
  checked-Covered o rest r pick (to_check h f) = elim (Pick-InPath q o r.checking rest pick h) [
    | inr k ↦ to_check k f
    | inl same ↦ elim (Option-cases r.err) [
      | inl e ↦ is_done (f e)
      | inr (x, e) ↦ has_failed (rw e (InPath-last q r.failed o same))
    ]
  ]

  module _ (copies : Copies) where
    Step-Covered : (r t : Round W E) → Step sv modes 1 r t → Covered r → Covered t
    Step-Covered _ _ (run r o rest pick few) c = elim (path_decided o.path q) [
      | inl same ↦
          after-own (attempt sv modes o r.world).0 (attempt sv modes o r.world).1 o rest r same
            (copies.does o r.world same)
      | inr other ↦
          after-other (attempt sv modes o r.world).0 (attempt sv modes o r.world).1 o rest r other
            (nobody r.checking few) pick (copies.lasts o r.world other) c
    ]
      where
        nobody : (xs : List ObjectInfo) → length xs < 1 → xs ≡ []
        nobody [] h = refl
        nobody (x ∷ xs) h = absurd (omega arith)
    Step-Covered _ _ (check r o rest pick) c = checked-Covered o rest r pick c

    Reach-Covered : (s r : Round W E) → Reach sv modes 1 s r → Covered s → Covered r
    Reach-Covered s _ start c = c
    Reach-Covered s _ (step r t reached st) c = Step-Covered r t st (Reach-Covered s r reached c)

    ended-Covered :
        (r : Round W E)
        → r.waiting ≡ []
        → r.checking ≡ []
        → Covered r
        → InPath q r.failed ⊎ Q r.world
    ended-Covered r none_waiting none_checking (to_do h) = absurd (subst (InPath q) none_waiting h)
    ended-Covered r none_waiting none_checking (has_failed h) = inl h
    ended-Covered r none_waiting none_checking (is_done h) = inr h
    ended-Covered r none_waiting none_checking (to_check h f) =
        absurd (subst (InPath q) none_checking h)

    -- Where the goroutines run one at a time, an object that was to be copied is among those that
    -- are left at the end of the rounds, or has been copied: `Q` holds, which a copy of its path
    -- brings about if it succeeds, and that of another path does not undo.
    pub Rounds-done :
        (left : ℕ) (objects failed : List ObjectInfo) (e : Option E) (w w' : W)
        → Rounds sv modes 1 left objects e w failed w'
        → InPath q objects ⊎ Q w
        → InPath q failed ⊎ Q w'
    Rounds-done _ _ _ _ _ _ (none_left left e w) h = h
    Rounds-done _ _ _ _ _ _ (given_up objects e w) h = h
    Rounds-done _ _ _ _ _ _
          (again left o objects failed e w w' r reached none_waiting none_checking more) h =
        let begun : Covered (new_round (o ∷ objects) e w) = elim h [
          | inl k ↦ to_do k
          | inr k ↦ is_done k
        ] in
        Rounds-done left r.failed failed r.err r.world w' more (
          ended-Covered r none_waiting none_checking
            (Reach-Covered (new_round (o ∷ objects) e w) r reached begun))
