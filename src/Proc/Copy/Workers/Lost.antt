-- ===== src/Proc/Copy/Workers/Lost.antt =====
-- Two goroutines of ProcessCopyExtended of pkg/proc/interaction.go beside each other.
use yproxy.Base.{
  ℕ, suc, ◌<◌, ◌≡◌, refl, subst, arith, false, Option, none, some, List, [], ◌∷◌, length,
}
use yproxy.Message.ObjectMeta.{ObjectInfo}
use yproxy.Proc.Copy.Workers.{
  CopyServices, Modes, Attempt, put, attempt, Pick, here, Round, after, checked, Step, run, check,
  start, step, new_round, Rounds, none_left, again,
}

module _ {W E : Type 0} (sv : CopyServices W E) (modes : Modes) (limit : ℕ) where
  run-after :
      (r : Round W E) (o : ObjectInfo) (rest : List ObjectInfo) (a : Attempt E × W)
      → attempt sv modes o r.world ≡ a
      → Pick o r.waiting rest
      → length r.checking < limit
      → Step sv modes limit r (after a o rest r)
  run-after r o rest a same pick few =
      subst (λ (b : Attempt E × W). Step sv modes limit r (after b o rest r)) same
        (run r o rest pick few)

  -- With two permits or more, a failed upload can go unnoticed: the upload of another object
  -- succeeds before the first goroutine looks at `err`, and the rounds end with nothing left.
  pub failure_lost :
      (left : ℕ) (o p : ObjectInfo) (e : E) (before : Option E) (w w' w'' : W)
      → 1 < limit
      → attempt sv modes o w ≡ (put false (some e), w')
      → attempt sv modes p w' ≡ (put false none, w'')
      → Rounds sv modes limit (suc left) (o ∷ p ∷ []) before w [] w''
  unfolding after checked
  failure_lost left o p e before w w' w'' permits fails works =
      let s : Round W E = new_round (o ∷ p ∷ []) before w in
      let s' : Round W E = record {
        world = w';
        err = some e;
        failed = [];
        waiting = p ∷ [];
        checking = o ∷ [];
      } in
      let s'' : Round W E = record {
        world = w'';
        err = none;
        failed = [];
        waiting = [];
        checking = p ∷ o ∷ [];
      } in
      let t : Round W E = checked p (o ∷ []) s'' in
      let t' : Round W E = checked o [] t in
      let first =
        run-after s o (p ∷ []) (put false (some e), w') fails (here o (p ∷ [])) (omega arith) in
      let second = run-after s' p [] (put false none, w'') works (here p []) (omega arith) in
      let third = check s'' p (o ∷ []) (here p (o ∷ [])) in
      let fourth = check t o [] (here o []) in
      again left o (p ∷ []) [] before w w'' t'
        (step t t' (step s'' t (step s' s'' (step s s' start first) second) third) fourth) refl refl
        (none_left left none w'')
