-- ===== src/Yio/RetryReader/Retries.antt =====
-- How the retries of Read of pkg/proc/yio/yrreader.go end.
use yproxy.Base.{
  ℕ, suc, ◌≤◌, ◌<◌, ◌≡◌, sym, ◌∙◌, subst, false, Option, none, some, inl, inr, length, arith,
}
use yproxy.Bytes.{Bytes, add64}
use yproxy.Yio.RetryReader.Rounds.{
  answered-continue, Step-cases, restart_failed, restart_done, in_place,
}
use yproxy.Yio.RetryReader.{
  RestartReader, Reader, other, Result, got, ended, failed, continue, after_error, after_read,
  read_under, round, read,
}

-- Whether the result is that of a read, not a failure after the last retry.
abbrev pub Answers : {E : Type 0} → Result E → Type 0
Answers (got b) = Unit
Answers (ended b) = Unit
Answers (failed e) = ⊥

module _ {W E : Type 0} (rr : RestartReader W E) (Serves : W → Type 0) (budget : W → ℕ) where
  -- The reader below has at most `budget` failures ahead: a failed restart spends one, so does a
  -- failed Read into a buffer with room once a restart has made it serve, and nothing adds to them.
  pub record FailsBounded : Type 0 where
    pub restart_serves : (o : ℕ) (w : W) → (rr.restart o w).0 ≡ none → Serves (rr.restart o w).1
    pub restart_fails :
        (o : ℕ) (w : W) (e : E) → (rr.restart o w).0 ≡ some e → budget (rr.restart o w).1 < budget w
    pub restart_works : (o : ℕ) (w : W) → budget (rr.restart o w).1 ≤ budget w
    pub read_fails :
        (len : ℕ) (w : W) (e : E)
        → 0 < len
        → Serves w
        → (rr.read len w).0.failure ≡ some (other e)
        → budget (rr.read len w).1 < budget w
    pub read_negative :
        (len : ℕ) (w : W)
        → 0 < len
        → Serves w
        → (rr.read len w).0.bytes ≡ none
        → budget (rr.read len w).1 < budget w
    pub close_works : (w : W) → budget (rr.close w) ≤ budget w

  -- Unless the reader is to be restarted first, the one below it serves; so is a new one.
  abbrev pub Ready : Reader W → Type 0
  Ready y = y.need_reacquire ≡ false → Serves y.under

module _ {W E : Type 0} (rr : RestartReader W E) (Serves : W → Type 0) (budget : W → ℕ)
    (law : FailsBounded rr Serves budget) where
  read_under_spends :
      (len : ℕ) (last last' : Option E) (y y' : Reader W)
      → 0 < len
      → Serves y.under
      → read_under rr len last y ≡ continue last' y'
      → budget y'.under < budget y.under
  unfolding read_under after_error
  read_under_spends len last last' y y' room serves h =
      let (a, w) = rr.read len y.under in
      let (e, why) = answered-continue rr last last' a (record y { under = w }) y' h in
      let spent : budget w < budget y.under = elim why [
        | inl n ↦ law.read_negative len y.under room serves n
        | inr (x, f) ↦ law.read_fails len y.under x room serves f
      ] in
      rw e (omega (arith, spent, law.close_works w))

  pub round_spends :
      (len : ℕ) (last last' : Option E) (y y' : Reader W)
      → 0 < len
      → Ready rr Serves budget y
      → round rr len last y ≡ continue last' y'
      → budget y'.under < budget y.under
  round_spends len last last' y y' room ready h = elim (Step-cases rr len last y) [
    | restart_failed e due fail same ↦
        let moved : record y { under = (rr.restart y.offset_reached y.under).1 } ≡ y' =
          cc (sym same ∙ h) in
        subst (λ z. budget z.under < budget y.under) moved
          (law.restart_fails y.offset_reached y.under e fail)
    | restart_done _ ok same ↦ omega (
      arith,
      read_under_spends len last last'
          (record y { need_reacquire = false; under = (rr.restart y.offset_reached y.under).1 }) y'
          room (law.restart_serves y.offset_reached y.under ok) (sym same ∙ h),
      law.restart_works y.offset_reached y.under,
    )
    | in_place now same ↦ read_under_spends len last last' y y' room (ready now) (sym same ∙ h)
  ]

-- Bytes that come with an error are lost: if a Read leaves `half` in the buffer beside an error,
-- and the restart and the Read after it succeed, then what Read delivers is the second part
-- alone, and the reader has moved on by both.
pub half_read_lost :
    {W E : Type 0} (rr : RestartReader W E) (retries len : ℕ) (y : Reader W) (half b : Bytes)
    (e : E) (w w' w'' : W)
    → y.need_reacquire ≡ false
    → rr.read len y.under ≡ (record { bytes = some half; failure = some (other e) }, w)
    → rr.restart (add64 y.offset_reached (length half)) (rr.close w) ≡ (none, w')
    → rr.read len w' ≡ (record { bytes = some b; failure = none }, w'')
    → ((read rr (suc (suc retries)) len y).0 ≡ got b)
      × ((read rr (suc (suc retries)) len y).1.offset_reached
          ≡ add64 (add64 y.offset_reached (length half)) (length b))
unfolding read after_error after_read
half_read_lost rr retries len y half b e w w' w'' ready first again second =
    ground (arith, ready, first, again, second)
