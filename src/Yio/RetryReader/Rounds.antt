-- ===== src/Yio/RetryReader/Rounds.antt =====
-- What a round of the loop of Read does, read off its outcome.
use yproxy.Base.{
  ℕ, ◌≡◌, ◌⊎◌, inl, inr, true, false, Option, none, some, arith, Bool-cases, Option-cases,
}
use yproxy.Bytes.{Bytes}
use yproxy.Yio.RetryReader.{
  RestartReader, Reader, Answer, other, got, failed, return, continue, after_error, after_read,
  answered, read_under, restarted, round,
}

pub answered_got :
    {W E : Type 0} (rr : RestartReader W E) (last : Option E) (a : Answer E) (y y' : Reader W)
    (b : Bytes)
    → answered rr last a y ≡ return (got b) y'
    → (a.bytes ≡ some b) × (y' ≡ after_read rr b y)
unfolding answered
answered_got rr last a y y' b h = ground arith

pub answered-continue :
    {W E : Type 0} (rr : RestartReader W E) (last last' : Option E) (a : Answer E) (y y' : Reader W)
    → answered rr last a y ≡ continue last' y'
    → (y' ≡ after_error rr a y) × ((a.bytes ≡ none) ⊎ ((e : E) × (a.failure ≡ some (other e))))
unfolding answered
answered-continue rr last last' a y y' h = ground arith

-- How a round begins.
pub data Step {W E : Type 0} (rr : RestartReader W E) (len : ℕ) (last : Option E) (y : Reader W)
    : Type 0 where
  restart_failed :
      (e : E)
      → y.need_reacquire ≡ true
      → (rr.restart y.offset_reached y.under).0 ≡ some e
      → round rr len last y
        ≡ continue (some e) (record y { under = (rr.restart y.offset_reached y.under).1 })
      → Step rr len last y
  restart_done :
      y.need_reacquire ≡ true
      → (rr.restart y.offset_reached y.under).0 ≡ none
      → round rr len last y
        ≡ read_under rr len last
            (record y { need_reacquire = false; under = (rr.restart y.offset_reached y.under).1 })
      → Step rr len last y
  in_place :
      y.need_reacquire ≡ false → round rr len last y ≡ read_under rr len last y → Step rr len last y

pub Step-cases :
    {W E : Type 0} (rr : RestartReader W E) (len : ℕ) (last : Option E) (y : Reader W)
    → Step rr len last y
unfolding round restarted
Step-cases rr len last y = elim (Bool-cases y.need_reacquire) [
  | inl due ↦ elim (Option-cases (rr.restart y.offset_reached y.under).0) [
    | inl e ↦ restart_done due e (ground arith)
    | inr (x, e) ↦ restart_failed x due e (ground arith)
  ]
  | inr not_due ↦ in_place not_due (ground arith)
]

-- A round that returns does not return a failure.
pub answered_failed :
    {W E : Type 0} (rr : RestartReader W E) (last e : Option E) (a : Answer E) (y y' : Reader W)
    → answered rr last a y ≡ return (failed e) y'
    → ⊥
unfolding answered
answered_failed rr last e a y y' h = ground arith
