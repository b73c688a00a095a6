-- ===== src/Yio/RetryReader/Whole.antt =====
-- Reading with the retrying reader of pkg/proc/yio/yrreader.go up to the end of an object.
use yproxy.Base.{
  ℕ, zero, suc, ◌+◌, ◌≤◌, ◌<◌, ◌≡◌, sym, ap, ◌∙◌, subst, false, Option, none, some, inl, inr,
  length, take, drop, arith,
}
use yproxy.Bytes.{Bytes}
use yproxy.Yio.RetryReader.Rounds.{answered_got, Step-cases, restart_failed, restart_done, in_place}
use yproxy.Yio.RetryReader.{
  RestartReader, Reader, Answer, eof, got, ended, return, count, after_read, answered, read_under,
  round, retry_loop, read, Round-cases, retry_loop-return, retry_loop-continue,
}
use yproxy.Yio.RetryReader.Progress.{ReadsObject, FailsClean, InStep, round-continue}
use yproxy.Yio.RetryReader.Retries.{FailsBounded, round_spends}

answered_ended :
    {W E : Type 0} (rr : RestartReader W E) (last : Option E) (a : Answer E) (y y' : Reader W)
    (b : Option Bytes)
    → answered rr last a y ≡ return (ended b) y'
    → (a.failure ≡ some eof) × (a.bytes ≡ b)
unfolding answered
answered_ended rr last a y y' b h = ground arith

answered_got_fine :
    {W E : Type 0} (rr : RestartReader W E) (last : Option E) (a : Answer E) (y y' : Reader W)
    (b : Bytes)
    → answered rr last a y ≡ return (got b) y'
    → a.failure ≡ none
unfolding answered
answered_got_fine rr last a y y' b h = ground arith

module _ {W E : Type 0} (rr : RestartReader W E) (obj : Bytes) (At : ℕ → W → Type 0)
    (budget : W → ℕ) where
  -- The reader below reads the object from some offset on.
  abbrev pub Serves : W → Type 0
  Serves w = (p : ℕ) × At p w

  -- Into a buffer with room, the end of the stream comes at the end of the object, a Read without a failure delivers
  -- something, and no Read adds to the failures that are ahead.
  pub record Steady : Type 0 where
    pub ends :
        (p len : ℕ) (w : W)
        → p ≤ length obj
        → 0 < len
        → At p w
        → (rr.read len w).0.failure ≡ some eof
        → p + count (rr.read len w).0.bytes ≡ length obj
    pub delivers :
        (len : ℕ) (w : W) (b : Bytes)
        → 0 < len
        → Serves w
        → (rr.read len w).0.failure ≡ none
        → (rr.read len w).0.bytes ≡ some b
        → 0 < length b
    pub fits : (len : ℕ) (w : W) → 0 < len → Serves w → count (rr.read len w).0.bytes ≤ len
    pub read_works : (len : ℕ) (w : W) → 0 < len → Serves w → budget (rr.read len w).1 ≤ budget w

  -- What is left of the object, up to its end
  pub record Last (offset len : ℕ) (b : Option Bytes) : Type 0 where
    pub in_buffer : count b ≤ len
    pub at_end : offset + count b ≡ length obj
    pub bytes : (c : Bytes) → b ≡ some c → c ≡ take (length c) (drop offset obj)

  module _ (laws : ReadsObject rr obj At) (clean : FailsClean rr obj At)
      (bounded : FailsBounded rr Serves budget) (steady : Steady) where
    read_under-ended :
        (len : ℕ) (last : Option E) (y y' : Reader W) (b : Option Bytes)
        → y.offset_reached ≤ length obj
        → 0 < len
        → At y.offset_reached y.under
        → read_under rr len last y ≡ return (ended b) y'
        → Last y.offset_reached len b
    unfolding read_under
    read_under-ended len last y y' b inside room at h =
        let (a, w) = rr.read len y.under in
        let (stop, same) = answered_ended rr last a (record y { under = w }) y' b h in
        record {
          in_buffer =
              subst (λ (o : Option Bytes). count o ≤ len) same
                (steady.fits len y.under room (y.offset_reached, at));
          at_end =
              ap (λ (o : Option Bytes). y.offset_reached + count o) (sym same)
              ∙ steady.ends y.offset_reached len y.under inside room at stop;
          bytes = λ c e. (laws.read_at y.offset_reached len y.under c at (same ∙ e)).0;
        }

    read_under_more :
        (len : ℕ) (last : Option E) (y y' : Reader W) (b : Bytes)
        → 0 < len
        → Serves y.under
        → read_under rr len last y ≡ return (got b) y'
        → (0 < length b) × (length b ≤ len) × (budget y'.under ≤ budget y.under)
    unfolding read_under after_read
    read_under_more len last y y' b room serves h =
        let (a, w) = rr.read len y.under in
        let (some_b, moved) = answered_got rr last a (record y { under = w }) y' b h in
        let fine = answered_got_fine rr last a (record y { under = w }) y' b h in
        (
          steady.delivers len y.under b room serves fine some_b,
          subst (λ (o : Option Bytes). count o ≤ len) some_b (steady.fits len y.under room serves),
          rw moved (steady.read_works len y.under room serves),
        )

    round-ended :
        (len : ℕ) (last : Option E) (y y' : Reader W) (b : Option Bytes)
        → 0 < len
        → InStep rr obj At y
        → round rr len last y ≡ return (ended b) y'
        → Last y.offset_reached len b
    round-ended len last y y' b room inv h = elim (Step-cases rr len last y) [
      | restart_failed e _ _ same ↦ cc (sym same ∙ h)
      | restart_done _ ok same ↦
          read_under-ended len last
            (record y { need_reacquire = false; under = (rr.restart y.offset_reached y.under).1 })
            y' b inv.inside room (laws.restart_at y.offset_reached y.under ok) (sym same ∙ h)
      | in_place not_due same ↦
          read_under-ended len last y y' b inv.inside room (inv.at not_due) (sym same ∙ h)
    ]

    round_more :
        (len : ℕ) (last : Option E) (y y' : Reader W) (b : Bytes)
        → 0 < len
        → InStep rr obj At y
        → round rr len last y ≡ return (got b) y'
        → (0 < length b) × (length b ≤ len) × (budget y'.under ≤ budget y.under)
    round_more len last y y' b room inv h = elim (Step-cases rr len last y) [
      | restart_failed e _ _ same ↦ cc (sym same ∙ h)
      | restart_done _ ok same ↦
          let (some_bytes, small, spent) =
            read_under_more len last
              (record y { need_reacquire = false; under = (rr.restart y.offset_reached y.under).1 })
              y' b room (y.offset_reached, laws.restart_at y.offset_reached y.under ok)
              (sym same ∙ h) in
          (some_bytes, small, omega (arith, spent, bounded.restart_works y.offset_reached y.under))
      | in_place not_due same ↦
          read_under_more len last y y' b room (y.offset_reached, inv.at not_due) (sym same ∙ h)
    ]

    retry_loop-ended :
        (retries len : ℕ) (last : Option E) (y y' : Reader W) (b : Option Bytes)
        → 0 < len
        → InStep rr obj At y
        → retry_loop rr retries len last y ≡ (ended b, y')
        → Last y.offset_reached len b
    unfolding retry_loop
    retry_loop-ended zero len last y y' b room inv h = cc
    retry_loop-ended (suc retries) len last y y' b room inv h =
        elim (Round-cases (round rr len last y)) [
          | inl (r, z, e) ↦
              let returned : round rr len last y ≡ return (ended b) y' =
                cc (e, sym (retry_loop-return rr retries len last y z r e) ∙ h) in
              round-ended len last y y' b room inv returned
          | inr (last', z, e) ↦
              let (kept, _, same) = round-continue rr obj At laws len last last' y z inv e in
              subst (λ (n : ℕ). Last n len b) (same clean)
                (retry_loop-ended retries len last' z y' b room kept
                  (sym (retry_loop-continue rr retries len last last' y z e) ∙ h))
        ]

    retry_loop_more :
        (retries len : ℕ) (last : Option E) (y y' : Reader W) (b : Bytes)
        → 0 < len
        → InStep rr obj At y
        → retry_loop rr retries len last y ≡ (got b, y')
        → (0 < length b) × (length b ≤ len) × (budget y'.under ≤ budget y.under)
    unfolding retry_loop
    retry_loop_more zero len last y y' b room inv h = cc
    retry_loop_more (suc retries) len last y y' b room inv h =
        elim (Round-cases (round rr len last y)) [
          | inl (r, z, e) ↦
              let returned : round rr len last y ≡ return (got b) y' =
                cc (e, sym (retry_loop-return rr retries len last y z r e) ∙ h) in
              round_more len last y y' b room inv returned
          | inr (last', z, e) ↦
              let (kept, _, _) = round-continue rr obj At laws len last last' y z inv e in
              let (some_bytes, small, spent) =
                retry_loop_more retries len last' z y' b room kept
                  (sym (retry_loop-continue rr retries len last last' y z e) ∙ h) in
              (
                some_bytes,
                small,
                omega (
                  arith,
                  spent,
                  round_spends rr Serves budget bounded len last last' y z room
                      (λ now. (y.offset_reached, inv.at now)) e,
                ),
              )
        ]

    -- Where Read comes to the end of the stream, what it has read ends the object.
    pub read-ended :
        (retry_limit len : ℕ) (y y' : Reader W) (b : Option Bytes)
        → 0 < len
        → InStep rr obj At y
        → read rr retry_limit len y ≡ (ended b, y')
        → Last y.offset_reached len b
    unfolding read
    read-ended retry_limit len y y' b room inv h =
        retry_loop-ended retry_limit len none y y' b room inv h

    -- A Read that succeeds delivers something, and no failures are added by it.
    pub read_more :
        (retry_limit len : ℕ) (y y' : Reader W) (b : Bytes)
        → 0 < len
        → InStep rr obj At y
        → read rr retry_limit len y ≡ (got b, y')
        → (0 < length b) × (length b ≤ len) × (budget y'.under ≤ budget y.under)
    unfolding read
    read_more retry_limit len y y' b room inv h =
        retry_loop_more retry_limit len none y y' b room inv h
