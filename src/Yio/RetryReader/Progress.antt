-- ===== src/Yio/RetryReader/Progress.antt =====
-- The bytes that Read of pkg/proc/yio/yrreader.go delivers, and the offset that it reaches.
use yproxy.Base.{
  ℕ, zero, suc, ◌+◌, ◌^◌, ◌≤◌, ◌<◌, ◌≡◌, refl, sym, ap, ◌∙◌, subst, false, Option, none, some, inl,
  inr, length, take, drop, length-take-le, length-drop, arith, Option-cases,
}
use yproxy.Bytes.{Bytes, add64-eq-add}
use yproxy.Yio.RetryReader.Rounds.{
  answered_got, answered-continue, Step-cases, restart_failed, restart_done, in_place,
}
use yproxy.Yio.RetryReader.{
  Round-cases, retry_loop-return, retry_loop-continue, RestartReader, Reader, other, got, return,
  continue, count, after_error, after_read, read_under, round, retry_loop, read,
}

chunk_fits :
    (obj b : Bytes) (p : ℕ)
    → p ≤ length obj
    → b ≡ take (length b) (drop p obj)
    → p + length b ≤ length obj
chunk_fits obj b p h e =
    omega (arith, ap (length {A = ℕ}) e, length-take-le (length b) (drop p obj), length-drop p obj)

module _ {W E : Type 0} (rr : RestartReader W E) (obj : Bytes) (At : ℕ → W → Type 0) where
  -- What the reader behind it promises: `At p w` says that the object is read from `p` on. A
  -- successful restart goes to its offset, and a Read takes what comes next in the object, also
  -- where it reports an error beside it.
  pub record ReadsObject : Type 0 where
    pub restart_at : (o : ℕ) (w : W) → (rr.restart o w).0 ≡ none → At o (rr.restart o w).1
    pub read_at :
        (p len : ℕ) (w : W) (b : Bytes)
        → At p w
        → (rr.read len w).0.bytes ≡ some b
        → (b ≡ take (length b) (drop p obj)) × At (p + length b) (rr.read len w).1
    pub small : length obj < 2 ^ 63

  -- A Read that fails has put nothing into the buffer.
  pub record FailsClean : Type 0 where
    pub clean :
        (len : ℕ) (w : W) (e : E)
        → (rr.read len w).0.failure ≡ some (other e)
        → count (rr.read len w).0.bytes ≡ 0

  -- The reader stands within the object, and the one below it at the same offset, unless it is to
  -- be restarted first.
  pub record InStep (y : Reader W) : Type 0 where
    pub inside : y.offset_reached ≤ length obj
    pub at : y.need_reacquire ≡ false → At y.offset_reached y.under

-- Where a successful Read has left the reader: `b` is what the object has at `start`, and the
-- client shows the offset behind it.
pub record Delivered {W : Type 0} (obj : Bytes) (start : ℕ) (b : Bytes) (y : Reader W)
    : Type 0 where
  pub reached : y.offset_reached ≡ start + length b
  pub bytes : b ≡ take (length b) (drop start obj)
  pub shown : y.progress ≡ y.offset_reached

module _ {W E : Type 0} (rr : RestartReader W E) (obj : Bytes) (At : ℕ → W → Type 0)
    (laws : ReadsObject rr obj At) where
  read_under_got :
      (len : ℕ) (last : Option E) (y y' : Reader W) (b : Bytes)
      → y.offset_reached ≤ length obj
      → At y.offset_reached y.under
      → read_under rr len last y ≡ return (got b) y'
      → Delivered obj y.offset_reached b y' × InStep rr obj At y'
  unfolding read_under after_read
  read_under_got len last y y' b inside at h =
      let w = (rr.read len y.under).1 in
      let (has, e) = answered_got rr last (rr.read len y.under).0 (record y { under = w }) y' b h in
      let (same, after) = laws.read_at y.offset_reached len y.under b at has in
      let fits = chunk_fits obj b y.offset_reached inside same in
      let sum = add64-eq-add y.offset_reached (length b) (omega (arith, laws.small)) in
      rw e (
        record { reached = sum; bytes = same; shown = refl },
        record { inside = rw sum fits; at = λ _. rw sum after },
      )

  read_under-continue :
      (len : ℕ) (last last' : Option E) (y y' : Reader W)
      → y.offset_reached ≤ length obj
      → At y.offset_reached y.under
      → read_under rr len last y ≡ continue last' y'
      → InStep rr obj At y'
        × (y.offset_reached ≤ y'.offset_reached)
        × (FailsClean rr obj At → y'.offset_reached ≡ y.offset_reached)
  unfolding read_under after_error
  read_under-continue len last last' y y' inside at h =
      let (a, w) = rr.read len y.under in
      let (e, why) = answered-continue rr last last' a (record y { under = w }) y' h in
      let fits : y.offset_reached + count a.bytes ≤ length obj = elim (Option-cases a.bytes) [
        | inl n ↦ rw n (omega arith)
        | inr (b, some_b) ↦ rw some_b (
            chunk_fits obj b y.offset_reached inside
              (laws.read_at y.offset_reached len y.under b at some_b).0)
      ] in
      let sum = add64-eq-add y.offset_reached (count a.bytes) (omega (arith, laws.small)) in
      rw e (
        record { inside = rw sum fits; at = λ k. cc },
        rw sum (omega arith),
        λ c. rw sum (elim why [
          | inl n ↦ rw n (omega arith)
          | inr (x, f) ↦ omega (arith, c.clean len y.under x f)
        ]),
      )

  -- The reader below stands where it should, once it was restarted if it had to be.
  round_got :
      (len : ℕ) (last : Option E) (y y' : Reader W) (b : Bytes)
      → InStep rr obj At y
      → round rr len last y ≡ return (got b) y'
      → Delivered obj y.offset_reached b y' × InStep rr obj At y'
  round_got len last y y' b inv h = elim (Step-cases rr len last y) [
    | restart_failed e _ _ same ↦ cc (sym same ∙ h)
    | restart_done _ ok same ↦
        read_under_got len last
          (record y { need_reacquire = false; under = (rr.restart y.offset_reached y.under).1 }) y'
          b inv.inside (laws.restart_at y.offset_reached y.under ok) (sym same ∙ h)
    | in_place not_due same ↦
        read_under_got len last y y' b inv.inside (inv.at not_due) (sym same ∙ h)
  ]

  pub round-continue :
      (len : ℕ) (last last' : Option E) (y y' : Reader W)
      → InStep rr obj At y
      → round rr len last y ≡ continue last' y'
      → InStep rr obj At y'
        × (y.offset_reached ≤ y'.offset_reached)
        × (FailsClean rr obj At → y'.offset_reached ≡ y.offset_reached)
  round-continue len last last' y y' inv h = elim (Step-cases rr len last y) [
    | restart_failed e due _ same ↦
        let moved : record y { under = (rr.restart y.offset_reached y.under).1 } ≡ y' =
          cc (sym same ∙ h) in
        subst
          (λ z.
            InStep rr obj At z
            × (y.offset_reached ≤ z.offset_reached)
            × (FailsClean rr obj At → z.offset_reached ≡ y.offset_reached))
          moved (record { inside = inv.inside; at = λ k. cc }, omega arith, λ c. refl)
    | restart_done _ ok same ↦
        read_under-continue len last last'
          (record y { need_reacquire = false; under = (rr.restart y.offset_reached y.under).1 }) y'
          inv.inside (laws.restart_at y.offset_reached y.under ok) (sym same ∙ h)
    | in_place not_due same ↦
        read_under-continue len last last' y y' inv.inside (inv.at not_due) (sym same ∙ h)
  ]

  retry_loop_got :
      (retries len : ℕ) (last : Option E) (y y' : Reader W) (b : Bytes)
      → InStep rr obj At y
      → retry_loop rr retries len last y ≡ (got b, y')
      → (start : ℕ) × (y.offset_reached ≤ start)
        × Delivered obj start b y'
        × InStep rr obj At y'
        × (FailsClean rr obj At → start ≡ y.offset_reached)
  unfolding retry_loop
  retry_loop_got zero len last y y' b inv h = cc
  retry_loop_got (suc retries) len last y y' b inv h = elim (Round-cases (round rr len last y)) [
    | inl (r, z, e) ↦
        let returned : round rr len last y ≡ return (got b) y' =
          cc (e, sym (retry_loop-return rr retries len last y z r e) ∙ h) in
        let (delivered, after) = round_got len last y y' b inv returned in
        (y.offset_reached, omega arith, delivered, after, λ c. refl)
    | inr (last', z, e) ↦
        let (kept, ahead, same) = round-continue len last last' y z inv e in
        let (start, behind, delivered, after, exact) =
          retry_loop_got retries len last' z y' b kept
            (sym (retry_loop-continue rr retries len last last' y z e) ∙ h) in
        (start, omega arith, delivered, after, λ c. exact c ∙ same c)
  ]

  -- A successful Read delivers what the object has at some offset that is not below the one that
  -- was reached; the reader stands behind these bytes, shows that to the client, and stays in
  -- step with the reader below it.
  pub read_delivers :
      (retry_limit len : ℕ) (y y' : Reader W) (b : Bytes)
      → InStep rr obj At y
      → read rr retry_limit len y ≡ (got b, y')
      → (start : ℕ) × (y.offset_reached ≤ start) × Delivered obj start b y' × InStep rr obj At y'
  unfolding read
  read_delivers retry_limit len y y' b inv h =
      let (start, behind, delivered, after, _) = retry_loop_got retry_limit len none y y' b inv h in
      (start, behind, delivered, after)

  -- If a failing Read never leaves bytes in the buffer, a successful Read delivers exactly what
  -- the object has at the offset that was reached: no retry repeats or loses a byte.
  pub read_contiguous :
      (retry_limit len : ℕ) (y y' : Reader W) (b : Bytes)
      → FailsClean rr obj At
      → InStep rr obj At y
      → read rr retry_limit len y ≡ (got b, y')
      → Delivered obj y.offset_reached b y' × InStep rr obj At y'
  unfolding read
  read_contiguous retry_limit len y y' b clean inv h =
      let (start, behind, delivered, after, exact) =
        retry_loop_got retry_limit len none y y' b inv h in
      (subst (λ (n : ℕ). Delivered obj n b y') (exact clean) delivered, after)
