-- ===== src/Proc/Cat/Delivered.antt =====
-- What ProcessCatExtended of pkg/proc/interaction.go sends, over the retrying reader.
use yproxy.Base.{ℕ, ◌+◌, ◌<◌, ◌≡◌, Option, none}
use yproxy.Bytes.{Bytes}
use yproxy.Yio.RetryReader.{RestartReader, Reader, default_retry_limit}
use yproxy.Yio.RetryReader.Progress.{ReadsObject, FailsClean, InStep}
use yproxy.Yio.RetryReader.Retries.{FailsBounded}
use yproxy.Yio.RetryReader.Whole.{Serves, Steady}
use yproxy.Proc.Cat.{Cat, copied, discard}

module _ {W E : Type 0} (rr : RestartReader W E) (obj : Bytes) (At : ℕ → W → Type 0)
    (budget : W → ℕ) (write : Bytes → Bytes → Option E) where
  module _ (laws : ReadsObject rr obj At) (clean : FailsClean rr obj At)
      (bounded : FailsBounded rr (Serves rr obj At budget) budget)
      (steady : Steady rr obj At budget) (takes : (sent b : Bytes) → write sent b ≡ none) where
    -- The reader stands behind what was to be discarded.
    abbrev Discarded : ℕ → ℕ → ℕ → Reader W → Type 0
    Discarded fuel left offset y =
        (z : Reader W) × (discard rr fuel left y ≡ (copied, z))
        × InStep rr obj At z
        × (budget z.under < default_retry_limit)
        × (z.offset_reached ≡ offset + left)
