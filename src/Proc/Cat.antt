-- ===== src/Proc/Cat.antt =====
-- ProcessCatExtended of pkg/proc/interaction.go: an object, from an offset on, goes to the client.
pub mod Delivered
mod Tests
use yproxy.Base.{
  ℕ, zero, suc, ◌-◌, ◌^◌, min, Bool, true, false, Option, none, some, List, [], ◌++◌, length, ltb,
  ◌==◌, if◌then◌else◌,
}
use yproxy.Bytes.{Bytes}
use yproxy.Yio.RetryReader.{
  RestartReader, Reader, Result, got, ended, failed, count, read, new, default_retry_limit,
}

-- How the handler ends: with nil, with the error of the reader, which wraps the last one that it
-- saw, if any, with the end of an object that is shorter than the offset, with the error of a write
-- to the client, or without a decrypter. `out_of_fuel` is the end of the fuel.
pub data Cat (E : Type 0) : Type 0 where
  copied : Cat E
  cat_failed : Option E → Cat E
  write_failed : E → Cat E
  short_object : Cat E
  not_configured : Cat E
  out_of_fuel : Cat E

abbrev pub bytes_of : Option Bytes → Bytes
bytes_of none = []
bytes_of (some b) = b

-- The buffers of io.Discard and io.Copy
abbrev pub discard_buffer : ℕ
discard_buffer = 8192

abbrev pub copy_buffer : ℕ
copy_buffer = 32768

module _ {W E : Type 0} (rr : RestartReader W E) where
  -- io.CopyN(io.Discard, ..., left), a Read for each unit of fuel.
  unfoldable pub discard : ℕ → ℕ → Reader W → Cat E × Reader W
  discard zero left y = (if left == 0 then copied else out_of_fuel, y)
  discard (suc fuel) left y =
      let y' = (read rr default_retry_limit (min discard_buffer left) y).1 in
      let continued : Cat E × Reader W =
        elim (read rr default_retry_limit (min discard_buffer left) y).0 [
          | got b ↦ discard fuel (left - length b) y'
          | ended b ↦ (if left - count b == 0 then copied else short_object, y')
          | failed e ↦ (cat_failed e, y')
        ] in
      if left == 0 then (copied, y) else continued

  module _ (write : Bytes → Bytes → Option E) where
    -- A Write of some bytes to the client, behind those that were sent.
    unfoldable pub write_some : Bytes → Bytes → Option E
    write_some sent b = if length b == 0 then none else write sent b

    -- What follows a Write
    after_write : Option E → Bytes → Cat E × Bytes → Cat E × Bytes
    after_write none sent rest = rest
    after_write (some e) sent rest = (write_failed e, sent)

  -- io.Copy to the client; `write` is its Write, after what was sent before. It sends what came
  -- with the end of the stream too.
  unfoldable pub send : (Bytes → Bytes → Option E) → ℕ → Bytes → Reader W → Cat E × Bytes
  unfolding write_some after_write
  send write zero sent y = (out_of_fuel, sent)
  send write (suc fuel) sent y =
      let y' = (read rr default_retry_limit copy_buffer y).1 in
      elim (read rr default_retry_limit copy_buffer y).0 [
        | got b ↦ after_write write (write_some write sent b) sent (send write fuel (sent ++ b) y')
        | ended b ↦
            after_write write (write_some write sent (bytes_of b)) sent (copied, sent ++ bytes_of b)
        | failed e ↦ (cat_failed e, sent)
      ]

  send_after : (Bytes → Bytes → Option E) → ℕ → Cat E × Reader W → Cat E × Bytes
  send_after write fuel (copied, y) = send write fuel [] y
  send_after write fuel (c, y) = (c, [])

  -- int64 of a uint64: a negative offset discards nothing.
  abbrev pub skipped : ℕ → ℕ
  skipped start_offset = if ltb start_offset (2 ^ 63) then start_offset else 0

  -- ProcessCatExtended on a new reader over `w`. `decrypted` is what the crypter does, which is
  -- given the offset and the reader. A request for a KEK is only logged.
  unfoldable pub process_cat_extended :
      (Bytes → Bytes → Option E)
      → ℕ
      → Bool
      → Option (ℕ → Reader W → Cat E × Bytes)
      → ℕ
      → W
      → Cat E × Bytes
  unfolding send_after discard send
  process_cat_extended write fuel true none start_offset w = (not_configured, [])
  process_cat_extended write fuel true (some decrypted) start_offset w =
      decrypted start_offset (new w)
  process_cat_extended write fuel false cr start_offset w =
      send_after write fuel (discard fuel (skipped start_offset) (new w))
