-- ===== src/Yio/Writer.antt =====
-- The writers between an upload and the storage: YproxyWriter of pkg/proc/yio/ywriter.go, the
-- Writer of pkg/proc/yio/limiter/limiter.go, and the pipe that they write to.
pub mod Pipe
use yproxy.Base.{
  ℕ, ◌+◌, ◌≤◌, min, ◌≡◌, refl, Bool, true, false, Option, none, some, List, [], ◌++◌, take, length,
  ◌==◌, if◌then◌else◌,
}
use yproxy.Bytes.{Bytes, add64}

-- io.WriteCloser: the count of bytes that Write took, and its error.
pub record WriteCloser (W E : Type 0) : Type 0 where
  pub write : Bytes → W → (ℕ × Option E) × W
  pub close : W → Option E × W

-- What the code uses of rate.Limiter.
pub record Limiter (E : Type 0) : Type 0 where
  pub burst : ℕ
  pub wait_n : ℕ → Option E

-- The fields of YproxyWriter that change, and the byte offset that the client object shows; both
-- are bit patterns of an int64.
pub record YproxyWriter (W : Type 0) : Type 0 where
  pub offset_reached : ℕ
  pub byte_offset : ℕ
  pub under : W

module _ {W E : Type 0} (empty_buffer : E) (lim : Limiter E) (w : WriteCloser W E) where
  -- Writer.getBurstableLimit
  pub get_burstable_limit : ℕ → ℕ
  get_burstable_limit n = min lim.burst n

  -- Writer.Write of the limiter: the error of the wait is only logged.
  pub limited_write : Bytes → W → (ℕ × Option E) × W
  limited_write buf st =
      if length buf == 0
      then ((0, some empty_buffer), st)
      else w.write (take (get_burstable_limit (length buf)) buf) st

  unfoldable pub new_limited : WriteCloser W E
  unfolding limited_write get_burstable_limit
  new_limited = record { write = limited_write; close = w.close }

module _ {W E : Type 0} (w : WriteCloser W E) where
  -- Write of YproxyWriter
  pub write : Bytes → YproxyWriter W → (ℕ × Option E) × YproxyWriter W
  write p y =
      let (res, st) = w.write p y.under in
      let reached = add64 y.offset_reached res.0 in
      (res, record { offset_reached = reached; byte_offset = reached; under = st })

  pub close : YproxyWriter W → Option E × YproxyWriter W
  close y = let (e, st) = w.close y.under in (e, record y { under = st })

  unfoldable pub counted : WriteCloser (YproxyWriter W) E
  unfolding write close
  counted = record { write = write; close = close }

-- NewYproxyWriter: the limiter is used where the configuration enables it.
unfoldable pub new_yproxy_writer :
    {W E : Type 0} → E → Option (Limiter E) → WriteCloser W E → WriteCloser (YproxyWriter W) E
unfolding counted new_limited
new_yproxy_writer empty_buffer none w = counted w
new_yproxy_writer empty_buffer (some lim) w = counted (new_limited empty_buffer lim w)
