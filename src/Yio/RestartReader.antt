-- ===== src/Yio/RestartReader.antt =====
-- YRestartReader of pkg/proc/yio/yrreader.go, which opens an object of the storage again at an
-- offset, and the Reader of pkg/proc/yio/limiter/limiter.go that it may read through.
pub mod Laws
pub mod Budget
use yproxy.Base.{
  ℕ, ◌+◌, ◌≤◌, min, ◌≡◌, refl, Bool, true, false, Option, none, some, List, [], ◌==◌, length,
  if◌then◌else◌,
}
use yproxy.Bytes.{Bytes}
use yproxy.Yio.Writer.{Limiter}
use yproxy.Yio.RetryReader.{ReadFailure, other, Answer, RestartReader, count}

-- What CatFileFromStorage gives
pub data Opened (H E : Type 0) : Type 0 where
  opened : H → Opened H E
  refused : E → Opened H E

-- The storage, for one object: opening it at an offset, and the stream `H` that this gives.
-- `enable_limiter` is EnableRateLimiter of the configuration, which may change.
pub record Source (W H E : Type 0) : Type 0 where
  pub cat_file_from_storage : ℕ → W → Opened H E × W
  pub read : H → ℕ → W → Answer E × W
  pub close : H → W → W
  pub enable_limiter : W → Bool

-- The stream, with whether it is read through the limiter. `nil_read` is the panic of a Read
-- without a stream.
pub record YRestartReader (W H : Type 0) : Type 0 where
  pub underlying : Option (H × Bool)
  pub world : W
  pub nil_read : Bool

abbrev pub new_restart_reader : {W H : Type 0} → W → YRestartReader W H
new_restart_reader w = record { underlying = none; world = w; nil_read = false }

module _ {W H E : Type 0} (empty_buffer : E) (lim : Limiter E) (src : Source W H E) where
  waited : Answer E → Answer E
  waited a = elim a.failure [
    | some f ↦ a
    | none ↦ record a {
      failure = elim (lim.wait_n (count a.bytes)) [ none ↦ none | some e ↦ some (other e) ];
    }
  ]

  -- Reader.Read of the limiter: no more than a burst is read, and then waited for; the error of a
  -- Read is returned before that of the wait.
  unfoldable pub limited_read : H → ℕ → W → Answer E × W
  unfolding waited
  limited_read h len w =
      if len == 0
      then (record { bytes = some []; failure = some (other empty_buffer) }, w)
      else (let (a, w') = src.read h (min lim.burst len) w in (waited a, w'))

  -- Close, where there is a stream
  close_under : YRestartReader W H → W
  close_under y = elim y.underlying [ none ↦ y.world | some u ↦ src.close u.0 y.world ]

  with_stream : YRestartReader W H → Opened H E × W → Option E × YRestartReader W H
  with_stream y (refused e, w) = (some e, record y { world = w })
  with_stream y (opened h, w) =
      (none, record y { underlying = some (h, src.enable_limiter w); world = w })

  -- Restart
  unfoldable pub restart : ℕ → YRestartReader W H → Option E × YRestartReader W H
  unfolding with_stream close_under
  restart offset_start y = with_stream y (src.cat_file_from_storage offset_start (close_under y))

  with_world : YRestartReader W H → Answer E × W → Answer E × YRestartReader W H
  with_world y (a, w) = (a, record y { world = w })

  -- Read
  unfoldable pub read : ℕ → YRestartReader W H → Answer E × YRestartReader W H
  unfolding with_world limited_read
  read len y = elim y.underlying [
    | none ↦ (record { bytes = none; failure = none }, record y { nil_read = true })
    | some u ↦ with_world y (if u.1 then limited_read u.0 len y.world else src.read u.0 len y.world)
  ]

  unfoldable pub restart_reader : RestartReader (YRestartReader W H) E
  unfolding restart read close_under
  restart_reader = record {
    restart = restart;
    read = read;
    close = λ y. record y { world = close_under y };
  }
