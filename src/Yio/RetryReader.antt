-- ===== src/Yio/RetryReader.antt =====
-- YproxyRetryReader of pkg/proc/yio/yrreader.go: a reader over a reader that can be restarted at
-- an offset, which restarts it after an error.
mod Rounds
pub mod Progress
pub mod Retries
pub mod Whole
pub mod Object
mod Tests
use yproxy.Base.{
  ℕ, zero, suc, ◌+◌, Bool, true, false, Option, none, some, List, length, ◌≡◌, refl, ◌⊎◌, inl, inr,
  if◌then◌else◌,
}
use yproxy.Bytes.{Bytes, add64}

-- What the reader distinguishes of an error of a Read.
pub data ReadFailure (E : Type 0) : Type 0 where
  eof : ReadFailure E
  other : E → ReadFailure E

-- The answer of a Read: the bytes that it put into the buffer, or a negative count; and an error.
pub record Answer (E : Type 0) : Type 0 where
  pub bytes : Option Bytes
  pub failure : Option (ReadFailure E)

-- The interface RestartReader: `W` is the state of the reader and of the storage behind it.
-- `read` has the length of the buffer. What a Close answers is not looked at.
pub record RestartReader (W E : Type 0) : Type 0 where
  pub restart : ℕ → W → Option E × W
  pub read : ℕ → W → Answer E × W
  pub close : W → W

-- The fields of YproxyRetryReader that change, the progress that the client object shows, and the
-- state behind the interface. `offset_reached` is the bit pattern of an int64.
pub record Reader (W : Type 0) : Type 0 where
  pub offset_reached : ℕ
  pub need_reacquire : Bool
  pub progress : ℕ
  pub under : W

-- The results of Read: bytes with a nil error, what came with the end of the stream, and -1 with
-- the last error that was seen, if any.
pub data Result (E : Type 0) : Type 0 where
  got : Bytes → Result E
  ended : Option Bytes → Result E
  failed : Option E → Result E

abbrev pub count : Option Bytes → ℕ
count none = 0
count (some b) = length b

-- One round of the loop either returns, or goes on with the last error.
pub data Round (W E : Type 0) : Type 0 where
  return : Result E → Reader W → Round W E
  continue : Option E → Reader W → Round W E

module _ {W E : Type 0} (rr : RestartReader W E) where
  -- An error, or a negative count: what was half-read is counted, and the reader is closed.
  pub after_error : Answer E → Reader W → Reader W
  after_error a y = record y {
    offset_reached = add64 y.offset_reached (count a.bytes);
    need_reacquire = true;
    under = rr.close y.under;
  }

  pub after_read : Bytes → Reader W → Reader W
  after_read b y =
      let reached = add64 y.offset_reached (length b) in
      record y { offset_reached = reached; progress = reached }

  -- The branches behind `y.underlying.Read(p)`.
  pub answered : Option E → Answer E → Reader W → Round W E
  answered last a y = elim a.failure [
    | some eof ↦ return (ended a.bytes) y
    | some (other e) ↦ continue (some e) (after_error a y)
    | none ↦ elim a.bytes [
      | none ↦ continue last (after_error a y)
      | some b ↦ return (got b) (after_read b y)
    ]
  ]

  pub read_under : ℕ → Option E → Reader W → Round W E
  read_under len last y =
      let (a, w) = rr.read len y.under in answered last a (record y { under = w })

  pub restarted : ℕ → Option E → Option E → W → Reader W → Round W E
  restarted len last (some e) w y = continue (some e) (record y { under = w })
  restarted len last none w y = read_under len last (record y { need_reacquire = false; under = w })

  pub round : ℕ → Option E → Reader W → Round W E
  round len last y =
      if y.need_reacquire
      then (let (e, w) = rr.restart y.offset_reached y.under in restarted len last e w y)
      else read_under len last y

  -- for retry := range y.retryLimit
  pub retry_loop : ℕ → ℕ → Option E → Reader W → Result E × Reader W
  retry_loop zero len last y = (failed last, y)
  retry_loop (suc retries) len last y = elim (round len last y) [
    | return r y' ↦ (r, y')
    | continue last' y' ↦ retry_loop retries len last' y'
  ]

  -- Read into a buffer of `len` bytes.
  unfoldable pub read : ℕ → ℕ → Reader W → Result E × Reader W
  unfolding retry_loop round restarted read_under answered after_error after_read
  read retry_limit len y = retry_loop retry_limit len none y

abbrev pub default_retry_limit : ℕ
default_retry_limit = 100

-- NewYRetryReader: the first Read restarts at offset 0.
abbrev pub new : {W : Type 0} → W → Reader W
new w = record { offset_reached = 0; need_reacquire = true; progress = 0; under = w }

pub Round-cases :
    {W E : Type 0} (o : Round W E)
    → ((r : Result E) × (y : Reader W) × (o ≡ return r y))
      ⊎ ((last : Option E) × (y : Reader W) × (o ≡ continue last y))
Round-cases (return r y) = inl (r, y, refl)
Round-cases (continue last y) = inr (last, y, refl)

module _ {W E : Type 0} (rr : RestartReader W E) where
  pub retry_loop-return :
      (retries len : ℕ) (last : Option E) (y y' : Reader W) (r : Result E)
      → round rr len last y ≡ return r y'
      → retry_loop rr (suc retries) len last y ≡ (r, y')
  unfolding retry_loop
  retry_loop-return retries len last y y' r e = rw (e, retry_loop) refl

  pub retry_loop-continue :
      (retries len : ℕ) (last last' : Option E) (y y' : Reader W)
      → round rr len last y ≡ continue last' y'
      → retry_loop rr (suc retries) len last y ≡ retry_loop rr retries len last' y'
  unfolding retry_loop
  retry_loop-continue retries len last last' y y' e = rw (e, retry_loop) refl
