-- ===== src/Yio/RetryReader/Object.antt =====
-- A small object in a storage, read one byte at a time through YRestartReader with a limiter. The
-- state of the storage is the offset, and the number of failures that it still has ahead.
use yproxy.Base.{
  ℕ, zero, suc, ◌+◌, ◌≡◌, ◌≢◌, refl, subst, ◌≤◌, ◌<◌, true, none, some, [], ◌∷◌, arith, length,
  take, drop,
}
use yproxy.Bytes.{Bytes}
use yproxy.Yio.Writer.{Limiter}
use yproxy.Yio.RetryReader.{Answer, RestartReader, eof, other, count}
use yproxy.Yio.RetryReader.Progress.{ReadsObject, FailsClean}
use yproxy.Yio.RetryReader.Whole.{Serves, Steady}
use yproxy.Yio.RetryReader.Retries.{FailsBounded}
use yproxy.Yio.RestartReader.{
  Source, Opened, opened, refused, YRestartReader, new_restart_reader, restart_reader,
}
use yproxy.Yio.RestartReader.Laws as Laws
use yproxy.Yio.RestartReader.Budget as Budget

abbrev pub object : Bytes
object = 5 ∷ 6 ∷ 7 ∷ []

-- Each opening fails while there are failures ahead.
abbrev open_at : ℕ → ℕ × ℕ → Opened Unit ℕ × (ℕ × ℕ)
open_at o (p, zero) = (opened tt, (o, zero))
open_at o (p, suc n) = (refused 1, (p, n))

abbrev read_byte : ℕ → ℕ × ℕ → Answer ℕ × (ℕ × ℕ)
read_byte zero w = (record { bytes = some []; failure = none }, w)
read_byte (suc len) (p, n) = elim (drop p object) [
  | [] ↦ (record { bytes = some []; failure = some eof }, (p, n))
  | b ∷ more ↦ (record { bytes = some (b ∷ []); failure = none }, (p + 1, n))
]

abbrev source : Source (ℕ × ℕ) Unit ℕ
source = record {
  cat_file_from_storage = open_at;
  read = λ h. read_byte;
  close = λ h w. w;
  enable_limiter = λ w. true;
}

abbrev limiter : Limiter ℕ
limiter = record { burst = 2; wait_n = λ n. none }

abbrev OneStream : Type 0
OneStream = Unit

abbrev Stands : OneStream → ℕ → ℕ × ℕ → Type 0
Stands h p w = w.0 ≡ p

abbrev pub Storage : Type 0
Storage = YRestartReader (ℕ × ℕ) Unit

abbrev pub storage : RestartReader Storage ℕ
storage = restart_reader 0 limiter source

-- The reader of the object, with failures of the storage ahead.
abbrev pub fresh_storage : ℕ → Storage
fresh_storage n = new_restart_reader (0, n)

abbrev pub At : ℕ → Storage → Type 0
At = Laws.At 0 limiter source object Stands

abbrev pub ahead : Storage → ℕ
ahead = Budget.ahead 0 limiter source object Stands (λ w. w.1)

storage_read :
    (q n len : ℕ) (b : Bytes)
    → (read_byte len (q, n)).0.bytes ≡ some b
    → (b ≡ take (length b) (drop q object)) × ((read_byte len (q, n)).1.0 ≡ q + length b)
storage_read q n zero b h =
    let none_read : [] ≡ b = cc h in
    subst (λ (c : Bytes). (c ≡ take (length c) (drop q object)) × (q ≡ q + length c)) none_read
      (refl, omega arith)
storage_read zero n (suc len) b h = ground (arith, h)
storage_read (suc zero) n (suc len) b h = ground (arith, h)
storage_read (suc (suc zero)) n (suc len) b h = ground (arith, h)
storage_read (suc (suc (suc q))) n (suc len) b h = ground (arith, h)

storage_failure : (q n len : ℕ) (e : ℕ) → (read_byte len (q, n)).0.failure ≢ some (other e)
storage_failure q n zero e h = cc
storage_failure zero n (suc len) e h = ground (arith, h)
storage_failure (suc zero) n (suc len) e h = ground (arith, h)
storage_failure (suc (suc zero)) n (suc len) e h = ground (arith, h)
storage_failure (suc (suc (suc q))) n (suc len) e h = ground (arith, h)

storage_count : (q n len : ℕ) → (read_byte len (q, n)).0.bytes ≢ none
storage_count q n zero h = cc
storage_count zero n (suc len) h = ground (arith, h)
storage_count (suc zero) n (suc len) h = ground (arith, h)
storage_count (suc (suc zero)) n (suc len) h = ground (arith, h)
storage_count (suc (suc (suc q))) n (suc len) h = ground (arith, h)

storage_end :
    (q n len : ℕ)
    → q ≤ 3
    → (read_byte len (q, n)).0.failure ≡ some eof
    → q + count (read_byte len (q, n)).0.bytes ≡ 3
storage_end q n zero inside h = cc
storage_end zero n (suc len) inside h = ground (arith, h)
storage_end (suc zero) n (suc len) inside h = ground (arith, h)
storage_end (suc (suc zero)) n (suc len) inside h = ground (arith, h)
storage_end (suc (suc (suc q))) n (suc len) inside h = ground (arith, h)

storage_some :
    (q n len : ℕ) (b : Bytes)
    → 0 < len
    → (read_byte len (q, n)).0.failure ≡ none
    → (read_byte len (q, n)).0.bytes ≡ some b
    → 0 < length b
storage_some q n zero b room fine h = absurd (omega arith)
storage_some zero n (suc len) b room fine h = ground (arith, fine, h)
storage_some (suc zero) n (suc len) b room fine h = ground (arith, fine, h)
storage_some (suc (suc zero)) n (suc len) b room fine h = ground (arith, fine, h)
storage_some (suc (suc (suc q))) n (suc len) b room fine h = ground (arith, fine, h)

storage_fits : (q n len : ℕ) → count (read_byte len (q, n)).0.bytes ≤ len
storage_fits q n zero = omega arith
storage_fits zero n (suc len) = ground arith
storage_fits (suc zero) n (suc len) = ground arith
storage_fits (suc (suc zero)) n (suc len) = ground arith
storage_fits (suc (suc (suc q))) n (suc len) = ground arith

storage_budget : (q n len : ℕ) → (read_byte len (q, n)).1.1 ≤ n
storage_budget q n zero = omega arith
storage_budget zero n (suc len) = ground (arith)
storage_budget (suc zero) n (suc len) = ground (arith)
storage_budget (suc (suc zero)) n (suc len) = ground (arith)
storage_budget (suc (suc (suc q))) n (suc len) = ground (arith)

source_reads : Laws.SourceReads 0 limiter source object Stands
source_reads = record {
  opens = λ o (q, n) h. grind arith;
  reads = λ h p len (q, n) b at e.
      subst
        (λ (k : ℕ).
          (b ≡ take (length b) (drop k object)) × ((read_byte len (q, n)).1.0 ≡ k + length b))
        at (storage_read q n len b e);
  small = omega arith;
}

source_clean : Laws.CleanSource 0 limiter source object Stands
source_clean = record {
  clean = λ h len (q, n) e failed. absurd (storage_failure q n len e failed);
  fits = λ h len (q, n). storage_fits q n len;
  grants = λ n small. refl;
}

source_bounded : Budget.SourceBounded 0 limiter source object Stands (λ w. w.1)
source_bounded = record {
  open_fails = λ o (q, n) e h. grind arith;
  open_works = λ o (q, n). grind arith;
  close_works = λ h w. omega arith;
  read_fails = λ h len (q, n) e room failed. absurd (storage_failure q n len e failed);
  read_negative = λ h len (q, n) room failed. absurd (storage_count q n len failed);
  read_works = λ h len (q, n). storage_budget q n len;
  ends = λ h p len (q, n) inside room at stop.
      let here : q ≡ p = at in
      let end = storage_end q n len (omega (arith, here)) stop in omega (arith, here, end);
  delivers = λ h len (q, n) b room fine some_b. storage_some q n len b room fine some_b;
  burst = omega arith;
}

pub storage_laws : ReadsObject storage object At
storage_laws = Laws.restart_reader-ReadsObject 0 limiter source object Stands source_reads

pub storage_clean : FailsClean storage object At
storage_clean = Laws.restart_reader-FailsClean 0 limiter source object Stands source_clean

pub storage_bounded : FailsBounded storage (Serves storage object At ahead) ahead
storage_bounded =
    Budget.restart_reader-FailsBounded 0 limiter source object Stands (λ w. w.1) source_reads
      source_clean source_bounded

pub storage_steady : Steady storage object At ahead
storage_steady =
    Budget.restart_reader-Steady 0 limiter source object Stands (λ w. w.1) source_reads source_clean
      source_bounded
