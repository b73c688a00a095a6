-- ===== src/Yio/RestartReader/Budget.antt =====
-- The failures that YRestartReader of pkg/proc/yio/yrreader.go has ahead are those of the storage that
-- it reads from.
use yproxy.Base.{
  ℕ, ◌+◌, ◌≤◌, ◌<◌, min, ◌≡◌, refl, sym, ap, ◌∙◌, true, false, Option, none, some, inl, inr, length,
  ◌==◌, Option-cases, arith,
}
use yproxy.Bytes.{Bytes}
use yproxy.Yio.Writer.{Limiter}
use yproxy.Yio.RetryReader.{ReadFailure, eof, other, Answer, count}
use yproxy.Yio.RetryReader.Retries.{FailsBounded}
use yproxy.Yio.RetryReader.Whole.{Serves, Steady}
use yproxy.Yio.RestartReader.{
  Source, Opened, opened, refused, YRestartReader, waited, limited_read, with_stream, close_under,
  restart, read, restart_reader, with_world,
}
use yproxy.Yio.RestartReader.Laws.{SourceReads, CleanSource, At, restart_reader-ReadsObject}

module _ {W H E : Type 0} (empty_buffer : E) (lim : Limiter E) (src : Source W H E) (obj : Bytes)
    (StandsAt : H → ℕ → W → Type 0) (budget : W → ℕ) where
  -- The storage has at most `budget` failures ahead: opening the object or reading from it spends
  -- one where it fails. Its streams end where the object does, and deliver something before.
  pub record SourceBounded : Type 0 where
    pub open_fails :
        (o : ℕ) (w : W) (e : E)
        → (src.cat_file_from_storage o w).0 ≡ refused e
        → budget (src.cat_file_from_storage o w).1 < budget w
    pub open_works : (o : ℕ) (w : W) → budget (src.cat_file_from_storage o w).1 ≤ budget w
    pub close_works : (h : H) (w : W) → budget (src.close h w) ≤ budget w
    pub read_fails :
        (h : H) (len : ℕ) (w : W) (e : E)
        → 0 < len
        → (src.read h len w).0.failure ≡ some (other e)
        → budget (src.read h len w).1 < budget w
    pub read_negative :
        (h : H) (len : ℕ) (w : W)
        → 0 < len
        → (src.read h len w).0.bytes ≡ none
        → budget (src.read h len w).1 < budget w
    pub read_works : (h : H) (len : ℕ) (w : W) → budget (src.read h len w).1 ≤ budget w
    pub ends :
        (h : H) (p len : ℕ) (w : W)
        → p ≤ length obj
        → 0 < len
        → StandsAt h p w
        → (src.read h len w).0.failure ≡ some eof
        → p + count (src.read h len w).0.bytes ≡ length obj
    pub delivers :
        (h : H) (len : ℕ) (w : W) (b : Bytes)
        → 0 < len
        → (src.read h len w).0.failure ≡ none
        → (src.read h len w).0.bytes ≡ some b
        → 0 < length b
    -- the limiter lets something through
    pub burst : 0 < lim.burst

  -- The failures ahead of the reader
  abbrev pub ahead : YRestartReader W H → ℕ
  ahead y = budget y.world

  -- A Read of a reader with a stream is one of the stream, into a part of the buffer.
  record ReadsAs (p len : ℕ) (y : YRestartReader W H) : Type 0 where
    stream : H
    size : ℕ
    room : 0 < size
    small : size ≤ len
    stands : StandsAt stream p y.world
    answer : (read empty_buffer lim src len y).0 ≡ (src.read stream size y.world).0
    world : (read empty_buffer lim src len y).1.world ≡ (src.read stream size y.world).1

  waited-fine :
      (a : Answer E)
      → (a.failure ≡ none → lim.wait_n (count a.bytes) ≡ none)
      → waited empty_buffer lim src a ≡ a
  unfolding waited
  waited-fine a grants = go a.bytes a.failure grants
    where
      go :
          (b : Option Bytes) (f : Option (ReadFailure E))
          → (f ≡ none → lim.wait_n (count b) ≡ none)
          → waited empty_buffer lim src (record { bytes = b; failure = f })
            ≡ record { bytes = b; failure = f }
      go b (some f) g = refl
      go b none g = rw (g refl) refl

  module _ (source : SourceReads empty_buffer lim src obj StandsAt)
      (clean : CleanSource empty_buffer lim src obj StandsAt) (bounded : SourceBounded) where
    waited-same :
        (h : H) (n : ℕ) (w : W)
        → n ≤ lim.burst
        → waited empty_buffer lim src (src.read h n w).0 ≡ (src.read h n w).0
    waited-same h n w small =
        waited-fine (src.read h n w).0
          (λ e. clean.grants (count (src.read h n w).0.bytes) (omega (arith, clean.fits h n w)))

    limited_read-read :
        (h : H) (len : ℕ) (w : W)
        → 0 < len
        → limited_read empty_buffer lim src h len w ≡ src.read h (min lim.burst len) w
    unfolding limited_read
    limited_read-read h len w room =
        let some_room : (len == 0) ≡ false = ground arith in
        rw some_room (
          ap (λ (a : Answer E). (a, (src.read h (min lim.burst len) w).1))
            (waited-same h (min lim.burst len) w (omega arith)))

    reads_as :
        (p len : ℕ) (y : YRestartReader W H)
        → 0 < len
        → At empty_buffer lim src obj StandsAt p y
        → ReadsAs p len y
    unfolding read with_world
    reads_as p len y room ((h, true), has, stands) =
        let same = limited_read-read h len y.world room in
        record {
          stream = h;
          size = min lim.burst len;
          room = omega (arith, bounded.burst);
          small = omega arith;
          stands = stands;
          answer = rw (has, read) (ap (λ (r : Answer E × W). r.0) same);
          world = rw (has, read) (ap (λ (r : Answer E × W). r.1) same);
        }
    reads_as p len y room ((h, false), has, stands) = record {
      stream = h;
      size = len;
      room = room;
      small = omega arith;
      stands = stands;
      answer = rw (has, read) refl;
      world = rw (has, read) refl;
    }

    close_under-budget :
        (y : YRestartReader W H) → budget (close_under empty_buffer lim src y) ≤ budget y.world
    unfolding close_under
    close_under-budget y = elim (Option-cases y.underlying) [
      | inl none_open ↦ rw (none_open, close_under) (omega arith)
      | inr (u, has) ↦ rw (has, close_under) (bounded.close_works u.0 y.world)
    ]

    restart-fails :
        (o : ℕ) (y : YRestartReader W H) (e : E)
        → (restart empty_buffer lim src o y).0 ≡ some e
        → ahead (restart empty_buffer lim src o y).1 < ahead y
    unfolding restart with_stream
    restart-fails o y e h =
        go (src.cat_file_from_storage o (close_under empty_buffer lim src y)) refl h
      where
        go :
            (r : Opened H E × W)
            → src.cat_file_from_storage o (close_under empty_buffer lim src y) ≡ r
            → (with_stream empty_buffer lim src y r).0 ≡ some e
            → ahead (with_stream empty_buffer lim src y r).1 < ahead y
        go (refused e', w) same k =
            let spent =
              bounded.open_fails o (close_under empty_buffer lim src y) e'
                (ap (λ (r : Opened H E × W). r.0) same) in
            let after = ap (λ (r : Opened H E × W). budget r.1) same in
            omega (arith, spent, after, close_under-budget y)
        go (opened s, w) same k = cc

    restart-works :
        (o : ℕ) (y : YRestartReader W H) → ahead (restart empty_buffer lim src o y).1 ≤ ahead y
    unfolding restart with_stream
    restart-works o y = go (src.cat_file_from_storage o (close_under empty_buffer lim src y)) (
        omega
          (arith, bounded.open_works o (close_under empty_buffer lim src y), close_under-budget y))
      where
        go :
            (r : Opened H E × W)
            → budget r.1 ≤ budget y.world
            → ahead (with_stream empty_buffer lim src y r).1 ≤ ahead y
        go (refused e', w) h = h
        go (opened s, w) h = h

    -- YRestartReader fails no more often than the storage does.
    pub restart_reader-FailsBounded :
        FailsBounded
          (restart_reader empty_buffer lim src)
          (Serves
            (restart_reader empty_buffer lim src)
            obj
            (At empty_buffer lim src obj StandsAt)
            ahead)
          ahead
    unfolding restart_reader
    restart_reader-FailsBounded = record {
      restart_serves = λ o y h. (
        o,
        (restart_reader-ReadsObject empty_buffer lim src obj StandsAt source).restart_at o y h,
      );
      restart_fails = restart-fails;
      restart_works = restart-works;
      read_fails = λ len y e room (p, at) h.
          let r = reads_as p len y room at in
          let failed = ap (λ (a : Answer E). a.failure) (sym r.answer) ∙ h in
          let after = ap budget r.world in
          omega (arith, after, bounded.read_fails r.stream r.size y.world e r.room failed);
      read_negative = λ len y room (p, at) h.
          let r = reads_as p len y room at in
          let failed = ap (λ (a : Answer E). a.bytes) (sym r.answer) ∙ h in
          let after = ap budget r.world in
          omega (arith, after, bounded.read_negative r.stream r.size y.world r.room failed);
      close_works = close_under-budget;
    }

    -- And it reads the object to its end.
    pub restart_reader-Steady :
        Steady
          (restart_reader empty_buffer lim src)
          obj
          (At empty_buffer lim src obj StandsAt)
          ahead
    unfolding restart_reader
    restart_reader-Steady = record {
      ends = λ p len y inside room at h.
          let r = reads_as p len y room at in
          let stop = ap (λ (a : Answer E). a.failure) (sym r.answer) ∙ h in
          ap (λ (a : Answer E). p + count a.bytes) r.answer
          ∙ bounded.ends r.stream p r.size y.world inside r.room r.stands stop;
      delivers = λ len y b room (p, at) fine h.
          let r = reads_as p len y room at in
          bounded.delivers r.stream r.size y.world b r.room
            (ap (λ (a : Answer E). a.failure) (sym r.answer) ∙ fine)
            (ap (λ (a : Answer E). a.bytes) (sym r.answer) ∙ h);
      fits = λ len y room (p, at).
          let r = reads_as p len y room at in
          let same = ap (λ (a : Answer E). count a.bytes) r.answer in
          omega (arith, same, r.small, clean.fits r.stream r.size y.world);
      read_works = λ len y room (p, at).
          let r = reads_as p len y room at in
          let after = ap budget r.world in
          omega (arith, after, bounded.read_works r.stream r.size y.world);
    }
