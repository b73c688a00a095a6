-- ===== src/Yio/RestartReader/Laws.antt =====
-- What YRestartReader of pkg/proc/yio/yrreader.go promises the retrying reader above it, if the
-- storage reads the object.
use yproxy.Base.{
  ℕ, ◌+◌, ◌^◌, ◌≤◌, ◌<◌, min, ◌≡◌, refl, sym, ap, ◌∙◌, subst, Bool, true, false, Option, none, some,
  [], if◌then◌else◌, length, take, drop, ◌==◌, Option-cases, Bool-cases, inl, inr, arith,
}
use yproxy.Bytes.{Bytes}
use yproxy.Yio.Writer.{Limiter}
use yproxy.Yio.RetryReader.{other, Answer, count}
use yproxy.Yio.RetryReader.Progress.{ReadsObject, FailsClean}
use yproxy.Yio.RestartReader.{
  Source, Opened, opened, refused, YRestartReader, waited, limited_read, with_stream, close_under,
  restart, read, restart_reader, with_world,
}

some-injective : {A : Type 0} {a b : A} → ◌≡◌ {A = Option A} (some a) (some b) → a ≡ b
some-injective h = cc

module _ {W H E : Type 0} (empty_buffer : E) (lim : Limiter E) (src : Source W H E) (obj : Bytes)
    (StandsAt : H → ℕ → W → Type 0) where
  -- A stream that is opened at an offset stands there, and a Read delivers what comes next.
  pub record SourceReads : Type 0 where
    pub opens :
        (o : ℕ) (w : W) (h : H)
        → (src.cat_file_from_storage o w).0 ≡ opened h
        → StandsAt h o (src.cat_file_from_storage o w).1
    pub reads :
        (h : H) (p len : ℕ) (w : W) (b : Bytes)
        → StandsAt h p w
        → (src.read h len w).0.bytes ≡ some b
        → (b ≡ take (length b) (drop p obj)) × StandsAt h (p + length b) (src.read h len w).1
    pub small : length obj < 2 ^ 63

  -- The reader has a stream that stands at the offset.
  abbrev pub At : ℕ → YRestartReader W H → Type 0
  At p y = (u : H × Bool) × (y.underlying ≡ some u) × StandsAt u.0 p y.world

  waited-bytes : (a : Answer E) → (waited empty_buffer lim src a).bytes ≡ a.bytes
  unfolding waited
  waited-bytes a = elim (Option-cases a.failure) [
    | inl fine ↦ rw (fine, waited) refl
    | inr (f, failed) ↦ rw (failed, waited) refl
  ]

  module _ (source : SourceReads) where
    restart-At :
        (o : ℕ) (y : YRestartReader W H)
        → (restart empty_buffer lim src o y).0 ≡ none
        → At o (restart empty_buffer lim src o y).1
    unfolding restart with_stream
    restart-At o y h = go (src.cat_file_from_storage o (close_under empty_buffer lim src y)) refl h
      where
        go :
            (r : Opened H E × W)
            → src.cat_file_from_storage o (close_under empty_buffer lim src y) ≡ r
            → (with_stream empty_buffer lim src y r).0 ≡ none
            → At o (with_stream empty_buffer lim src y r).1
        go (refused e, w) same k = cc
        go (opened s, w) same k = (
          (s, src.enable_limiter w),
          refl,
          subst (λ (r : Opened H E × W). StandsAt s o r.1) same
              (source.opens o (close_under empty_buffer lim src y) s
                (ap (λ (r : Opened H E × W). r.0) same)),
        )

    -- What a Read of the stream delivers, and where the stream then stands.
    abbrev Reads : H → ℕ → Answer E × W → Type 0
    Reads h p r =
        (b : Bytes)
        → r.0.bytes ≡ some b
        → (b ≡ take (length b) (drop p obj)) × StandsAt h (p + length b) r.1

    limited_read-Reads :
        (h : H) (p len : ℕ) (w : W)
        → StandsAt h p w
        → Reads h p (limited_read empty_buffer lim src h len w)
    unfolding limited_read
    limited_read-Reads h p len w stands b e = elim (Bool-cases (len == 0)) [
      | inl nothing ↦
          let no_bytes : [] ≡ b = some-injective (rw nothing at e) in
          rw nothing (
            subst (λ (c : Bytes). (c ≡ take (length c) (drop p obj)) × StandsAt h (p + length c) w)
              no_bytes (refl, subst (λ (n : ℕ). StandsAt h n w) (omega arith) stands))
      | inr something ↦ rw something (
          source.reads h p (min lim.burst len) w b stands
            (sym (waited-bytes (src.read h (min lim.burst len) w).0) ∙ (rw something at e)))
    ]

    read-At :
        (p len : ℕ) (y : YRestartReader W H) (b : Bytes)
        → At p y
        → (read empty_buffer lim src len y).0.bytes ≡ some b
        → (b ≡ take (length b) (drop p obj)) × At (p + length b) (read empty_buffer lim src len y).1
    unfolding read with_world
    read-At p len y b ((h, limited), has, stands) e =
        let (same, after) = stream limited b (rw (has, read) at e) in
        rw (has, read) (same, ((h, limited), has, after))
      where
        stream :
            (limited : Bool)
            → Reads h p (
                if limited
                then limited_read empty_buffer lim src h len y.world
                else src.read h len y.world)
        stream true b' e' = limited_read-Reads h p len y.world stands b' e'
        stream false b' e' = source.reads h p len y.world b' stands e'

    -- The reader keeps the promise on which the retrying reader above it rests.
    pub restart_reader-ReadsObject : ReadsObject (restart_reader empty_buffer lim src) obj At
    unfolding restart_reader
    restart_reader-ReadsObject = record {
      restart_at = restart-At;
      read_at = read-At;
      small = source.small;
    }

  -- A Read of the storage that fails has put nothing into the buffer, one that does not fail keeps
  -- to the buffer, and the limiter grants what is no more than its burst.
  pub record CleanSource : Type 0 where
    pub clean :
        (h : H) (len : ℕ) (w : W) (e : E)
        → (src.read h len w).0.failure ≡ some (other e)
        → count (src.read h len w).0.bytes ≡ 0
    pub fits : (h : H) (len : ℕ) (w : W) → count (src.read h len w).0.bytes ≤ len
    pub grants : (n : ℕ) → n ≤ lim.burst → lim.wait_n n ≡ none

  module _ (clean : CleanSource) where
    waited-clean :
        (h : H) (n : ℕ) (w : W) (e : E)
        → n ≤ lim.burst
        → (waited empty_buffer lim src (src.read h n w).0).failure ≡ some (other e)
        → count (src.read h n w).0.bytes ≡ 0
    unfolding waited
    waited-clean h n w e small failed = elim (Option-cases (src.read h n w).0.failure) [
      | inr (f, there) ↦ clean.clean h n w e (there ∙ (sym there ∙ rw (there, waited) at failed))
      | inl fine ↦
          let granted =
            clean.grants (count (src.read h n w).0.bytes) (omega (arith, clean.fits h n w)) in
          cc (rw (fine, waited, granted) at failed)
    ]

    limited_read-clean :
        (h : H) (len : ℕ) (w : W) (e : E)
        → (limited_read empty_buffer lim src h len w).0.failure ≡ some (other e)
        → count (limited_read empty_buffer lim src h len w).0.bytes ≡ 0
    unfolding limited_read
    limited_read-clean h len w e failed = elim (Bool-cases (len == 0)) [
      | inl nothing ↦ rw nothing refl
      | inr something ↦
          rw (something, waited-bytes (src.read h (min lim.burst len) w).0)
            (waited-clean h (min lim.burst len) w e (omega arith) (rw something at failed))
    ]

    read-clean :
        (len : ℕ) (y : YRestartReader W H) (e : E)
        → (read empty_buffer lim src len y).0.failure ≡ some (other e)
        → count (read empty_buffer lim src len y).0.bytes ≡ 0
    unfolding read with_world
    read-clean len y e failed = elim (Option-cases y.underlying) [
      | inl nothing ↦ cc (rw (nothing, read) at failed)
      | inr ((h, limited), has) ↦ rw (has, read) (stream h limited (rw (has, read) at failed))
    ]
      where
        stream :
            (h : H) (limited : Bool)
            → (if limited
                then limited_read empty_buffer lim src h len y.world
                else src.read h len y.world).0.failure
              ≡ some (other e)
            → count
                (if limited
                  then limited_read empty_buffer lim src h len y.world
                  else src.read h len y.world).0.bytes
              ≡ 0
        stream h true k = limited_read-clean h len y.world e k
        stream h false k = clean.clean h len y.world e k

    pub restart_reader-FailsClean : FailsClean (restart_reader empty_buffer lim src) obj At
    unfolding restart_reader
    restart_reader-FailsClean = record { clean = λ len y e failed. read-clean len y e failed }
