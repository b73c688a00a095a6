-- ===== src/Proc/Copy/Workers.antt =====
-- The goroutines of ProcessCopyExtended of pkg/proc/interaction.go: what one of them does for an
-- object, and how those of a round run beside each other. They share the variable `err`.
pub mod Complete
pub mod Lost
use yproxy.Base.{
  ℕ, suc, ◌<◌, ◌≡◌, Bool, true, false, ◌||◌, Option, none, some, List, [], ◌∷◌, ◌++◌, if◌then◌else◌,
  length,
}
use yproxy.Bytes.{Bytes}
use yproxy.Message.ObjectMeta.{ObjectInfo}
use yproxy.Proc.Copy.{trim_prefix}

-- What the copy of an object calls. The readers over the old storage and the two crypters go by
-- whole streams: what they deliver, and the error that they end with.
pub record CopyServices (W E : Type 0) : Type 0 where
  -- CopyObject from a path of the source to the same path in the default bucket
  pub copy_object : Bytes → W → Option E × W
  -- What the retrying reader delivers of an object of the old storage
  pub read_old_bucket : Bytes → W → (Option E × Bytes) × W
  -- NewCrypto and Decrypt: no reader, or what it delivers
  pub decrypt : Option E × Bytes → Option (Option E × Bytes)
  -- Encrypt: no writer, or the error of its Close and what it has written by then
  pub encrypt : Option (Bytes → Option E × Bytes)
  pub put_file_to_dest : Bytes → Bytes → W → Option E × W
  -- StoragePrefix of the source
  pub storage_prefix : Bytes

-- What came of it: the storage copied the object; there was no decrypter; or PutFileToDest
-- returned, after the inner goroutine noted a failure or none.
pub data Attempt (E : Type 0) : Type 0 where
  copied_there : Attempt E
  no_reader : Attempt E
  put : Bool → Option E → Attempt E

pub record Modes : Type 0 where
  pub ss_copy : Bool
  pub encrypt : Bool
  pub decrypt : Bool

abbrev pub is_some : {E : Type 0} → Option E → Bool
is_some none = false
is_some (some e) = true

module _ {W E : Type 0} (sv : CopyServices W E) (modes : Modes) where
  -- What the inner goroutine writes to the pipe before it closes it, and whether it notes a
  -- failure: that of Encrypt, of io.Copy or of Close.
  piped : Option E × Bytes → Bool × Bytes
  piped (failure, read) =
      if modes.encrypt
      then elim sv.encrypt [
        | none ↦ (true, [])
        | some c ↦
            (let (closing, written) = c read in (is_some failure || is_some closing, written))
      ]
      else (is_some failure, read)

  -- PutFileToDest reads the pipe up to its end.
  put_piped : Bytes → Bool × Bytes → W → Attempt E × W
  put_piped path (noted, stream) w =
      let (e, w') = sv.put_file_to_dest path stream w in (put noted e, w')

  copy_through : Bytes → W → Attempt E × W
  unfolding piped put_piped
  copy_through path w =
      let (r, w') = sv.read_old_bucket path w in
      if modes.decrypt
      then elim (sv.decrypt r) [
        | none ↦ (no_reader, w')
        | some plain ↦ put_piped path (piped plain) w'
      ]
      else put_piped path (piped r) w'

  unless_copied : Bytes → Option E × W → Attempt E × W
  unfolding copy_through
  unless_copied path (none, w) = (copied_there, w)
  unless_copied path (some e, w) = copy_through path w

  unfoldable pub attempt : ObjectInfo → W → Attempt E × W
  unfolding unless_copied
  attempt o w =
      let path = trim_prefix o.path sv.storage_prefix in
      if modes.ss_copy then unless_copied path (sv.copy_object path w) else copy_through path w

-- One object is taken out of the list.
pub data Pick {A : Type 0} : A → List A → List A → Type 0 where
  here : (x : A) (xs : List A) → Pick x (x ∷ xs) xs
  there : (x y : A) (xs ys : List A) → Pick x xs ys → Pick x (y ∷ xs) (y ∷ ys)

-- `checking` are the objects whose goroutines have assigned to `err` and not yet looked at it.
pub record Round (W E : Type 0) : Type 0 where
  pub world : W
  pub err : Option E
  pub failed : List ObjectInfo
  pub waiting : List ObjectInfo
  pub checking : List ObjectInfo

unfoldable pub after :
    {W E : Type 0} → Attempt E × W → ObjectInfo → List ObjectInfo → Round W E → Round W E
after (copied_there, w) o rest r = record r { world = w; waiting = rest }
after (no_reader, w) o rest r = record r {
  world = w;
  waiting = rest;
  failed = r.failed ++ (o ∷ []);
}
after (put noted e, w) o rest r = record r {
  world = w;
  waiting = rest;
  err = e;
  checking = o ∷ r.checking;
  failed = if noted then r.failed ++ (o ∷ []) else r.failed;
}

unfoldable pub checked : {W E : Type 0} → ObjectInfo → List ObjectInfo → Round W E → Round W E
checked o rest r = record r {
  checking = rest;
  failed = if is_some r.err then r.failed ++ (o ∷ []) else r.failed;
}

-- No more goroutines than the semaphore has permits are between the two points.
pub data Step {W E : Type 0} (sv : CopyServices W E) (modes : Modes) (limit : ℕ)
    : Round W E → Round W E → Type 0 where
  run :
      (r : Round W E) (o : ObjectInfo) (rest : List ObjectInfo)
      → Pick o r.waiting rest
      → length r.checking < limit
      → Step sv modes limit r (after (attempt sv modes o r.world) o rest r)
  check :
      (r : Round W E) (o : ObjectInfo) (rest : List ObjectInfo)
      → Pick o r.checking rest
      → Step sv modes limit r (checked o rest r)

pub data Reach {W E : Type 0} (sv : CopyServices W E) (modes : Modes) (limit : ℕ) (s : Round W E)
    : Round W E → Type 0 where
  start : Reach sv modes limit s s
  step :
      (r t : Round W E)
      → Reach sv modes limit s r
      → Step sv modes limit r t
      → Reach sv modes limit s t

abbrev pub new_round : {W E : Type 0} → List ObjectInfo → Option E → W → Round W E
new_round objects e w = record { world = w; err = e; failed = []; waiting = objects; checking = [] }

-- The loop of at most `left` rounds, and the objects that are left at its end.
pub data Rounds {W E : Type 0} (sv : CopyServices W E) (modes : Modes) (limit : ℕ)
    : ℕ → List ObjectInfo → Option E → W → List ObjectInfo → W → Type 0 where
  none_left : (left : ℕ) (e : Option E) (w : W) → Rounds sv modes limit left [] e w [] w
  given_up :
      (objects : List ObjectInfo) (e : Option E) (w : W)
      → Rounds sv modes limit 0 objects e w objects w
  again :
      (left : ℕ) (o : ObjectInfo) (objects failed : List ObjectInfo) (e : Option E) (w w' : W)
      (r : Round W E)
      → Reach sv modes limit (new_round (o ∷ objects) e w) r
      → r.waiting ≡ []
      → r.checking ≡ []
      → Rounds sv modes limit left r.failed r.err r.world failed w'
      → Rounds sv modes limit (suc left) (o ∷ objects) e w failed w'
