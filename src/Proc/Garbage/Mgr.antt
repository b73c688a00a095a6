-- ===== src/Proc/Garbage/Mgr.antt =====
-- What BasicGarbageMgr is made of: the storage, the database, the backups, the clock and the
-- scheduler, which are parameters, and its configuration, from config/vacuum.go. `W` is the state
-- of all that is outside the program.
use Prim.Native.String.{String}
use yproxy.Base.{ℕ, Bool, Option, List}
use yproxy.Bytes.{Bytes}
use yproxy.Message.ObjectMeta.{ObjectInfo}
use yproxy.Proc.Effect.{M, Result, ok, err}

-- An error, with the texts that errors.Wrap puts around it.
pub data Error : Type 0 where
  text : String → Error
  wrap : Error → String → Error

-- An int of the configuration.
pub data ℤ : Type 0 where
  pos : ℕ → ℤ
  negsuc : ℕ → ℤ

-- A negative number counts as 0.
abbrev pub clamp : ℤ → ℕ
clamp (pos n) = n
clamp (negsuc n) = 0

pub record Vacuum : Type 0 where
  pub check_backup : Bool
  pub file_chunk_per_sec : ℤ
  pub trash_retention_days : ℤ
  pub trash_move_workers : ℤ
  pub trash_delete_workers : ℤ
  -- in nanoseconds
  pub protection_window : ℤ

abbrev pub default_trash_move_workers : ℕ
default_trash_move_workers = 1

abbrev pub default_trash_delete_workers : ℕ
default_trash_delete_workers = 1

-- The maps that GetVirtualExpireIndexes returns, as lookups.
pub record Indexes : Type 0 where
  pub vi : Bytes → Bool
  pub ei : Bytes → Option ℕ

-- The methods of storage.StorageInteractor that the garbage manager calls; both listings may use
-- the cache, and ListPath has no settings.
pub record StorageInteractor (W : Type 0) : Type 0 where
  pub list_buckets : List Bytes
  pub default_bucket : Bytes
  pub list_path : Bytes → M W Error (List ObjectInfo)
  pub list_bucket_path : Bytes → Bytes → M W Error (List ObjectInfo)
  -- the entries of the map from keys to upload ids, in the order in which they are ranged over
  pub list_failed_multipart_uploads : Bytes → M W Error (List (Bytes × Bytes))
  pub move_object : Bytes → Bytes → Bytes → M W Error Unit
  pub delete_object : Bytes → Bytes → M W Error Unit
  pub abort_multipart_upload : Bytes → Bytes → Bytes → M W Error Unit

pub record BasicGarbageMgr (W : Type 0) : Type 0 where
  pub get_first_lsn : ℕ → M W Error ℕ
  pub get_virtual_expire_indexes : ℕ → M W Error Indexes
  pub storage : StorageInteractor W
  pub cnf : Vacuum
  -- time.Now(), in nanoseconds of the Unix time
  pub clock : W → ℕ × W
  -- The order in which the workers carry out the operations of a batch, each at once.
  pub schedule : W → List ObjectInfo → List ObjectInfo

abbrev pub now : {W : Type 0} → BasicGarbageMgr W → M W Error ℕ
now dh w = let (t, w') = dh.clock w in (ok t, w')

-- errors.Wrap of the error of an operation
abbrev pub wrap_result : {W A : Type 0} → Result Error A × W → String → Result Error A × W
wrap_result (ok a, w) t = (ok a, w)
wrap_result (err e, w) t = (err (wrap e t), w)

abbrev pub wrapped : {W A : Type 0} → String → M W Error A → M W Error A
wrapped t m w = wrap_result (m w) t
