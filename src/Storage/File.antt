-- ===== src/Storage/File.antt =====
-- FileStorageInteractor of pkg/storage/filestorage.go, over the calls of the operating system that
-- it makes. An open file goes by its path, and a stream by what it delivers and the error that it
-- ends with.
pub mod Stored
pub mod Listed
pub mod Copying
mod Tests
use yproxy.Base.{
  ℕ, Option, none, some, List, [], ◌∷◌, ◌++◌, ◌==◌, if◌then◌else◌, leb, drop, length, map,
}
use yproxy.Bytes.{Bytes, eqb}
use yproxy.Message.ObjectMeta.{ObjectInfo}
use yproxy.Proc.Effect.{M, Result, ok, err, pure, raise, ◌>>=◌, ◌>>◌}
use yproxy.Proc.Garbage.Mgr.{Error, text}
use yproxy.Proc.Garbage.Handlers.{has_prefix}
use yproxy.Proc.Garbage.Paths.{slash}
use yproxy.Storage.Names.{join, clean, cut_prefix}
use yproxy.Storage.Settings.{StorageConfig}
use yproxy.Storage.S3.Put.{Stream}

-- What the walk calls back with: an error, a directory, or a file with what opening it and asking
-- for its size and its time gives.
pub data Visit : Type 0 where
  walk_failed : Error → Visit
  directory : Bytes → Visit
  file : Bytes → Result Error (ℕ × ℕ) → Visit

pub record System (W : Type 0) : Type 0 where
  -- os.Open, and what reading the file gives
  pub open_file : Bytes → M W Error Stream
  -- os.OpenFile that creates and only writes, and what reading such a file gives
  pub open_write_only : Bytes → M W Error Stream
  pub mkdir_all : Bytes → M W Error Unit
  -- os.Create
  pub create : Bytes → M W Error Unit
  -- Write to a file that was created, and to one that was opened for reading
  pub write : Bytes → Bytes → M W Error Unit
  pub write_read_only : Bytes → Bytes → M W Error Unit
  pub rename : Bytes → Bytes → M W Error Unit
  pub remove : Bytes → M W Error Unit
  -- filepath.WalkDir below a path
  pub walk : Bytes → W → List Visit × W

-- A path up to its last slash, with it
unfoldable pub up_to_slash : Bytes → Bytes
up_to_slash [] = []
up_to_slash (c ∷ p) =
    let rest = up_to_slash p in
    elim rest [ [] ↦ (if c == slash then c ∷ [] else []) | (d ∷ r) ↦ c ∷ (d ∷ r) ]

-- path.Dir
abbrev pub dir : Bytes → Bytes
dir p = clean (up_to_slash p)

-- io.Copy to the writer of `put`, which is called for what was read, if it was anything
unfoldable pub copy_stream : {W : Type 0} → (Bytes → M W Error Unit) → Stream → M W Error Unit
copy_stream put r = do
  _ ← (elim r.bytes [ [] ↦ pure tt | (c ∷ s) ↦ put (c ∷ s) ])
  (elim r.failure [ none ↦ pure tt | some e ↦ raise e ])

abbrev pub cut_slash : Bytes → Bytes
cut_slash [] = []
cut_slash (c ∷ p) = if c == slash then p else c ∷ p

abbrev pub needed_prefix : StorageConfig → Bytes → Bytes
needed_prefix cnf prefix = cnf.storage_prefix ++ cut_slash prefix

-- The object of a file, if it is one of those that are asked for
unfoldable pub object_of : StorageConfig → Bytes → Bytes → ℕ × ℕ → List ObjectInfo
object_of cnf prefix p (size, mod_time) =
    if has_prefix p (needed_prefix cnf prefix)
    then elim (cut_prefix p cnf.storage_prefix) [
      | none ↦ []
      | some rest ↦ record { path = slash ∷ rest; size = size; last_mod = mod_time } ∷ []
    ]
    else []

-- The callback of the walk, which ends with the first error; what was found is returned with it.
unfoldable pub visited : StorageConfig → Bytes → List Visit → List ObjectInfo × Option Error
unfolding object_of
visited cnf prefix [] = ([], none)
visited cnf prefix (walk_failed e ∷ visits) = ([], some e)
visited cnf prefix (directory p ∷ visits) = visited cnf prefix visits
visited cnf prefix (file p (err e) ∷ visits) = ([], some e)
visited cnf prefix (file p (ok info) ∷ visits) =
    let (objects, failure) = visited cnf prefix visits in
    (object_of cnf prefix p info ++ objects, failure)

-- io.CopyN to nowhere: the rest of the stream
skipped_to : ℕ → Stream → Result Error Stream
skipped_to offset r =
    if leb offset (length r.bytes)
    then ok (record { bytes = drop offset r.bytes; failure = r.failure })
    else elim r.failure [ none ↦ err (text "EOF") | some e ↦ err e ]

module _ {W : Type 0} (os : System W) (cnf : StorageConfig) where
  abbrev pub file_path : Bytes → Bytes
  file_path name = join cnf.storage_prefix name

  abbrev pub list_buckets : List Bytes
  list_buckets = cnf.storage_bucket ∷ map (λ c. c.0) cnf.credential_map

  abbrev pub default_bucket : Bytes
  default_bucket = cnf.storage_bucket

  of_result : Result Error Stream → M W Error Stream
  of_result r w = (r, w)

  -- The file is returned together with an error of the skipping; `offset` is not negative.
  unfoldable pub cat_file_from_storage : Bytes → ℕ → M W Error Stream
  unfolding skipped_to of_result
  cat_file_from_storage name offset = do
    r ← os.open_file (file_path name)
    of_result (skipped_to offset r)

  unfoldable pub list_path : Bytes → W → (List ObjectInfo × Option Error) × W
  unfolding visited
  list_path prefix w =
      let (visits, w') = os.walk cnf.storage_prefix w in (visited cnf prefix visits, w')

  abbrev pub list_bucket_path : Bytes → Bytes → W → (List ObjectInfo × Option Error) × W
  list_bucket_path bucket prefix w = list_path prefix w

  unfoldable pub put_file_to_dest : Bytes → Stream → M W Error Unit
  unfolding copy_stream
  put_file_to_dest name r = do
    _ ← os.mkdir_all (dir (file_path name))
    _ ← os.create (file_path name)
    copy_stream (os.write (file_path name)) r

  abbrev pub patch_file : Bytes → Bytes → ℕ → M W Error Unit
  patch_file name body start_offset = raise (text "TODO")

  unfoldable pub move_object : Bytes → Bytes → Bytes → M W Error Unit
  move_object bucket from to =
      if eqb (file_path from) (file_path to)
      then pure tt
      else (do _ ← os.mkdir_all (dir (file_path to)); os.rename (file_path from) (file_path to))

  -- CopyObject, whose io.Copy has the source as its destination
  unfoldable pub copy_object : Bytes → Bytes → Bytes → M W Error Unit
  unfolding copy_stream
  copy_object from to from_storage_prefix = do
    _ ← os.mkdir_all (dir (file_path to))
    _ ← os.open_file (join from_storage_prefix from)
    to_file ← os.open_write_only (file_path to)
    copy_stream (os.write_read_only (join from_storage_prefix from)) to_file

  abbrev pub delete_object : Bytes → Bytes → M W Error Unit
  delete_object bucket key = os.remove (file_path key)

  abbrev pub abort_multipart_upload : Bytes → Bytes → Bytes → M W Error Unit
  abort_multipart_upload bucket key upload_id = pure tt

  abbrev pub list_failed_multipart_uploads : Bytes → M W Error (List (Bytes × Bytes))
  list_failed_multipart_uploads bucket = pure []
