-- ===== src/Proc/Garbage/Batch.antt =====
-- garbageFilesParallel of pkg/proc/delete_handler.go, the ten rounds of retries around it, and
-- what follows them.
use Prim.Native.String.{String}
use yproxy.Base.{ℕ, zero, suc, Option, none, some, List, [], ◌∷◌, min, ◌==◌, if◌then◌else◌, length}
use yproxy.Bytes.{Bytes}
use yproxy.Message.ObjectMeta.{ObjectInfo}
use yproxy.Proc.Effect.{M, Result, ok, err, pure, raise, ◌>>◌}
use yproxy.Proc.Garbage.Mgr.{BasicGarbageMgr, Error, text, wrap}

-- What a batch operation does to one file.
abbrev pub Operate : Type 0 → Type 0
Operate W = ObjectInfo → M W Error Unit

abbrev pub keep_failed : Result Error Unit → ObjectInfo → List ObjectInfo → List ObjectInfo
keep_failed (ok a) f failed = failed
keep_failed (err e) f failed = f ∷ failed

module _ {W : Type 0} where
  -- The workers take the files in order; those on which the operation fails are collected.
  unfoldable pub work : Operate W → List ObjectInfo → W → List ObjectInfo × W
  work operate [] w = ([], w)
  work operate (f ∷ files) w =
      let (r, w') = operate f w in
      let (failed, w'') = work operate files w' in (keep_failed r f failed, w'')

abbrev pub worker_count : ℕ → ℕ → List ObjectInfo → ℕ
worker_count workers default_workers files =
    min (if workers == 0 then default_workers else workers) (length files)

-- The failed files, and the error if there are any.
abbrev pub failure_of : String → List ObjectInfo → Option Error
failure_of action [] = none
failure_of action (f ∷ failed) = some (text action)

module _ {W : Type 0} (dh : BasicGarbageMgr W) where
  -- The number of workers is read as 0 where it is not positive.
  unfoldable pub garbage_files_parallel :
      List ObjectInfo → ℕ → ℕ → Operate W → String → W → (List ObjectInfo × Option Error) × W
  unfolding work
  garbage_files_parallel files workers default_workers operate action w =
      let (failed, w') = work operate (dh.schedule w files) w in
      if worker_count workers default_workers files == 0
      then (([], none), w)
      else ((failed, failure_of action failed), w')

  -- for retryCount := 0; len(fileList) > 0 && retryCount < 10; retryCount++
  unfoldable pub retries :
      ℕ
      → List ObjectInfo
      → Option Error
      → ℕ
      → ℕ
      → Operate W
      → String
      → W
      → (List ObjectInfo × Option Error) × W
  retries zero files e workers default_workers operate action w = ((files, e), w)
  retries (suc n) [] e workers default_workers operate action w = (([], e), w)
  retries (suc n) (f ∷ files) e workers default_workers operate action w =
      let ((left, e'), w') =
        garbage_files_parallel (f ∷ files) workers default_workers operate action w in
      retries n left e' workers default_workers operate action w'

  -- errors.Wrap(nil, ...) is nil.
  abbrev pub wrap_last : Option Error → String → M W Error Unit
  wrap_last none t = pure tt
  wrap_last (some e) t = raise (wrap e t)

  unfoldable pub abort_uploads : Bytes → List (Bytes × Bytes) → M W Error Unit
  abort_uploads bucket [] = pure tt
  abort_uploads bucket ((key, upload_id) ∷ uploads) =
      dh.storage.abort_multipart_upload bucket key upload_id >> abort_uploads bucket uploads

  unfoldable pub after_retries :
      (List ObjectInfo × Option Error) × W
      → String
      → Bytes
      → List (Bytes × Bytes)
      → Result Error Unit × W
  after_retries (([], e), w) failed bucket uploads = abort_uploads bucket uploads w
  after_retries ((f ∷ left, e), w) failed bucket uploads = wrap_last e failed w

  -- What DeleteGarbageInBucket and DeletePrefixInBucket do behind their confirmations.
  unfoldable pub remove_files :
      ℕ
      → ℕ
      → Operate W
      → String
      → String
      → Bytes
      → List (Bytes × Bytes)
      → List ObjectInfo
      → M W Error Unit
  unfolding retries after_retries abort_uploads
  remove_files workers default_workers operate action failed bucket uploads files w =
      after_retries (retries 10 files none workers default_workers operate action w) failed bucket
        uploads
