-- ===== src/Proc/Garbage/Done.antt =====
-- DeleteGarbageInBucket of pkg/proc/delete_handler.go, where it returns no error.
use yproxy.Base.{◌≡◌, true, List, inl, inr, Bool-cases, arith}
use yproxy.Bytes.{Bytes}
use yproxy.Message.ObjectMeta.{ObjectInfo}
use yproxy.Message.Delete.{DeleteMessage}
use yproxy.Proc.Effect.{ok, Keeps, bind-ok}
use yproxy.Proc.Garbage.Mgr.{BasicGarbageMgr, clamp}
use yproxy.Proc.Garbage.Batch.{}
use yproxy.Proc.Garbage.Rounds.{IsFair}
use yproxy.Proc.Garbage.Handlers.{
  list_garbage_files, operate, remove_garbage, delete_confirmed, delete_listed,
  delete_garbage_in_bucket,
}
use yproxy.Proc.Garbage.Select.{In}
use yproxy.Proc.Garbage.Tracked.{Brings, remove_files-done}

module _ {W : Type 0} (dh : BasicGarbageMgr W) (f : ObjectInfo) (Q : W → Type 0) where
  remove_garbage-done :
      (bucket : Bytes) (msg : DeleteMessage) (fair : IsFair dh)
      (brings : Brings f Q (operate dh bucket msg))
      (aborts : (b k u : Bytes) → Keeps Q (dh.storage.abort_multipart_upload b k u))
      (uploads : List (Bytes × Bytes)) (files : List ObjectInfo) (w : W) (a : Unit)
      → In f files
      → (remove_garbage dh bucket msg uploads files w).0 ≡ ok a
      → Q (remove_garbage dh bucket msg uploads files w).1
  remove_garbage-done bucket msg fair brings aborts uploads files w a here h =
      elim (Bool-cases msg.crazy_drop) [
        | inl e ↦ rw e (
            remove_files-done dh f Q fair _ (rw e at brings) (clamp dh.cnf.trash_delete_workers) 1
              (omega arith) "failed to delete some files" aborts "failed to delete some files"
              bucket uploads files w a here (rw e at h))
        | inr e ↦ rw e (
            remove_files-done dh f Q fair _ (rw e at brings) (clamp dh.cnf.trash_move_workers) 1
              (omega arith) "failed to move some files" aborts "failed to move some files" bucket
              uploads files w a here (rw e at h))
      ]

  delete_confirmed-done :
      (bucket : Bytes) (msg : DeleteMessage) (fair : IsFair dh)
      (brings : Brings f Q (operate dh bucket msg))
      (aborts : (b k u : Bytes) → Keeps Q (dh.storage.abort_multipart_upload b k u))
      → msg.confirm ≡ true
      → (uploads : List (Bytes × Bytes)) (files : List ObjectInfo) (w : W) (a : Unit) → In f files
      → (delete_confirmed dh bucket msg files uploads w).0 ≡ ok a
      → Q (delete_confirmed dh bucket msg files uploads w).1
  delete_confirmed-done bucket msg fair brings aborts confirmed uploads files w a here h =
      rw confirmed (
        remove_garbage-done bucket msg fair brings aborts uploads files w a here
          (rw confirmed at h))

  delete_listed-done :
      (bucket : Bytes) (msg : DeleteMessage) (fair : IsFair dh)
      (brings : Brings f Q (operate dh bucket msg))
      (aborts : (b k u : Bytes) → Keeps Q (dh.storage.abort_multipart_upload b k u))
      → msg.confirm ≡ true
      → (files : List ObjectInfo) (w : W) (a : Unit) → In f files
      → (delete_listed dh bucket msg files w).0 ≡ ok a
      → Q (delete_listed dh bucket msg files w).1
  delete_listed-done bucket msg fair brings aborts confirmed files w a here h =
      let list = dh.storage.list_failed_multipart_uploads bucket in
      let (uploads, e, h') = bind-ok list (delete_confirmed dh bucket msg files) w a h in
      rw e (
        delete_confirmed-done bucket msg fair brings aborts confirmed uploads files (list w).1 a
          here h')

  -- If a confirmed garbage collection of a bucket returns no error, then the operation on each
  -- file that it found to be garbage has succeeded: `Q` holds, which the operation brings about and
  -- no other operation undoes. The workers take each file of a batch once.
  pub delete_garbage_in_bucket-done :
      (bucket : Bytes) (msg : DeleteMessage) (w : W) (files : List ObjectInfo) (a : Unit)
      → IsFair dh
      → Brings f Q (operate dh bucket msg)
      → ((b k u : Bytes) → Keeps Q (dh.storage.abort_multipart_upload b k u))
      → msg.confirm ≡ true
      → (list_garbage_files dh bucket msg w).0 ≡ ok files
      → In f files
      → (delete_garbage_in_bucket dh bucket msg w).0 ≡ ok a
      → Q (delete_garbage_in_bucket dh bucket msg w).1
  unfolding delete_garbage_in_bucket
  delete_garbage_in_bucket-done bucket msg w files a fair brings aborts confirmed listed here h =
      rw listed (
        delete_listed-done bucket msg fair brings aborts confirmed files
          (list_garbage_files dh bucket msg w).1 a here (rw listed at h))
