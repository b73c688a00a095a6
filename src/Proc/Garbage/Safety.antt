-- ===== src/Proc/Garbage/Safety.antt =====
-- What is kept by the steps that DeleteGarbageInBucket of pkg/proc/delete_handler.go is made of.
use Prim.Native.String.{String}
use yproxy.Base.{ℕ, ◌≡◌, Bool, true, List, [], ◌∷◌, inl, inr, All, Bool-cases}
use yproxy.Bytes.{Bytes}
use yproxy.Message.ObjectMeta.{ObjectInfo}
use yproxy.Message.Delete.{DeleteMessage}
use yproxy.Proc.Effect.{M, Result, ok, err, Keeps, Keeps-bind}
use yproxy.Proc.Garbage.Mgr.{BasicGarbageMgr, Error, now, wrap_result, wrapped, clamp}
use yproxy.Proc.Garbage.Rounds.{IsFair, remove_files-Keeps}
use yproxy.Proc.Garbage.Handlers.{
  filter, first_backup_lsn, list_garbage_files, list_since, list_and_look_up, look_up,
  select_garbage, delete_confirmed, delete_listed, operate, remove_garbage,
  delete_garbage_in_bucket, for_buckets,
}

-- Reading the clock, the listings and the indexes does not change `P`, and neither does aborting
-- an upload that has failed.
pub record ReadsKeep {W : Type 0} (dh : BasicGarbageMgr W) (P : W → Type 0) : Type 0 where
  pub clock : (w : W) → P w → P (dh.clock w).1
  pub first_lsn : (n : ℕ) → Keeps P (dh.get_first_lsn n)
  pub indexes : (n : ℕ) → Keeps P (dh.get_virtual_expire_indexes n)
  pub listing : (b p : Bytes) → Keeps P (dh.storage.list_bucket_path b p)
  pub uploads : (b : Bytes) → Keeps P (dh.storage.list_failed_multipart_uploads b)

wrap_result-Keeps :
    {W A : Type 0} (P : W → Type 0) (r : Result Error A × W) (t : String)
    → P r.1
    → P (wrap_result r t).1
wrap_result-Keeps P (ok a, w) t p = p
wrap_result-Keeps P (err e, w) t p = p

pub wrapped-Keeps :
    {W A : Type 0} (P : W → Type 0) (t : String) (m : M W Error A)
    → Keeps P m
    → Keeps P (wrapped t m)
wrapped-Keeps P t m h w p = wrap_result-Keeps P (m w) t (h w p)

pub wrap_result-ok :
    {W A : Type 0} (r : Result Error A × W) (t : String) (a : A)
    → (wrap_result r t).0 ≡ ok a
    → r.0 ≡ ok a
wrap_result-ok (ok b, w) t a h = h
wrap_result-ok (err e, w) t a h = cc

pub filter-All : {A : Type 0} (p : A → Bool) (xs : List A) → All (λ x. p x ≡ true) (filter p xs)
unfolding filter
filter-All p [] = tt
filter-All p (x ∷ xs) = elim (Bool-cases (p x)) [
  | inl e ↦ rw e (e, filter-All p xs)
  | inr e ↦ rw e (filter-All p xs)
]

pub All-map :
    {A : Type 0} {P Q : A → Type 0} (f : (a : A) → P a → Q a) (xs : List A) → All P xs → All Q xs
All-map f [] h = tt
All-map f (x ∷ xs) h = (f x h.0, All-map f xs h.1)

module _ {W : Type 0} (dh : BasicGarbageMgr W) (P : W → Type 0) (reads : ReadsKeep dh P) where
  first_backup_lsn-Keeps : (msg : DeleteMessage) → Keeps P (first_backup_lsn dh msg)
  first_backup_lsn-Keeps msg w p = elim (Bool-cases dh.cnf.check_backup) [
    | inl e ↦ rw e (reads.first_lsn msg.segnum w p)
    | inr e ↦ rw e p
  ]

  list_garbage_files-Keeps :
      (bucket : Bytes) (msg : DeleteMessage) → Keeps P (list_garbage_files dh bucket msg)
  unfolding list_garbage_files
  list_garbage_files-Keeps bucket msg =
      let objects = dh.storage.list_bucket_path bucket msg.name in
      let ix = dh.get_virtual_expire_indexes msg.port in
      Keeps-bind P (now dh) (list_since dh bucket msg) (λ w p. reads.clock w p)
        λ _ start _.
          Keeps-bind P (first_backup_lsn dh msg) (list_and_look_up dh bucket msg start)
            (first_backup_lsn-Keeps msg)
            λ _ first_lsn _.
              Keeps-bind P (wrapped "could not list objects" objects)
                (look_up dh msg start first_lsn)
                (wrapped-Keeps P "could not list objects" objects (reads.listing bucket msg.name))
                λ _ files _.
                  Keeps-bind P (wrapped "could not get virtual and expire indexes" ix)
                    (select_garbage dh msg start first_lsn files)
                    (wrapped-Keeps P "could not get virtual and expire indexes" ix
                      (reads.indexes msg.port))
                    λ _ _ _ w p. p

  pub for_buckets-Keeps :
      (f : Bytes → M W Error Unit) (buckets : List Bytes)
      → ((b : Bytes) → Keeps P (f b))
      → Keeps P (for_buckets dh f buckets)
  unfolding for_buckets
  for_buckets-Keeps f [] h w p = p
  for_buckets-Keeps f (b ∷ buckets) h w p =
      Keeps-bind P (f b) (λ _. for_buckets dh f buckets) (h b)
        (λ _ _ _. for_buckets-Keeps f buckets h) w p

  pub remove_garbage-Keeps :
      (fair : IsFair dh)
      (aborts : (b k u : Bytes) → Keeps P (dh.storage.abort_multipart_upload b k u))
      (bucket : Bytes) (msg : DeleteMessage) (uploads : List (Bytes × Bytes))
      (files : List ObjectInfo)
      → All (λ f. Keeps P (operate dh bucket msg f)) files
      → Keeps P (remove_garbage dh bucket msg uploads files)
  remove_garbage-Keeps fair aborts bucket msg uploads files h w p =
      elim (Bool-cases msg.crazy_drop) [
        | inl e ↦ rw e (
            remove_files-Keeps dh P fair aborts (clamp dh.cnf.trash_delete_workers) 1 _
              "failed to delete some files" "failed to delete some files" bucket uploads files
              (rw e at h) w p)
        | inr e ↦ rw e (
            remove_files-Keeps dh P fair aborts (clamp dh.cnf.trash_move_workers) 1 _
              "failed to move some files" "failed to move some files" bucket uploads files
              (rw e at h) w p)
      ]

  -- The whole handling of a bucket keeps what the removal of garbage keeps, and that is reached
  -- only with a confirmation.
  pub delete_garbage_in_bucket-Keeps :
      (bucket : Bytes) (msg : DeleteMessage)
      → ((w : W) (files : List ObjectInfo) (uploads : List (Bytes × Bytes))
          → (list_garbage_files dh bucket msg w).0 ≡ ok files
          → msg.confirm ≡ true
          → Keeps P (remove_garbage dh bucket msg uploads files))
      → Keeps P (delete_garbage_in_bucket dh bucket msg)
  unfolding delete_garbage_in_bucket
  delete_garbage_in_bucket-Keeps bucket msg h =
      let files = list_garbage_files dh bucket msg in
      Keeps-bind P (wrapped "failed to delete file" files) (delete_listed dh bucket msg)
        (wrapped-Keeps P "failed to delete file" files (list_garbage_files-Keeps bucket msg))
        λ w listed e.
          Keeps-bind P (dh.storage.list_failed_multipart_uploads bucket)
            (delete_confirmed dh bucket msg listed) (reads.uploads bucket)
            λ _ uploads _ w' p. elim (Bool-cases msg.confirm) [
              | inr e' ↦ rw e' p
              | inl e' ↦ rw e' (
                  h w listed uploads (wrap_result-ok (files w) "failed to delete file" listed e) e'
                    w' p)
            ]
