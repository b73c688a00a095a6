-- ===== src/Proc/Garbage/Rounds.antt =====
-- What the rounds of retries of DeleteGarbageInBucket keep.
use Prim.Native.String.{String}
use mathlib.Core.List.Permᴰ.{Permᴰ, nil, cons, swap, trans}
use yproxy.Base.{
  ℕ, zero, suc, subst, Option, none, some, List, [], ◌∷◌, inl, inr, All, ◌==◌, Bool-cases,
}
use yproxy.Bytes.{Bytes}
use yproxy.Message.ObjectMeta.{ObjectInfo}
use yproxy.Proc.Effect.{Result, ok, err, Keeps, Keeps-bind}
use yproxy.Proc.Garbage.Mgr.{BasicGarbageMgr, Error}
use yproxy.Proc.Garbage.Batch.{
  Operate, keep_failed, work, worker_count, garbage_files_parallel, retries, wrap_last,
  abort_uploads, after_retries, remove_files,
}

-- The workers take every file of a batch once, in any order.
abbrev pub IsFair : {W : Type 0} → BasicGarbageMgr W → Type 0
IsFair {W} dh = (w : W) (files : List ObjectInfo) → Permᴰ files (dh.schedule w files)

All-Perm : {A : Type 0} (Q : A → Type 0) {xs ys : List A} → Permᴰ xs ys → All Q xs → All Q ys
All-Perm Q nil h = tt
All-Perm Q (cons e p) h = (subst Q e h.0, All-Perm Q p h.1)
All-Perm Q (swap e f) h = (subst Q f h.1.0, (subst Q e h.0, h.1.1))
All-Perm Q (trans p q) h = All-Perm Q q (All-Perm Q p h)

module _ {W : Type 0} (P : W → Type 0) where
  -- Each of the files can be operated on without `P` being lost.
  abbrev pub Spares : Operate W → List ObjectInfo → Type 0
  Spares operate = All (λ f. Keeps P (operate f))

  keep_failed-All :
      (Q : ObjectInfo → Type 0) (r : Result Error Unit) (f : ObjectInfo) (failed : List ObjectInfo)
      → Q f
      → All Q failed
      → All Q (keep_failed r f failed)
  keep_failed-All Q (ok a) f failed q h = h
  keep_failed-All Q (err e) f failed q h = (q, h)

  work-All :
      (Q : ObjectInfo → Type 0) (operate : Operate W) (files : List ObjectInfo) (w : W)
      → All Q files
      → All Q (work operate files w).0
  unfolding work
  work-All Q operate [] w h = tt
  work-All Q operate (f ∷ files) w h =
      keep_failed-All Q (operate f w).0 f _ h.0 (work-All Q operate files (operate f w).1 h.1)

  work-Keeps :
      (operate : Operate W) (files : List ObjectInfo) (w : W)
      → Spares operate files
      → P w
      → P (work operate files w).1
  unfolding work
  work-Keeps operate [] w h p = p
  work-Keeps operate (f ∷ files) w h p = work-Keeps operate files (operate f w).1 h.1 (h.0 w p)

module _ {W : Type 0} (dh : BasicGarbageMgr W) (P : W → Type 0) (fair : IsFair dh) where
  batch-Keeps :
      (files : List ObjectInfo) (n m : ℕ) (operate : Operate W) (action : String) (w : W)
      → Spares P operate files
      → P w
      → P (garbage_files_parallel dh files n m operate action w).1
        × Spares P operate (garbage_files_parallel dh files n m operate action w).0.0
  unfolding garbage_files_parallel
  batch-Keeps files n m operate action w h p =
      let h' = All-Perm (λ f. Keeps P (operate f)) (fair w files) h in
      let kept = work-Keeps P operate (dh.schedule w files) w h' p in
      let left = work-All P (λ f. Keeps P (operate f)) operate (dh.schedule w files) w h' in
      elim (Bool-cases (worker_count n m files == 0)) [
        | inl e ↦ rw e (p, tt)
        | inr e ↦ rw e (kept, left)
      ]

  retries-Keeps :
      (k : ℕ) (files : List ObjectInfo) (e : Option Error) (n m : ℕ) (operate : Operate W)
      (action : String) (w : W)
      → Spares P operate files
      → P w
      → P (retries dh k files e n m operate action w).1
  unfolding retries
  retries-Keeps zero files e n m operate action w h p = p
  retries-Keeps (suc k) [] e n m operate action w h p = p
  retries-Keeps (suc k) (f ∷ files) e n m operate action w h p =
      let ((left, e'), w') = garbage_files_parallel dh (f ∷ files) n m operate action w in
      let kept = batch-Keeps (f ∷ files) n m operate action w h p in
      retries-Keeps k left e' n m operate action w' kept.1 kept.0

  module _ (aborts : (b k u : Bytes) → Keeps P (dh.storage.abort_multipart_upload b k u)) where
    pub abort_uploads-Keeps :
        (bucket : Bytes) (uploads : List (Bytes × Bytes))
        → Keeps P (abort_uploads dh bucket uploads)
    unfolding abort_uploads
    abort_uploads-Keeps bucket [] w p = p
    abort_uploads-Keeps bucket ((k, u) ∷ uploads) w p =
        Keeps-bind P (dh.storage.abort_multipart_upload bucket k u)
          (λ _. abort_uploads dh bucket uploads) (aborts bucket k u)
          (λ w' a e. abort_uploads-Keeps bucket uploads) w p

    wrap_last-Keeps : (e : Option Error) (t : String) → Keeps P (wrap_last dh e t)
    wrap_last-Keeps none t w p = p
    wrap_last-Keeps (some e) t w p = p

    after_retries-Keeps :
        (o : (List ObjectInfo × Option Error) × W) (failed : String) (bucket : Bytes)
        (uploads : List (Bytes × Bytes))
        → P o.1
        → P (after_retries dh o failed bucket uploads).1
    unfolding after_retries
    after_retries-Keeps (([], e), w) failed bucket uploads p =
        abort_uploads-Keeps bucket uploads w p
    after_retries-Keeps ((f ∷ left, e), w) failed bucket uploads p = wrap_last-Keeps e failed w p

    -- What each operation on the files keeps, and each abort, the whole removal keeps.
    pub remove_files-Keeps :
        (n m : ℕ) (operate : Operate W) (action failed : String) (bucket : Bytes)
        (uploads : List (Bytes × Bytes)) (files : List ObjectInfo)
        → Spares P operate files
        → Keeps P (remove_files dh n m operate action failed bucket uploads files)
    unfolding remove_files
    remove_files-Keeps n m operate action failed bucket uploads files h w p =
        after_retries-Keeps (retries dh 10 files none n m operate action w) failed bucket uploads
          (retries-Keeps 10 files none n m operate action w h p)
