-- ===== src/Proc/Garbage/Tracked.antt =====
-- What becomes of one file in the rounds of retries of DeleteGarbageInBucket.
use Prim.Native.String.{String}
use mathlib.Core.List.Permᴰ.{Permᴰ, nil, cons, swap, trans}
use yproxy.Base.{
  ℕ, zero, suc, ◌<◌, ◌≡◌, refl, sym, ◌∙◌, subst, false, Option, none, some, List, [], ◌∷◌, ◌⊎◌, inl,
  inr, ◌==◌, Bool-cases, arith,
}
use yproxy.Bytes.{Bytes}
use yproxy.Message.ObjectMeta.{ObjectInfo}
use yproxy.Proc.Effect.{Result, ok, err, Keeps}
use yproxy.Proc.Garbage.Mgr.{BasicGarbageMgr, Error}
use yproxy.Proc.Garbage.Batch.{
  Operate, keep_failed, work, worker_count, failure_of, garbage_files_parallel, retries,
  after_retries, remove_files,
}
use yproxy.Proc.Garbage.Rounds.{IsFair, abort_uploads-Keeps}
use yproxy.Proc.Garbage.Handlers.{operate}
use yproxy.Proc.Garbage.Select.{In}

In-Perm : (f : ObjectInfo) {xs ys : List ObjectInfo} → Permᴰ xs ys → In f xs → In f ys
In-Perm f nil h = h
In-Perm f (cons e p) (inl h) = inl (sym e ∙ h)
In-Perm f (cons e p) (inr h) = inr (In-Perm f p h)
In-Perm f (swap e e') (inl h) = inr (inl (sym e ∙ h))
In-Perm f (swap e e') (inr (inl h)) = inl (sym e' ∙ h)
In-Perm f (swap e e') (inr (inr h)) = inr (inr h)
In-Perm f (trans p q) h = In-Perm f q (In-Perm f p h)

module _ {W : Type 0} (f : ObjectInfo) (Q : W → Type 0) where
  -- What the operation on the file brings about, and what no operation undoes.
  pub record Brings (operate : Operate W) : Type 0 where
    pub does : (w : W) (a : Unit) → (operate f w).0 ≡ ok a → Q (operate f w).1
    pub lasts : (g : ObjectInfo) → Keeps Q (operate g)

  -- The file was dealt with, or is still in the list.
  abbrev Tracked : List ObjectInfo → W → Type 0
  Tracked files w = Q w ⊎ In f files

  keep_failed-In :
      (r : Result Error Unit) (g : ObjectInfo) (failed : List ObjectInfo)
      → In f failed
      → In f (keep_failed r g failed)
  keep_failed-In (ok a) g failed h = h
  keep_failed-In (err e) g failed h = inr h

  work-Keeps :
      (operate : Operate W)
      → Brings operate
      → (files : List ObjectInfo) (w : W) → Q w
      → Q (work operate files w).1
  unfolding work
  work-Keeps operate b [] w q = q
  work-Keeps operate b (g ∷ files) w q = work-Keeps operate b files (operate g w).1 (b.lasts g w q)

  work_head :
      (operate : Operate W) (b : Brings operate) (files : List ObjectInfo) (w : W)
      (r : Result Error Unit)
      → (operate f w).0 ≡ r
      → Tracked
          (keep_failed r f (work operate files (operate f w).1).0)
          (work operate files (operate f w).1).1
  work_head operate b files w (ok a) e =
      inl (work-Keeps operate b files (operate f w).1 (b.does w a e))
  work_head operate b files w (err x) e = inr (inl refl)

  work-Tracked :
      (operate : Operate W) (b : Brings operate) (files : List ObjectInfo) (w : W)
      → In f files
      → Tracked (work operate files w).0 (work operate files w).1
  unfolding work
  work-Tracked operate b [] w h = absurd h
  work-Tracked operate b (g ∷ files) w (inl e) =
      subst
        (λ g.
          Tracked (keep_failed (operate g w).0 g (work operate files (operate g w).1).0)
            (work operate files (operate g w).1).1)
        (sym e) (work_head operate b files w (operate f w).0 refl)
  work-Tracked operate b (g ∷ files) w (inr h) =
      elim (work-Tracked operate b files (operate g w).1 h) [
        | inl q ↦ inl q
        | inr left ↦ inr (keep_failed-In (operate g w).0 g _ left)
      ]

-- Files that are left come with an error.
abbrev Told : List ObjectInfo → Option Error → Type 0
Told [] e = Unit
Told (g ∷ left) none = ⊥
Told (g ∷ left) (some e) = Unit

failure_of-Told :
    (action : String) (failed : List ObjectInfo) → Told failed (failure_of action failed)
failure_of-Told action [] = tt
failure_of-Told action (g ∷ failed) = tt

some_worker :
    (n m : ℕ) (g : ObjectInfo) (files : List ObjectInfo)
    → 0 < m
    → (worker_count n m (g ∷ files) == 0) ≡ false
some_worker n m g files h = ground arith

module _ {W : Type 0} (dh : BasicGarbageMgr W) where
  batch-Told :
      (files : List ObjectInfo) (n m : ℕ) (operate : Operate W) (action : String) (w : W)
      → Told
          (garbage_files_parallel dh files n m operate action w).0.0
          (garbage_files_parallel dh files n m operate action w).0.1
  unfolding garbage_files_parallel
  batch-Told files n m operate action w = elim (Bool-cases (worker_count n m files == 0)) [
    | inl e ↦ rw e tt
    | inr e ↦ rw e (failure_of-Told action (work operate (dh.schedule w files) w).0)
  ]

  retries-Told :
      (k : ℕ) (files : List ObjectInfo) (e : Option Error) (n m : ℕ) (operate : Operate W)
      (action : String) (w : W)
      → Told files e
      → Told
          (retries dh k files e n m operate action w).0.0
          (retries dh k files e n m operate action w).0.1
  unfolding retries
  retries-Told zero files e n m operate action w h = h
  retries-Told (suc k) [] e n m operate action w h = tt
  retries-Told (suc k) (g ∷ files) e n m operate action w h =
      let ((left, e'), w') = garbage_files_parallel dh (g ∷ files) n m operate action w in
      retries-Told k left e' n m operate action w' (batch-Told (g ∷ files) n m operate action w)

  retries_10-Told :
      (files : List ObjectInfo) (n m : ℕ) (operate : Operate W) (action : String) (w : W)
      → Told
          (retries dh 10 files none n m operate action w).0.0
          (retries dh 10 files none n m operate action w).0.1
  unfolding retries
  retries_10-Told [] n m operate action w = tt
  retries_10-Told (g ∷ files) n m operate action w =
      let ((left, e'), w') = garbage_files_parallel dh (g ∷ files) n m operate action w in
      retries-Told 9 left e' n m operate action w' (batch-Told (g ∷ files) n m operate action w)

module _ {W : Type 0} (dh : BasicGarbageMgr W) (f : ObjectInfo) (Q : W → Type 0) (fair : IsFair dh)
    (op : Operate W) (b : Brings f Q op) (n m : ℕ) (some_default : 0 < m) (action : String) where
  batch-Tracked :
      (g : ObjectInfo) (files : List ObjectInfo) (w : W)
      → Tracked f Q (g ∷ files) w
      → Tracked f Q
          (garbage_files_parallel dh (g ∷ files) n m op action w).0.0
          (garbage_files_parallel dh (g ∷ files) n m op action w).1
  unfolding garbage_files_parallel
  batch-Tracked g files w (inl q) =
      rw (some_worker n m g files some_default)
        (inl (work-Keeps f Q op b (dh.schedule w (g ∷ files)) w q))
  batch-Tracked g files w (inr h) =
      rw (some_worker n m g files some_default)
        (work-Tracked f Q op b (dh.schedule w (g ∷ files)) w (In-Perm f (fair w (g ∷ files)) h))

  retries-Tracked :
      (k : ℕ) (files : List ObjectInfo) (e : Option Error) (w : W)
      → Tracked f Q files w
      → Tracked f Q
          (retries dh k files e n m op action w).0.0
          (retries dh k files e n m op action w).1
  unfolding retries
  retries-Tracked zero files e w h = h
  retries-Tracked (suc k) [] e w h = h
  retries-Tracked (suc k) (g ∷ files) e w h =
      let ((left, e'), w') = garbage_files_parallel dh (g ∷ files) n m op action w in
      retries-Tracked k left e' w' (batch-Tracked g files w h)

  module _ (aborts : (b k u : Bytes) → Keeps Q (dh.storage.abort_multipart_upload b k u))
      (failed : String) (bucket : Bytes) (uploads : List (Bytes × Bytes)) where
    after_retries-done :
        (left : List ObjectInfo) (e : Option Error) (w : W) (a : Unit)
        → Told left e
        → Tracked f Q left w
        → (after_retries dh ((left, e), w) failed bucket uploads).0 ≡ ok a
        → Q (after_retries dh ((left, e), w) failed bucket uploads).1
    unfolding after_retries
    after_retries-done [] e w a told (inl q) h =
        abort_uploads-Keeps dh Q fair aborts bucket uploads w q
    after_retries-done [] e w a told (inr h') h = absurd h'
    after_retries-done (g ∷ left) none w a told t h = absurd told
    after_retries-done (g ∷ left) (some e) w a told t h = cc

    pub remove_files-done :
        (files : List ObjectInfo) (w : W) (a : Unit)
        → In f files
        → (remove_files dh n m op action failed bucket uploads files w).0 ≡ ok a
        → Q (remove_files dh n m op action failed bucket uploads files w).1
    unfolding remove_files
    remove_files-done files w a h e =
        let ((left, e'), w') = retries dh 10 files none n m op action w in
        after_retries-done left e' w' a (retries_10-Told dh files n m op action w)
          (retries-Tracked 10 files none w (inr h)) e
