-- ===== src/Proc/Garbage/Everywhere.antt =====
-- HandleDeleteFile of pkg/proc/delete_handler.go, over all buckets.
use Prim.Native.String.{String}
use yproxy.Base.{◌≡◌, refl, sym, subst, true, List, [], ◌∷◌, ◌⊎◌, inl, inr}
use yproxy.Bytes.{Bytes}
use yproxy.Message.Delete.{DeleteMessage}
use yproxy.Proc.Effect.{M, Result, ok, err, Keeps, Keeps-bind, bind-ok}
use yproxy.Proc.Garbage.Mgr.{BasicGarbageMgr, Error, wrapped, wrap_result}
use yproxy.Proc.Garbage.Handlers.{for_buckets, handle_delete_file}
use yproxy.Proc.Garbage.Safety.{wrapped-Keeps}

abbrev pub InBuckets : Bytes → List Bytes → Type 0
InBuckets b [] = ⊥
InBuckets b (c ∷ buckets) = (c ≡ b) ⊎ InBuckets b buckets

-- The step on the bucket `b` brings `Q` about, and the step on no bucket undoes it.
pub record BringsAt {W : Type 0} (b : Bytes) (Q : W → Type 0) (step : Bytes → M W Error Unit)
    : Type 0 where
  pub does : (w : W) (a : Unit) → (step b w).0 ≡ ok a → Q (step b w).1
  pub lasts : (c : Bytes) → Keeps Q (step c)

wrap_result-does :
    {W : Type 0} (Q : W → Type 0) (r : Result Error Unit × W) (t : String) (a : Unit)
    → ((a' : Unit) → r.0 ≡ ok a' → Q r.1)
    → (wrap_result r t).0 ≡ ok a
    → Q (wrap_result r t).1
wrap_result-does Q (ok a', w) t a h e = h a' refl
wrap_result-does Q (err x, w) t a h e = cc

module _ {W : Type 0} (dh : BasicGarbageMgr W) (b : Bytes) (Q : W → Type 0) where
  module _ (step : Bytes → M W Error Unit) (brings : BringsAt b Q step) where
    for_buckets-Keeps : (buckets : List Bytes) → Keeps Q (for_buckets dh step buckets)
    unfolding for_buckets
    for_buckets-Keeps [] w q = q
    for_buckets-Keeps (c ∷ buckets) w q =
        Keeps-bind Q (step c) (λ _. for_buckets dh step buckets) (brings.lasts c)
          (λ _ _ _. for_buckets-Keeps buckets) w q

    for_buckets-done :
        (buckets : List Bytes) (w : W) (a : Unit)
        → InBuckets b buckets
        → (for_buckets dh step buckets w).0 ≡ ok a
        → Q (for_buckets dh step buckets w).1
    unfolding for_buckets
    for_buckets-done [] w a h e = absurd h
    for_buckets-done (c ∷ buckets) w a h e =
        let (a', first, rest) = bind-ok (step c) (λ _. for_buckets dh step buckets) w a e in
        elim h [
          | inl same ↦ rw first (
              for_buckets-Keeps buckets (step c w).1 (
                subst (λ d. (step d w).0 ≡ ok a' → Q (step d w).1) (sym same) (brings.does w a')
                  first))
          | inr later ↦ rw first (for_buckets-done buckets (step c w).1 a later rest)
        ]

  -- If a confirmed request to delete a file returns no error, then the file was deleted in each
  -- of the storage's buckets: `Q` holds, which deleting it in that bucket brings about and
  -- deleting it in any bucket does not undo.
  pub handle_delete_file-done :
      (msg : DeleteMessage) (w : W) (a : Unit)
      → BringsAt b Q (λ c. dh.storage.delete_object c msg.name)
      → msg.confirm ≡ true
      → InBuckets b dh.storage.list_buckets
      → (handle_delete_file dh msg w).0 ≡ ok a
      → Q (handle_delete_file dh msg w).1
  unfolding handle_delete_file
  handle_delete_file-done msg w a brings confirmed here h =
      let delete = λ (c : Bytes). dh.storage.delete_object c msg.name in
      rw confirmed (
        for_buckets-done (λ c. wrapped "failed to delete file" (delete c))
          (record {
            does = λ w' a' e.
                wrap_result-does Q (delete b w') "failed to delete file" a' (brings.does w') e;
            lasts = λ c. wrapped-Keeps Q "failed to delete file" (delete c) (brings.lasts c);
          })
          dh.storage.list_buckets w a here (rw confirmed at h))
