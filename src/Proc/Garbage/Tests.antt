-- ===== src/Proc/Garbage/Tests.antt =====
-- The garbage manager on small examples.
use yproxy.Base.{List, All, ◌≡◌, ◌↔◌, refl, subst, true, false, [], ◌∷◌, ◌++◌, inl}
use yproxy.Bytes.{Bytes}
use yproxy.Message.ObjectMeta.{ObjectInfo}
use yproxy.Proc.Effect.{Result, ok, err}
use yproxy.Proc.Garbage.Mgr.{Error, Indexes}
use yproxy.Proc.Garbage.Paths.{
  join_name, segments, decimal, trash_path_from_reg_path, reg_path_from_trash_path,
  reg_path_from_trash_path-trash_path_from_reg_path,
}
use yproxy.Proc.Garbage.Handlers.{
  list_garbage_files, delete_garbage_in_bucket, handle_delete_garbage, handle_delete2_prefix,
  operate, contains, trash_word, filter, is_garbage,
}
use yproxy.Proc.Garbage.Batch.{
  remove_files, garbage_files_parallel, retries, after_retries, work, abort_uploads,
}
use yproxy.Proc.Garbage.Select.{In, IsGarbage, Seen, list_garbage_files_iff}
use yproxy.Proc.Garbage.Live.{
  Live, handle_delete_garbage-Holds, handle_delete_garbage-Keeps_unconfirmed,
}
use yproxy.Proc.Garbage.Prefix.{handle_delete2_prefix-Holds}
use yproxy.Proc.Garbage.Tracked.{Brings}
use yproxy.Proc.Garbage.Done.{delete_garbage_in_bucket-done}
use yproxy.Proc.Garbage.Bucket.{
  used, unused, dead, stored, bucket, mgr, request, At, mgr-IsFair, mgr_reads, mgr_store,
  remove_absent, remove_gone,
}

used-Live : (q : Bytes) → q ≡ used → Live mgr request q
used-Live q same w ix h = inl (
    subst (λ (o : Result Error Indexes). elim o [ ok i ↦ i.vi q ≡ true | err e ↦ Unit ]) h
      (rw same refl))

All-every : {A : Type 0} {P : A → Type 0} → ((a : A) → P a) → (xs : List A) → All P xs
All-every h [] = tt
All-every h (x ∷ xs) = (h x, All-every h xs)

handle_delete_garbage-Holds_example : At used (handle_delete_garbage mgr request stored).1
handle_delete_garbage-Holds_example =
    handle_delete_garbage-Holds mgr (λ q. q) (λ b. At) request bucket used mgr-IsFair mgr_store
      (λ b prefix w objects _. All-every (λ f. used-Live f.path) objects) stored (inl refl)

handle_delete_garbage-Keeps_unconfirmed_example :
    (handle_delete_garbage mgr (record request { confirm = false }) stored).1 ≡ stored
handle_delete_garbage-Keeps_unconfirmed_example =
    handle_delete_garbage-Keeps_unconfirmed mgr (λ w. w ≡ stored)
      (record request { confirm = false }) (mgr_reads (λ w. w ≡ stored)) refl stored refl

handle_delete2_prefix-Holds_example :
    At used
      (handle_delete2_prefix mgr
        (record { prefix = trash_word; confirm = true; garbage = true })
        stored).1
unfolding contains
handle_delete2_prefix-Holds_example =
    handle_delete2_prefix-Holds mgr (λ q. q) (λ b. At)
      (record { prefix = trash_word; confirm = true; garbage = true }) bucket used mgr-IsFair
      mgr_store (λ b prefix w objects _. All-every (λ f same. rw same refl) objects) stored
      (inl refl)

garbage_listed : (list_garbage_files mgr bucket request stored).0 ≡ ok (dead ∷ [])
unfolding list_garbage_files filter is_garbage
garbage_listed = refl

list_garbage_files_iff_example :
    (seen : Seen mgr bucket request stored (dead ∷ [])) × ((f : ObjectInfo)
      → In f (dead ∷ []) ↔ (In f seen.objects × IsGarbage mgr.cnf 100 seen.first_lsn seen.ix f))
list_garbage_files_iff_example =
    list_garbage_files_iff mgr bucket request stored (dead ∷ []) garbage_listed

dead-Brings : Brings dead (λ w. At unused w → ⊥) (operate mgr bucket request)
dead-Brings = record {
  does = λ w a h. remove_gone unused w;
  lasts = λ g w h. remove_absent unused g.path w h;
}

delete_garbage_in_bucket-done_example :
    ¬ At unused (delete_garbage_in_bucket mgr bucket request stored).1
unfolding delete_garbage_in_bucket list_garbage_files filter is_garbage remove_files
    garbage_files_parallel retries after_retries work abort_uploads
delete_garbage_in_bucket-done_example =
    delete_garbage_in_bucket-done mgr dead (λ w. At unused w → ⊥) bucket request stored (dead ∷ [])
      tt mgr-IsFair dead-Brings (λ b k u w h. h) refl garbage_listed (inl refl) refl

-- "base"
abbrev file_name : Bytes
file_name = 98 ∷ 97 ∷ 115 ∷ 101 ∷ []

reg_path_from_trash_path-trash_path_from_reg_path_example :
    reg_path_from_trash_path
      (trash_path_from_reg_path (join_name (segments ++ decimal 12) file_name) 12)
      12
    ≡ join_name (segments ++ decimal 12) file_name
reg_path_from_trash_path-trash_path_from_reg_path_example =
    reg_path_from_trash_path-trash_path_from_reg_path file_name 12
      (record { no_slash = refl; not_up = refl; not_here = refl })
