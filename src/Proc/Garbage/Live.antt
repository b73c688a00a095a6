-- ===== src/Proc/Garbage/Live.antt =====
-- What HandleDeleteGarbage of pkg/proc/delete_handler.go keeps.
use yproxy.Base.{
  [], ◌∷◌, Bool, ◌≡◌, ◌≢◌, subst, true, false, List, ◌⊎◌, inl, inr, All, Bool-cases, arith, ℕ,
}
use yproxy.Bytes.{Bytes}
use yproxy.Message.ObjectMeta.{ObjectInfo}
use yproxy.Message.Delete.{DeleteMessage}
use yproxy.Proc.Effect.{ok, Keeps}
use yproxy.Proc.Garbage.Mgr.{BasicGarbageMgr, Indexes, Vacuum}
use yproxy.Proc.Garbage.Rounds.{IsFair}
use yproxy.Proc.Garbage.Paths.{trash_path_from_reg_path}
use yproxy.Proc.Garbage.Handlers.{
  is_garbage, needed_since, filter, first_backup_lsn, list_garbage_files, delete_garbage_in_bucket,
  handle_delete_garbage,
}
use yproxy.Proc.Garbage.Select.{list_garbage_files_ok}
use yproxy.Proc.Garbage.Safety.{
  ReadsKeep, All-map, for_buckets-Keeps, remove_garbage-Keeps, delete_garbage_in_bucket-Keeps,
}

-- What the storage promises of `Holds bucket path`, that an object is at the path, where `key path`
-- is the key that the storage makes of it: only deleting or moving away a path with the same key
-- may end it.
pub record OnlyRemoves {W : Type 0} (dh : BasicGarbageMgr W) (key : Bytes → Bytes)
    (Holds : Bytes → Bytes → W → Type 0) : Type 0 where
  pub reads : (b p : Bytes) → ReadsKeep dh (Holds b p)
  pub aborts : (b p b' k u : Bytes) → Keeps (Holds b p) (dh.storage.abort_multipart_upload b' k u)
  pub deletes :
      (b p b' p' : Bytes) → key p' ≢ key p → Keeps (Holds b p) (dh.storage.delete_object b' p')
  pub moves :
      (b p b' p' q : Bytes) → key p' ≢ key p → Keeps (Holds b p) (dh.storage.move_object b' p' q)

-- Each path that a listing gives and that has the key of `p` is a good one.
abbrev pub EachListed :
    {W : Type 0} → BasicGarbageMgr W → (Bytes → Bytes) → Bytes → (Bytes → Type 0) → Type 0
EachListed {W} dh key p Good =
    (b prefix : Bytes) (w : W) (objects : List ObjectInfo)
    → (dh.storage.list_bucket_path b prefix w).0 ≡ ok objects
    → All (λ f. key f.path ≡ key p → Good f.path) objects

-- Whatever the database and the backups answer, the path is in the virtual index, or in the
-- expire index with an LSN that the first backup needs.
abbrev pub Live : {W : Type 0} → BasicGarbageMgr W → DeleteMessage → Bytes → Type 0
Live {W} dh msg p =
    (w : W) (ix : Indexes)
    → (dh.get_virtual_expire_indexes msg.port w).0 ≡ ok ix
    → (ix.vi p ≡ true)
      ⊎ ((w' : W) (first_lsn : ℕ)
          → (first_backup_lsn dh msg w').0 ≡ ok first_lsn
          → needed_since (ix.ei p) first_lsn ≡ true)

is_garbage-vi :
    (cnf : Vacuum) (start first_lsn : ℕ) (ix : Indexes) (f : ObjectInfo)
    → is_garbage cnf start first_lsn ix f ≡ true
    → (ix.vi f.path ≡ false) × (needed_since (ix.ei f.path) first_lsn ≡ false)
unfolding is_garbage
is_garbage-vi cnf start first_lsn ix f h = grind arith

-- What holds of all objects holds of those that are selected, with the test.
All-filter :
    (P : ObjectInfo → Type 0) (test : ObjectInfo → Bool) (fs : List ObjectInfo)
    → All P fs
    → All (λ f. (test f ≡ true) × P f) (filter test fs)
unfolding filter
All-filter P test [] h = tt
All-filter P test (f ∷ fs) h = elim (Bool-cases (test f)) [
  | inl e ↦ rw e ((e, h.0), All-filter P test fs h.1)
  | inr e ↦ rw e (All-filter P test fs h.1)
]

module _ {W : Type 0} (dh : BasicGarbageMgr W) (key : Bytes → Bytes) where
  list_garbage_files-spares :
      (bucket p : Bytes) (msg : DeleteMessage) (w : W) (files : List ObjectInfo)
      → EachListed dh key p (Live dh msg)
      → (list_garbage_files dh bucket msg w).0 ≡ ok files
      → All (λ f. key f.path ≢ key p) files
  list_garbage_files-spares bucket p msg w files live h =
      let seen = list_garbage_files_ok dh bucket msg w files h in
      let test = is_garbage dh.cnf (dh.clock w).0 seen.first_lsn seen.ix in
      subst (λ fs. All (λ f. key f.path ≢ key p) fs) seen.selected
        (All-map
          (λ f (garbage, same_key) here.
            let (unseen, unneeded) =
              is_garbage-vi dh.cnf (dh.clock w).0 seen.first_lsn seen.ix f garbage in
            elim (same_key here seen.at_indexes seen.ix seen.indexes) [
              | inl used ↦ cc
              | inr needed ↦ cc (needed seen.at_lsn seen.first_lsn seen.lsn)
            ])
          (filter test seen.objects)
          (All-filter (λ f. key f.path ≡ key p → Live dh msg f.path) test seen.objects
            (live bucket msg.name seen.at_objects seen.objects seen.listed)))

  -- Whatever a garbage collection does, and however it ends, there is still an object at a path if
  -- each listed path with the same key is of a file that a table uses or a backup needs, the
  -- storage removes nothing but what is at the key of the path that it is told to remove, and the
  -- workers take each file of a batch once.
  pub handle_delete_garbage-Holds :
      (Holds : Bytes → Bytes → W → Type 0) (msg : DeleteMessage) (bucket p : Bytes)
      → IsFair dh
      → OnlyRemoves dh key Holds
      → EachListed dh key p (Live dh msg)
      → Keeps (Holds bucket p) (handle_delete_garbage dh msg)
  unfolding handle_delete_garbage
  handle_delete_garbage-Holds Holds msg bucket p fair store live =
      let reads = store.reads bucket p in
      for_buckets-Keeps dh (Holds bucket p) reads (λ b. delete_garbage_in_bucket dh b msg)
        dh.storage.list_buckets
        λ b.
          delete_garbage_in_bucket-Keeps dh (Holds bucket p) reads b msg λ w files uploads listed _.
            remove_garbage-Keeps dh (Holds bucket p) reads fair (store.aborts bucket p) b msg
              uploads files
              (All-map
                (λ f away. elim (Bool-cases msg.crazy_drop) [
                  | inl e ↦ rw e (store.deletes bucket p b f.path away)
                  | inr e ↦ rw e (
                      store.moves bucket p b f.path (trash_path_from_reg_path f.path msg.segnum)
                        away)
                ])
                files (list_garbage_files-spares b p msg w files live listed))

module _ {W : Type 0} (dh : BasicGarbageMgr W) where
  -- Without a confirmation a garbage collection keeps whatever the reading of the clock, the
  -- listings and the indexes keeps: it deletes, moves and aborts nothing.
  pub handle_delete_garbage-Keeps_unconfirmed :
      (P : W → Type 0) (msg : DeleteMessage)
      → ReadsKeep dh P
      → msg.confirm ≡ false
      → Keeps P (handle_delete_garbage dh msg)
  unfolding handle_delete_garbage
  handle_delete_garbage-Keeps_unconfirmed P msg reads dry =
      for_buckets-Keeps dh P reads (λ b. delete_garbage_in_bucket dh b msg) dh.storage.list_buckets
        λ b. delete_garbage_in_bucket-Keeps dh P reads b msg λ _ _ _ _ confirmed. absurd cc
