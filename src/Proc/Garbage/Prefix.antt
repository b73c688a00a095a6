-- ===== src/Proc/Garbage/Prefix.antt =====
-- What HandleDelete2Prefix of pkg/proc/delete_handler.go keeps.
use yproxy.Base.{◌≡◌, true, false, ◌&&◌, List, [], ◌∷◌, inl, inr, All, Bool-cases}
use yproxy.Bytes.{Bytes}
use yproxy.Message.ObjectMeta.{ObjectInfo}
use yproxy.Message.Delete2.{Delete2Message}
use yproxy.Proc.Effect.{ok, Keeps, Keeps-bind}
use yproxy.Proc.Garbage.Mgr.{BasicGarbageMgr, wrapped, clamp}
use yproxy.Proc.Garbage.Rounds.{IsFair, remove_files-Keeps}
use yproxy.Proc.Garbage.Handlers.{
  contains, trash_word, filter_expired, expired, list_delete2_files, remove_expired,
  delete_expired_confirmed, delete_listed_prefix, delete_prefix_in_bucket, handle_delete2_prefix,
}
use yproxy.Proc.Garbage.Safety.{
  ReadsKeep, wrap_result-ok, wrapped-Keeps, All-map, for_buckets-Keeps,
}
use yproxy.Proc.Garbage.Live.{OnlyRemoves, EachListed}

module _ {W : Type 0} (dh : BasicGarbageMgr W) where
  filter_expired-All :
      (P : ObjectInfo → Type 0) (files : List ObjectInfo) (w : W)
      → All P files
      → All (λ f. (contains f.path trash_word ≡ true) × P f) (filter_expired dh files w).0
  unfolding filter_expired
  filter_expired-All P [] w h = tt
  filter_expired-All P (f ∷ files) w h = elim (Bool-cases (contains f.path trash_word)) [
    | inr e ↦ rw e (filter_expired-All P files w h.1)
    | inl e ↦
        let rest = filter_expired-All P files (dh.clock w).1 h.1 in
        elim (Bool-cases (expired dh.cnf.trash_retention_days f.last_mod (dh.clock w).0)) [
          | inr e' ↦ rw (e, e') rest
          | inl e' ↦ rw (e, e') ((e, h.0), rest)
        ]
  ]

  module _ (P : W → Type 0) (reads : ReadsKeep dh P) where
    filter_expired-Keeps : (files : List ObjectInfo) (w : W) → P w → P (filter_expired dh files w).1
    unfolding filter_expired
    filter_expired-Keeps [] w p = p
    filter_expired-Keeps (f ∷ files) w p = elim (Bool-cases (contains f.path trash_word)) [
      | inr e ↦ rw e (filter_expired-Keeps files w p)
      | inl e ↦ rw e (filter_expired-Keeps files (dh.clock w).1 (reads.clock w p))
    ]

    delete_prefix_in_bucket-Keeps :
        (bucket : Bytes) (msg : Delete2Message)
        → ((files : List ObjectInfo) (uploads : List (Bytes × Bytes)) (w : W)
            → (dh.storage.list_bucket_path bucket msg.prefix w).0 ≡ ok files
            → (msg.confirm && contains msg.prefix trash_word) ≡ true
            → Keeps P (remove_expired dh bucket uploads files))
        → Keeps P (delete_prefix_in_bucket dh bucket msg)
    unfolding delete_prefix_in_bucket list_delete2_files
    delete_prefix_in_bucket-Keeps bucket msg h =
        let listing = dh.storage.list_bucket_path bucket msg.prefix in
        Keeps-bind P (wrapped "failed to delete file" (list_delete2_files dh bucket msg))
          (delete_listed_prefix dh bucket msg)
          (wrapped-Keeps P "failed to delete file" (list_delete2_files dh bucket msg)
            (wrapped-Keeps P "could not list objects" listing (reads.listing bucket msg.prefix)))
          λ w' files listed.
            let inner =
              wrap_result-ok (list_delete2_files dh bucket msg w') "failed to delete file" files
                listed in
            let objects = wrap_result-ok (listing w') "could not list objects" files inner in
            Keeps-bind P (dh.storage.list_failed_multipart_uploads bucket)
              (delete_expired_confirmed dh bucket msg files) (reads.uploads bucket)
              λ _ uploads _ w p. elim (Bool-cases (msg.confirm && contains msg.prefix trash_word)) [
                | inr e ↦ rw e p
                | inl e ↦ rw e (h files uploads w' objects e w p)
              ]

  -- Deleting by prefix leaves an object at a path, whatever the prefix, if no listed path with the
  -- same key has "trash" in it, the storage removes nothing but what is at the key of the path that
  -- it is told to remove, and the workers take each file of a batch once.
  pub handle_delete2_prefix-Holds :
      (key : Bytes → Bytes) (Holds : Bytes → Bytes → W → Type 0) (msg : Delete2Message)
      (bucket p : Bytes)
      → IsFair dh
      → OnlyRemoves dh key Holds
      → EachListed dh key p (λ q. contains q trash_word ≡ false)
      → Keeps (Holds bucket p) (handle_delete2_prefix dh msg)
  unfolding handle_delete2_prefix
  handle_delete2_prefix-Holds key Holds msg bucket p fair store outside =
      let reads = store.reads bucket p in
      let P = Holds bucket p in
      for_buckets-Keeps dh P reads (λ b. delete_prefix_in_bucket dh b msg) dh.storage.list_buckets
        λ b. delete_prefix_in_bucket-Keeps P reads b msg λ files uploads w₀ listed _ w h.
          let kept = filter_expired-Keeps P reads files w h in
          let (chosen, w') = filter_expired dh files w in
          remove_files-Keeps dh P fair (store.aborts bucket p) (clamp dh.cnf.trash_delete_workers) 1
            (λ f. dh.storage.delete_object b f.path) "failed to delete garbage file"
            "failed to delete some files" b uploads chosen
            (All-map (λ f (inside, good). store.deletes bucket p b f.path λ e. cc (good e)) chosen
              (filter_expired-All _ files w (outside b msg.prefix w₀ files listed)))
            w' kept

  -- Deleting by prefix keeps whatever the reading of the clock and the listings keeps, if the
  -- request is not confirmed or its prefix does not have "trash" in it.
  pub handle_delete2_prefix-Keeps_refused :
      (P : W → Type 0) (msg : Delete2Message)
      → ReadsKeep dh P
      → (msg.confirm && contains msg.prefix trash_word) ≡ false
      → Keeps P (handle_delete2_prefix dh msg)
  unfolding handle_delete2_prefix
  handle_delete2_prefix-Keeps_refused P msg reads refused =
      for_buckets-Keeps dh P reads (λ b. delete_prefix_in_bucket dh b msg) dh.storage.list_buckets
        λ b. delete_prefix_in_bucket-Keeps P reads b msg λ _ _ _ _ e. absurd cc
