-- ===== src/Proc/Garbage/Handlers.antt =====
-- The methods of BasicGarbageMgr.
use yproxy.Base.{
  ℕ, suc, ◌+◌, ◌-◌, ◌*◌, ◌/◌, ◌^◌, Bool, true, false, not, ◌&&◌, ◌||◌, Option, none, some, List, [],
  ◌∷◌, ltb, leb, ◌==◌, if◌then◌else◌,
}
use yproxy.Bytes.{Bytes}
use yproxy.Message.ObjectMeta.{ObjectInfo}
use yproxy.Message.Delete.{DeleteMessage}
use yproxy.Message.Delete2.{Delete2Message}
use yproxy.Message.Untrashify.{UntrashifyMessage}
use yproxy.Proc.Effect.{M, pure, ◌>>=◌, ◌>>◌}
use yproxy.Proc.Garbage.Mgr.{
  BasicGarbageMgr, Error, Indexes, Vacuum, ℤ, pos, negsuc, clamp, now, wrapped,
  default_trash_move_workers, default_trash_delete_workers,
}
use yproxy.Proc.Garbage.Paths.{trash_path_from_reg_path, reg_path_from_trash_path}
use yproxy.Proc.Garbage.Batch.{remove_files}

unfoldable pub filter : {A : Type 0} → (A → Bool) → List A → List A
filter p [] = []
filter p (x ∷ xs) = let rest = filter p xs in if p x then x ∷ rest else rest

-- The file is in the expire index with an LSN that the first backup still needs.
abbrev pub needed_since : Option ℕ → ℕ → Bool
needed_since none first_lsn = false
needed_since (some lsn) first_lsn = leb first_lsn lsn

-- The loop body of ListGarbageFiles: whether a listed file is to be deleted.
unfoldable pub is_garbage : Vacuum → ℕ → ℕ → Indexes → ObjectInfo → Bool
is_garbage cnf start first_lsn ix f =
    if ix.vi f.path
    then false
    else if ltb start (f.last_mod + clamp cnf.protection_window)
    then false
    else not (needed_since (ix.ei f.path) first_lsn)

-- strings.HasPrefix and strings.Contains
abbrev pub has_prefix : Bytes → Bytes → Bool
has_prefix s [] = true
has_prefix [] (c ∷ sub) = false
has_prefix (d ∷ s) (c ∷ sub) = d == c && has_prefix s sub

unfoldable pub contains : Bytes → Bytes → Bool
contains [] sub = has_prefix [] sub
contains (c ∷ s) sub = let later = contains s sub in has_prefix (c ∷ s) sub || later

abbrev pub trash_word : Bytes
trash_word = 116 ∷ 114 ∷ 97 ∷ 115 ∷ 104 ∷ []

abbrev pub second : ℕ
second = 10 ^ 9

abbrev pub day : ℕ
day = 86400 * second

-- LastMod.Add(trashRetention).Unix() < time.Now().Unix(), for a retention that is an int64 of
-- nanoseconds
abbrev pub expired : ℤ → ℕ → ℕ → Bool
expired (pos days) last_mod time = ltb ((last_mod + days * day) / second) (time / second)
expired (negsuc n) last_mod time = ltb (last_mod / second) ((time + suc n * day) / second)

module _ {W : Type 0} (dh : BasicGarbageMgr W) where
  abbrev pub first_backup_lsn : DeleteMessage → M W Error ℕ
  first_backup_lsn msg =
      if dh.cnf.check_backup then dh.get_first_lsn msg.segnum else pure (2 ^ 64 - 1)

  -- ListGarbageFiles, from the loop backwards
  abbrev pub select_garbage :
      DeleteMessage → ℕ → ℕ → List ObjectInfo → Indexes → M W Error (List ObjectInfo)
  select_garbage msg start first_lsn objects ix =
      pure (filter (is_garbage dh.cnf start first_lsn ix) objects)

  abbrev pub look_up : DeleteMessage → ℕ → ℕ → List ObjectInfo → M W Error (List ObjectInfo)
  look_up msg start first_lsn objects = do
    ix ← wrapped "could not get virtual and expire indexes" (dh.get_virtual_expire_indexes msg.port)
    select_garbage msg start first_lsn objects ix

  abbrev pub list_and_look_up : Bytes → DeleteMessage → ℕ → ℕ → M W Error (List ObjectInfo)
  list_and_look_up bucket msg start first_lsn = do
    objects ← wrapped "could not list objects" (dh.storage.list_bucket_path bucket msg.name)
    look_up msg start first_lsn objects

  abbrev pub list_since : Bytes → DeleteMessage → ℕ → M W Error (List ObjectInfo)
  list_since bucket msg start = do
    first_lsn ← first_backup_lsn msg
    list_and_look_up bucket msg start first_lsn

  unfoldable pub list_garbage_files : Bytes → DeleteMessage → M W Error (List ObjectInfo)
  unfolding filter
  list_garbage_files bucket msg = do start ← now dh; list_since bucket msg start

  abbrev pub operate : Bytes → DeleteMessage → ObjectInfo → M W Error Unit
  operate bucket msg file =
      if msg.crazy_drop
      then dh.storage.delete_object bucket file.path
      else dh.storage.move_object bucket file.path (trash_path_from_reg_path file.path msg.segnum)

  abbrev pub remove_garbage :
      Bytes → DeleteMessage → List (Bytes × Bytes) → List ObjectInfo → M W Error Unit
  remove_garbage bucket msg uploads files =
      if msg.crazy_drop
      then remove_files dh (clamp dh.cnf.trash_delete_workers) default_trash_delete_workers
          (operate bucket msg) "failed to delete some files" "failed to delete some files" bucket
          uploads files
      else remove_files dh (clamp dh.cnf.trash_move_workers) default_trash_move_workers
          (operate bucket msg) "failed to move some files" "failed to move some files" bucket
          uploads files

  -- DeleteGarbageInBucket, from its confirmation on
  abbrev pub delete_confirmed :
      Bytes → DeleteMessage → List ObjectInfo → List (Bytes × Bytes) → M W Error Unit
  delete_confirmed bucket msg files uploads =
      if msg.confirm then remove_garbage bucket msg uploads files else pure tt

  abbrev pub delete_listed : Bytes → DeleteMessage → List ObjectInfo → M W Error Unit
  delete_listed bucket msg files = do
    uploads ← dh.storage.list_failed_multipart_uploads bucket
    delete_confirmed bucket msg files uploads

  unfoldable pub delete_garbage_in_bucket : Bytes → DeleteMessage → M W Error Unit
  delete_garbage_in_bucket bucket msg = do
    files ← wrapped "failed to delete file" (list_garbage_files bucket msg)
    delete_listed bucket msg files

  unfoldable pub for_buckets : (Bytes → M W Error Unit) → List Bytes → M W Error Unit
  for_buckets f [] = pure tt
  for_buckets f (b ∷ buckets) = f b >> for_buckets f buckets

  unfoldable pub handle_delete_garbage : DeleteMessage → M W Error Unit
  unfolding for_buckets
  handle_delete_garbage msg =
      for_buckets (λ b. delete_garbage_in_bucket b msg) dh.storage.list_buckets

  unfoldable pub list_delete2_files : Bytes → Delete2Message → M W Error (List ObjectInfo)
  list_delete2_files bucket msg =
      wrapped "could not list objects" (dh.storage.list_bucket_path bucket msg.prefix)

  -- The files that DeletePrefixInBucket keeps in its list: the clock is read only for a path that
  -- has "trash" in it.
  unfoldable pub filter_expired : List ObjectInfo → W → List ObjectInfo × W
  unfolding contains
  filter_expired [] w = ([], w)
  filter_expired (f ∷ files) w =
      let (t, read) = dh.clock w in
      let in_trash = contains f.path trash_word in
      let (rest, w') = filter_expired files (if in_trash then read else w) in
      (if in_trash && expired dh.cnf.trash_retention_days f.last_mod t then f ∷ rest else rest, w')

  abbrev pub remove_expired : Bytes → List (Bytes × Bytes) → List ObjectInfo → M W Error Unit
  remove_expired bucket uploads files w =
      let (expired_files, w') = filter_expired files w in
      remove_files dh (clamp dh.cnf.trash_delete_workers) default_trash_delete_workers
        (λ f. dh.storage.delete_object bucket f.path) "failed to delete garbage file"
        "failed to delete some files" bucket uploads expired_files w'

  -- DeletePrefixInBucket, from its confirmation on
  abbrev pub delete_expired_confirmed :
      Bytes → Delete2Message → List ObjectInfo → List (Bytes × Bytes) → M W Error Unit
  delete_expired_confirmed bucket msg files uploads =
      if msg.confirm && contains msg.prefix trash_word
      then remove_expired bucket uploads files
      else pure tt

  abbrev pub delete_listed_prefix : Bytes → Delete2Message → List ObjectInfo → M W Error Unit
  delete_listed_prefix bucket msg files = do
    uploads ← dh.storage.list_failed_multipart_uploads bucket
    delete_expired_confirmed bucket msg files uploads

  unfoldable pub delete_prefix_in_bucket : Bytes → Delete2Message → M W Error Unit
  unfolding filter_expired contains
  delete_prefix_in_bucket bucket msg = do
    files ← wrapped "failed to delete file" (list_delete2_files bucket msg)
    delete_listed_prefix bucket msg files

  unfoldable pub handle_delete2_prefix : Delete2Message → M W Error Unit
  unfolding for_buckets
  handle_delete2_prefix msg =
      for_buckets (λ b. delete_prefix_in_bucket b msg) dh.storage.list_buckets

  unfoldable pub handle_delete_file : DeleteMessage → M W Error Unit
  unfolding for_buckets
  handle_delete_file msg =
      if msg.confirm
      then for_buckets (λ b. wrapped "failed to delete file" (dh.storage.delete_object b msg.name))
          dh.storage.list_buckets
      else pure tt

  unfoldable pub restore_files : UntrashifyMessage → List ObjectInfo → M W Error Unit
  restore_files msg [] = pure tt
  restore_files msg (f ∷ files) =
      dh.storage.move_object dh.storage.default_bucket f.path
        (reg_path_from_trash_path f.path msg.segnum)
      >> restore_files msg files

  unfoldable pub handle_untrashify_file : UntrashifyMessage → M W Error Unit
  unfolding restore_files
  handle_untrashify_file msg = do
    files ← wrapped "could not list objects" (dh.storage.list_path msg.name)
    if msg.confirm then restore_files msg files else pure tt
