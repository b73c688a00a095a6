-- ===== src/Proc/Copy.antt =====
-- ListFilesToCopy of pkg/proc/interaction.go. The storages that are listed, the database and the
-- configuration are parameters.
pub mod Select
pub mod Workers
pub mod Handler
mod Tests
use yproxy.Base.{
  ℕ, Bool, true, false, not, ◌&&◌, ◌||◌, List, [], ◌∷◌, ◌++◌, if◌then◌else◌, length, drop,
}
use yproxy.Bytes.{Bytes, eqb}
use yproxy.Message.ObjectMeta.{ObjectInfo}
use yproxy.Proc.Effect.{M, Result, ok, err, pure, ◌>>=◌}
use yproxy.Proc.Garbage.Handlers.{has_prefix}

pub record CopyLister (W E : Type 0) : Type 0 where
  -- ListPath of the two storages, with and without the cache
  pub src_list_path : Bytes → Bool → M W E (List ObjectInfo)
  pub dst_list_path : Bytes → Bool → M W E (List ObjectInfo)
  -- whether a path has an entry in the virtual index of the database behind a port
  pub get_virtual_index : ℕ → M W E (Bytes → Bool)
  -- StoragePrefix of the source
  pub storage_prefix : Bytes
  -- StorageOptimizeCopy of the instance
  pub storage_optimize_copy : Bool

-- strings.TrimPrefix
unfoldable pub trim_prefix : Bytes → Bytes → Bytes
trim_prefix s p = if has_prefix s p then drop (length p) s else s

-- Whether the map of the copied sizes has the path
unfoldable pub is_copied : List ObjectInfo → Bytes → Bool
is_copied [] p = false
is_copied (c ∷ copied) p = let rest = is_copied copied p in eqb c.path p || rest

pub record Lists : Type 0 where
  pub to_copy : List ObjectInfo
  pub skipped : List ObjectInfo

module _ {W E : Type 0} (lister : CopyLister W E) where
  -- The loop; what one object adds is put in front of what the objects behind it add.
  unfoldable pub split_objects : (Bytes → Bool) → List ObjectInfo → List ObjectInfo → Lists
  unfolding is_copied
  split_objects vi copied [] = record { to_copy = []; skipped = [] }
  split_objects vi copied (f ∷ objects) =
      let rest = split_objects vi copied objects in
      let unknown = not (vi (trim_prefix f.path lister.storage_prefix)) in
      let note = if unknown then f ∷ rest.skipped else rest.skipped in
      if unknown && lister.storage_optimize_copy
      then record rest { skipped = note }
      else if is_copied copied f.path
      then record rest { skipped = if unknown then f ∷ f ∷ rest.skipped else f ∷ rest.skipped }
      else record { to_copy = f ∷ rest.to_copy; skipped = note }

  abbrev pub split_listed : (Bytes → Bool) → List ObjectInfo → List ObjectInfo → M W E Lists
  split_listed vi objects copied = pure (split_objects vi copied objects)

  abbrev pub list_copied : Bytes → List ObjectInfo → (Bytes → Bool) → M W E Lists
  list_copied prefix objects vi = do
    copied ← lister.dst_list_path prefix false
    split_listed vi objects copied

  abbrev pub list_index : Bytes → ℕ → List ObjectInfo → M W E Lists
  list_index prefix port objects = do
    vi ← lister.get_virtual_index port
    list_copied prefix objects vi

  unfoldable pub list_files_to_copy : Bytes → ℕ → M W E Lists
  unfolding split_objects is_copied
  list_files_to_copy prefix port = do
    objects ← lister.src_list_path prefix true
    list_index prefix port objects
