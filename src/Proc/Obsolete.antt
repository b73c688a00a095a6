-- ===== src/Proc/Obsolete.antt =====
-- ProcessCollectObsolete and ProcessDeleteObsolete of pkg/proc/interaction.go: files that no table
-- uses get an expire hint, and hinted files that no backup needs go to the trash.
pub mod Collect
pub mod Delete
mod Tests
use Prim.Native.String.{String}
use yproxy.Base.{
  ℕ, Bool, true, false, Option, none, some, List, [], ◌∷◌, ◌++◌, leb, ◌==◌, if◌then◌else◌,
}
use yproxy.Bytes.{Bytes, eqb}
use yproxy.Message.ObjectMeta.{ObjectInfo}
use yproxy.Message.Obsolete.{ObsoleteMessage}
use yproxy.Backups.{no_lsn}
use yproxy.Database.{Maps}
use yproxy.Proc.Effect.{M, Result, ok, err, pure, raise, ◌>>=◌, ◌>>◌}
use yproxy.Proc.Garbage.Mgr.{Error, text}
use yproxy.Proc.Garbage.Handlers.{contains}

-- What the handlers call, over the state `W` of the client, the storages and the databases. `Conn`
-- is the connection of GetConnectToDatabase; an Add and a Delete write a hint over it.
pub record Services (W Conn : Type 0) : Type 0 where
  pub list_path : Bytes → M W Error (List ObjectInfo)
  pub move_object : Bytes → Bytes → Bytes → M W Error Unit
  pub default_bucket : Bytes
  pub get_first_lsn : ℕ → M W Error ℕ
  pub get_virtual_expire_indexes : ℕ → M W Error Maps
  pub get_next_lsn : ℕ → Bytes → M W Error ℕ
  pub get_connect_to_database : ℕ → Bytes → M W Error Conn
  pub add_to_expire_index : Conn → Bytes → ℕ → M W Error Unit
  pub delete_from_expire_index : Conn → Bytes → M W Error Unit
  -- ReplyError; what it returns is not looked at
  pub reply_error : Error → String → W → W
  -- the order in which the entries of the expire index are ranged over
  pub range_order : List (Bytes × ℕ) → List (Bytes × ℕ)

-- `_, ok := vi[path]`
unfoldable pub in_virtual : Bytes → List Bytes → Bool
in_virtual path [] = false
in_virtual path (p ∷ ps) = let later = in_virtual path ps in if eqb p path then true else later

unfoldable pub in_expire : Bytes → List (Bytes × ℕ) → Bool
in_expire path [] = false
in_expire path (e ∷ es) = let later = in_expire path es in if eqb e.0 path then true else later

-- The map has one entry for a path: the newest.
unfoldable pub distinct : List (Bytes × ℕ) → List Bytes → List (Bytes × ℕ)
distinct [] seen = []
distinct (e ∷ es) seen =
    let hidden = distinct es seen in
    let shown = distinct es (e.0 ∷ seen) in if in_virtual e.0 seen then hidden else e ∷ shown

-- `/trash`
abbrev pub trash_prefix : Bytes
trash_prefix = 47 ∷ 116 ∷ 114 ∷ 97 ∷ 115 ∷ 104 ∷ []

module _ {W Conn : Type 0} (sv : Services W Conn) where
  -- An error goes to the client as well.
  pub replied : {A : Type 0} → String → Result Error A × W → Result Error A × W
  replied t (ok a, w) = (ok a, w)
  replied t (err e, w) = (err e, sv.reply_error e t w)

  abbrev pub replying : {A : Type 0} → String → M W Error A → M W Error A
  replying t m w = replied t (m w)

  -- The result is looked at only to reply or to log.
  abbrev pub whatever : M W Error Unit → M W Error Unit
  whatever m w = (ok tt, (m w).1)

  -- The loop over the files of the storage
  unfoldable pub collect_files : Conn → ℕ → Maps → List ObjectInfo → M W Error Unit
  unfolding in_virtual in_expire
  collect_files conn lsn m [] w = (ok tt, w)
  collect_files conn lsn m (v ∷ files) w =
      let skipped = collect_files conn lsn m files w in
      let w' =
        (whatever (replying "error while adding to ei" (sv.add_to_expire_index conn v.path lsn))
          w).1 in
      let added = collect_files conn lsn m files w' in
      if in_virtual v.path m.virtual
      then skipped
      else if in_expire v.path m.expire
      then skipped
      else added

  abbrev pub collect_over : ObsoleteMessage → List ObjectInfo → Maps → ℕ → M W Error Unit
  collect_over msg files m lsn = do
    conn ← replying "failed connect to db" (sv.get_connect_to_database msg.port msg.db_name)
    collect_files conn lsn m files

  abbrev pub collect_since : ObsoleteMessage → List ObjectInfo → Maps → M W Error Unit
  collect_since msg files m = do
    lsn ← replying "failed get min lsn" (sv.get_next_lsn msg.port msg.db_name)
    collect_over msg files m lsn

  abbrev pub collect_listed : ObsoleteMessage → List ObjectInfo → M W Error Unit
  collect_listed msg files = do
    m ← replying "failed get virtual expire indexes" (sv.get_virtual_expire_indexes msg.port)
    collect_since msg files m

  unfoldable pub process_collect_obsolete : ObsoleteMessage → M W Error Unit
  unfolding replied
  process_collect_obsolete msg = do
    files ← replying "failed list path" (sv.list_path msg.message)
    collect_listed msg files

  -- The hint goes first, and the file only where that succeeded.
  move_to_trash : Bytes → Result Error Unit × W → W
  move_to_trash path (ok tt, w) = (sv.move_object sv.default_bucket path (trash_prefix ++ path) w).1
  move_to_trash path (err e, w) = w

  -- The body of the loop over the expire index
  unfoldable pub delete_candidate : Conn → Bytes → ℕ → Maps → Bytes × ℕ → W → W
  unfolding move_to_trash in_virtual
  delete_candidate conn substring first_lsn m (path, lsn) w =
      if leb first_lsn lsn
      then w
      else if in_virtual path m.virtual
      then (sv.delete_from_expire_index conn path w).1
      else if contains path substring
      then move_to_trash path (sv.delete_from_expire_index conn path w)
      else w

  unfoldable pub delete_candidates : Conn → Bytes → ℕ → Maps → List (Bytes × ℕ) → M W Error Unit
  unfolding delete_candidate
  delete_candidates conn substring first_lsn m [] w = (ok tt, w)
  delete_candidates conn substring first_lsn m (e ∷ es) w =
      delete_candidates conn substring first_lsn m es
        (delete_candidate conn substring first_lsn m e w)

  abbrev pub delete_over : ObsoleteMessage → Maps → ℕ → M W Error Unit
  delete_over msg m first_lsn = do
    conn ← sv.get_connect_to_database msg.port msg.db_name
    delete_candidates conn msg.message first_lsn m (sv.range_order (distinct m.expire []))

  abbrev pub delete_since : ObsoleteMessage → Maps → ℕ → M W Error Unit
  delete_since msg m first_lsn =
      if first_lsn == no_lsn
      then raise (text "wal-g backups required for consistent deleting")
      else delete_over msg m first_lsn

  abbrev pub delete_indexed : ObsoleteMessage → Maps → M W Error Unit
  delete_indexed msg m = do first_lsn ← sv.get_first_lsn msg.segnum; delete_since msg m first_lsn

  unfoldable pub process_delete_obsolete : ObsoleteMessage → M W Error Unit
  unfolding delete_candidates distinct
  process_delete_obsolete msg = do m ← sv.get_virtual_expire_indexes msg.port; delete_indexed msg m
