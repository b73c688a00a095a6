-- ===== src/Backups.antt =====
-- StorageBackupInteractor of pkg/backups/backups.go: the LSN of the oldest backup, from the
-- sentinel files that WAL-G leaves in the backup storage.
pub mod FirstLsn
mod Tests
use Prim.Native.String.{String}
use yproxy.Base.{
  ℕ, ◌-◌, ◌^◌, Bool, true, false, Option, none, some, List, [], ◌∷◌, ◌++◌, length, drop, leb, ltb,
  ◌-◌, if◌then◌else◌,
}
use yproxy.Bytes.{Bytes, eqb}
use yproxy.Message.ObjectMeta.{ObjectInfo}
use yproxy.Proc.Effect.{M, Result, ok, err, pure, ◌>>=◌}
use yproxy.Proc.Garbage.Mgr.{Error}
use yproxy.Proc.Garbage.Paths.{decimal}

-- What GetFirstLSN uses of the storage: ListPath, and CatFileFromStorage from the start of the
-- object with io.ReadAll behind it.
pub record Storage (W : Type 0) : Type 0 where
  pub list_path : Bytes → M W Error (List ObjectInfo)
  pub read_all : Bytes → M W Error Bytes

-- strings.HasSuffix
unfoldable pub has_suffix : Bytes → Bytes → Bool
has_suffix s suffix =
    if leb (length suffix) (length s) then eqb (drop (length s - length suffix) s) suffix else false

-- `segments_005/seg`
abbrev pub segments_prefix : Bytes
segments_prefix =
    115 ∷ 101 ∷ 103 ∷ 109 ∷ 101 ∷ 110 ∷ 116 ∷ 115 ∷ 95 ∷ 48 ∷ 48 ∷ 53 ∷ 47 ∷ 115 ∷ 101 ∷ 103 ∷ []

-- `/basebackups_005/`
abbrev pub basebackups_dir : Bytes
basebackups_dir =
    47 ∷ 98 ∷ 97 ∷ 115 ∷ 101 ∷ 98 ∷ 97 ∷ 99 ∷ 107 ∷ 117 ∷ 112 ∷ 115 ∷ 95 ∷ 48 ∷ 48 ∷ 53 ∷ 47 ∷ []

-- `backup_stop_sentinel.json`
abbrev pub sentinel : Bytes
sentinel =
    98 ∷ 97 ∷ 99 ∷ 107 ∷ 117 ∷ 112 ∷ 95 ∷ 115 ∷ 116 ∷ 111 ∷ 112 ∷ 95 ∷ 115 ∷ 101 ∷ 110 ∷ 116 ∷ 105
    ∷ 110 ∷ 101 ∷ 108 ∷ 46 ∷ 106 ∷ 115 ∷ 111 ∷ 110 ∷ []

-- fmt.Sprintf("segments_005/seg%d/basebackups_005/", seg)
abbrev pub backups_path : ℕ → Bytes
backups_path seg = segments_prefix ++ (decimal seg ++ basebackups_dir)

-- ^uint64(0)
abbrev pub no_lsn : ℕ
no_lsn = 2 ^ 64 - 1

-- The LSN that a file has, where it can be read and parsed; every error is skipped. `unmarshal` is
-- json.Unmarshal into BackupLSN.
unfoldable pub unmarshalled : (Bytes → Option ℕ) → Result Error Bytes → Option ℕ
unmarshalled unmarshal (ok content) = unmarshal content
unmarshalled unmarshal (err e) = none

smaller : ℕ → Option ℕ → ℕ
smaller min_lsn none = min_lsn
smaller min_lsn (some lsn) = if ltb lsn min_lsn then lsn else min_lsn

module _ {W : Type 0} (storage : Storage W) (unmarshal : Bytes → Option ℕ) where
  -- The loop over the objects, with the least LSN so far.
  unfoldable pub least_lsn : List ObjectInfo → ℕ → M W Error ℕ
  unfolding unmarshalled smaller has_suffix
  least_lsn [] min_lsn w = (ok min_lsn, w)
  least_lsn (obj ∷ objects) min_lsn w =
      let skipped = least_lsn objects min_lsn w in
      let (content, w') = storage.read_all obj.path w in
      let checked = least_lsn objects (smaller min_lsn (unmarshalled unmarshal content)) w' in
      if has_suffix obj.path sentinel then checked else skipped

  unfoldable pub get_first_lsn : ℕ → M W Error ℕ
  unfolding least_lsn
  get_first_lsn seg = do objects ← storage.list_path (backups_path seg); least_lsn objects no_lsn
