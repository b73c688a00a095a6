-- ===== src/Backups/FirstLsn.antt =====
-- What GetFirstLSN of pkg/backups/backups.go returns.
use yproxy.Base.{ℕ, ◌≤◌, ◌≡◌, ◌⊎◌, true, Option, some, List}
use yproxy.Bytes.{Bytes}
use yproxy.Message.ObjectMeta.{ObjectInfo}
use yproxy.Proc.Effect.{Result}
use yproxy.Proc.Garbage.Mgr.{Error}
use yproxy.Proc.Garbage.Select.{In}
use yproxy.Backups.{Storage, has_suffix, sentinel, unmarshalled}

module _ {W : Type 0} (storage : Storage W) (unmarshal : Bytes → Option ℕ)
    (contents : Bytes → Result Error Bytes) where
  -- The storage has a fixed content, or a fixed error, for each path.
  abbrev pub ReadsContents : Type 0
  ReadsContents = (p : Bytes) (w : W) → (storage.read_all p w).0 ≡ contents p

  -- A listed backup whose sentinel can be read and has this LSN.
  pub record Backup (objects : List ObjectInfo) (lsn : ℕ) : Type 0 where
    pub obj : ObjectInfo
    pub listed : In obj objects
    pub is_sentinel : has_suffix obj.path sentinel ≡ true
    pub has_lsn : unmarshalled unmarshal (contents obj.path) ≡ some lsn

  -- `n` is the least of the bound and the LSNs of the backups.
  pub record Least (bound : ℕ) (objects : List ObjectInfo) (n : ℕ) : Type 0 where
    pub below_bound : n ≤ bound
    pub below : (lsn : ℕ) → Backup objects lsn → n ≤ lsn
    pub attained : (n ≡ bound) ⊎ Backup objects n
