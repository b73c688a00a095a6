-- ===== src/Backups/Tests.antt =====
-- A backup storage with two backups, of which one has a sentinel that cannot be parsed.
use yproxy.Base.{ℕ, Option, none, some, [], ◌∷◌, ◌++◌, ◌==◌, if◌then◌else◌}
use yproxy.Bytes.{Bytes}
use yproxy.Message.ObjectMeta.{ObjectInfo}
use yproxy.Proc.Effect.{Result, ok}
use yproxy.Proc.Garbage.Mgr.{Error}
use yproxy.Backups.{Storage, sentinel}

abbrev contents : Bytes → Result Error Bytes
contents p = ok p

abbrev backup : Bytes → ObjectInfo
backup name = record { path = name ++ sentinel; size = 1; last_mod = 0 }

abbrev backups : Storage Unit
backups = record {
  list_path = λ p w. (ok (backup (9 ∷ []) ∷ backup (5 ∷ []) ∷ backup [] ∷ []), w);
  read_all = λ p w. (contents p, w);
}

-- The first byte is the LSN, and 9 is none.
abbrev unmarshal : Bytes → Option ℕ
unmarshal [] = none
unmarshal (x ∷ _) = if x == 9 then none else some x
