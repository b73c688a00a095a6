-- ===== src/Database/Versions.antt =====
-- The comparison of versions in checkVersion of pkg/database/database.go, and what hangs on it.
use yproxy.Base.{ℕ, ◌≡◌, refl, Bool, some, [], ◌∷◌}
use yproxy.Bytes.{Bytes}
use yproxy.Proc.Effect.{ok}
use yproxy.Database.{
  Pg, Maps, less, not_below, one_version, connect_to_database, check_version, with_hints,
  with_paths, get_virtual_expire_index,
}

-- `1.8.1`, and what follows
abbrev pub from_1_8_1 : Bytes → Bytes
from_1_8_1 rest = 49 ∷ 46 ∷ 56 ∷ 46 ∷ 49 ∷ rest

-- A version of the extension that is written with a third number from 10 to 19, or 100 and more,
-- counts as older than 1.8.4: its expire hints are not read, and the indexes are those of the
-- virtual index alone.
pub get_virtual_expire_index-from_1_8_1 :
    {Conn : Type 0} (pg : Pg Conn) (test_mode : Bool) (port : ℕ) (db rest : Bytes) (m : Maps)
    (conn : Conn) (broken : Bool)
    → connect_to_database pg test_mode port db ≡ ok conn
    → pg.extversion conn ≡ ok (record { rows = some (from_1_8_1 rest) ∷ []; broken = broken })
    → get_virtual_expire_index pg test_mode port db m ≡ with_paths pg test_mode conn m
unfolding get_virtual_expire_index check_version one_version not_below less with_hints
get_virtual_expire_index-from_1_8_1 pg test_mode port db rest m conn broken connected version =
    rw (connected, version) refl
