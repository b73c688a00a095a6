-- ===== src/Database/Tests.antt =====
-- A segment with two databases, one of which has the extension.
use yproxy.Base.{◌≡◌, refl, true, false, some, [], ◌∷◌, Elem}
use yproxy.Bytes.{Bytes, eqb}
use yproxy.Proc.Effect.{ok}
use yproxy.Database.{
  Pg, Rows, postgres, connect_to_database, has_yezzey_schema, get_virtual_expire_index,
  get_virtual_expire_indexes, with_paths, get_database, check_version, with_hints, less,
}
use yproxy.Database.Indexes.{Read, get_virtual_expire_indexes-Read}
use yproxy.Database.Versions.{from_1_8_1}

-- A connection is the name of its database.
abbrev segment : Pg Bytes
segment = record {
  connect = λ role port db. ok db;
  databases = λ conn.
      ok (record { rows = some postgres ∷ some (121 ∷ []) ∷ some (122 ∷ []) ∷ []; broken = false });
  has_yezzey = λ conn. ok (eqb conn (121 ∷ []));
  extversion = λ conn. ok (record { rows = some (from_1_8_1 (48 ∷ [])) ∷ []; broken = false });
  expire_hints = λ conn.
      ok (record {
        rows = some (record { x_path = 98 ∷ []; expire_lsn = [] }) ∷ [];
        broken = false;
      });
  virtual_index = λ conn. ok (record { rows = some (97 ∷ []) ∷ []; broken = true });
  current_location = λ conn. ok [];
  parse_lsn = λ t. ok 7;
}

get_virtual_expire_indexes-Read_example :
    (names : Rows Bytes) × (conn : Bytes) × (connect_to_database segment false 5432 postgres
      ≡ ok conn)
    × (segment.databases conn ≡ ok names)
    × ((db : Bytes)
        → Elem (some db) names.rows
        → eqb db postgres ≡ false
        → has_yezzey_schema segment false 5432 db ≡ ok true
        → Read segment false 5432 db (record { virtual = (97 ∷ []) ∷ []; expire = [] }))
unfolding get_virtual_expire_indexes get_database connect_to_database get_virtual_expire_index
    check_version with_hints less with_paths
get_virtual_expire_indexes-Read_example =
    get_virtual_expire_indexes-Read segment false true 5432
      (record { virtual = (97 ∷ []) ∷ []; expire = [] }) refl
