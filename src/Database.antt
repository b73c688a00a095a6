-- ===== src/Database.antt =====
-- DatabaseHandler of pkg/database/database.go: the virtual index and the expire hints of the
-- yezzey extension, over all databases of a segment.
pub mod Loops
pub mod Indexes
pub mod Versions
mod Tests
use Prim.Native.String.{String}
use yproxy.Base.{
  ℕ, ◌%◌, ◌^◌, ◌≡◌, refl, ◌⊎◌, inl, inr, Bool, true, false, ◌&&◌, ◌||◌, Option, none, some, List,
  [], ◌∷◌, ◌==◌, ltb, if◌then◌else◌,
}
use yproxy.Bytes.{Bytes, eqb}
use yproxy.Proc.Effect.{Result, ok, err}
use yproxy.Proc.Garbage.Mgr.{Error, text}

module _ {A B : Type 0} where
  infixl 5 ◌>>=◌
  abbrev pub ◌>>=◌ : Result Error A → (A → Result Error B) → Result Error B
  ok a >>= f = f a
  err e >>= f = err e

  pub bind-ok :
      (r : Result Error A) (f : A → Result Error B) (b : B)
      → (r >>= f) ≡ ok b
      → (a : A) × (r ≡ ok a) × (f a ≡ ok b)
  bind-ok (ok a) f b h = (a, refl, h)
  bind-ok (err e) f b h = cc

-- What a query gives: `none` is a row that cannot be scanned, and `broken` is a connection that
-- fails behind the last row, which only rows.Err() would tell.
pub record Rows (A : Type 0) : Type 0 where
  pub rows : List (Option A)
  pub broken : Bool

pub record ExpireHint : Type 0 where
  pub x_path : Bytes
  pub expire_lsn : Bytes

-- The startup parameters of a connection: none in the tests, gp_role, or gp_session_role as well.
pub data Role : Type 0 where
  no_role gp_role gp_session_role : Role

-- The databases behind pgx, as they answer during one request. `Conn` is a connection.
pub record Pg (Conn : Type 0) : Type 0 where
  pub connect : Role → ℕ → Bytes → Result Error Conn
  -- the names of pg_database that allow connections
  pub databases : Conn → Result Error (Rows Bytes)
  -- whether a schema `yezzey` exists: the scan of the one row
  pub has_yezzey : Conn → Result Error Bool
  pub extversion : Conn → Result Error (Rows Bytes)
  pub expire_hints : Conn → Result Error (Rows ExpireHint)
  pub virtual_index : Conn → Result Error (Rows Bytes)
  pub current_location : Conn → Result Error Bytes
  pub parse_lsn : Bytes → Result Error ℕ

-- The maps: the virtual index's keys, and the expire index with its newest entry first.
pub record Maps : Type 0 where
  pub virtual : List Bytes
  pub expire : List (Bytes × ℕ)

abbrev pub no_maps : Maps
no_maps = record { virtual = []; expire = [] }

-- The order of Go on strings: a < b.
unfoldable pub less : Bytes → Bytes → Bool
less [] [] = false
less [] (y ∷ ys) = true
less (x ∷ xs) [] = false
less (x ∷ xs) (y ∷ ys) = let rest = less xs ys in ltb x y || (x == y && rest)

unfoldable pub not_below : Bytes → Bytes → Bool
not_below ver exp = if less ver exp then false else true

-- `1.8.4`
abbrev pub expected_version : Bytes
expected_version = 49 ∷ 46 ∷ 56 ∷ 46 ∷ 52 ∷ []

-- `postgres`
abbrev pub postgres : Bytes
postgres = 112 ∷ 111 ∷ 115 ∷ 116 ∷ 103 ∷ 114 ∷ 101 ∷ 115 ∷ []

-- The loop of rows.Next over the expire hints.
unfoldable pub add_hints :
    (Bytes → Result Error ℕ) → List (Option ExpireHint) → Maps → Result Error Maps
add_hints parse_lsn [] m = ok m
add_hints parse_lsn (none ∷ rows) m = err (text "unable to parse query output")
add_hints parse_lsn (some row ∷ rows) m = elim (parse_lsn row.expire_lsn) [
  | err e ↦ err (text "unable to parse query output")
  | ok lsn ↦ add_hints parse_lsn rows (record m { expire = (row.x_path, lsn) ∷ m.expire })
]

-- The loop of viRows.Next over the virtual index.
unfoldable pub add_paths : List (Option Bytes) → Maps → Result Error Maps
add_paths [] m = ok m
add_paths (none ∷ rows) m = err (text "unable to parse query output")
add_paths (some path ∷ rows) m = add_paths rows (record m { virtual = path ∷ m.virtual })

-- The error of a query, in the words of the handler.
abbrev pub queried : {A : Type 0} → String → Result Error A → Result Error A
queried t (ok a) = ok a
queried t (err e) = err (text t)

pub Result-cases :
    {A : Type 0} (r : Result Error A) → ((a : A) × (r ≡ ok a)) ⊎ ((e : Error) × (r ≡ err e))
Result-cases (ok a) = inl (a, refl)
Result-cases (err e) = inr (e, refl)

pub ok-injective : {A : Type 0} {a b : A} → ◌≡◌ {A = Result Error A} (ok a) (ok b) → a ≡ b
ok-injective h = cc

pub queried-ok :
    {A : Type 0} (t : String) (r : Result Error A) (a : A) → queried t r ≡ ok a → r ≡ ok a
queried-ok t (ok b) a h = h
queried-ok t (err e) a h = cc

-- The one row of checkVersion.
unfoldable pub one_version : Bytes → List (Option Bytes) → Result Error Bool
one_version exp [] = err (text "unable to get yezzey extension version")
one_version exp (none ∷ rows) = err (text "unable to parse query output")
one_version exp (some ver ∷ []) = ok (not_below ver exp)
one_version exp (some ver ∷ (_ ∷ _)) =
    err (text "unable to get yezzey extension version: duplicate output")

abbrev pub keep_if : Bool → Bytes → List Bytes → List Bytes
keep_if ans db found = if ans then db ∷ found else found

pub some_database : Bool → List Bytes → Result Error (List Bytes)
some_database paranoid [] =
    if paranoid then err (text "no yezzey schema across databases") else ok []
some_database paranoid (db ∷ dbs) = ok (db ∷ dbs)

module _ {Conn : Type 0} (pg : Pg Conn) (test_mode : Bool) where
  -- connectToDatabase: the port is cut to 16 bits, and a second attempt adds gp_session_role.
  unfoldable pub connect_to_database : ℕ → Bytes → Result Error Conn
  connect_to_database port database =
      if test_mode
      then pg.connect no_role (port % 2 ^ 16) database
      else elim (pg.connect gp_role (port % 2 ^ 16) database) [
        | ok conn ↦ ok conn
        | err e ↦ pg.connect gp_session_role (port % 2 ^ 16) database
      ]

  unfoldable pub check_version : Conn → Bytes → Result Error Bool
  unfolding one_version not_below
  check_version conn exp = do
    found ← queried "unable to get ao/aocs tables" (pg.extversion conn)
    one_version exp found.rows

  -- The expire hints are read only where the version allows it.
  unfoldable pub with_hints : Conn → Bool → Maps → Result Error Maps
  unfolding add_hints
  with_hints conn true m = do
    hints ← queried "unable to get ao/aocs tables" (pg.expire_hints conn)
    add_hints pg.parse_lsn hints.rows m
  with_hints conn false m = ok m

  unfoldable pub with_paths : Conn → Maps → Result Error Maps
  unfolding add_paths
  with_paths conn m = do
    paths ← queried "unable to get ao/aocs tables" (pg.virtual_index conn)
    add_paths paths.rows m

  -- GetVirtualExpireIndex
  unfoldable pub get_virtual_expire_index : ℕ → Bytes → Maps → Result Error Maps
  get_virtual_expire_index port db m = do
    conn ← connect_to_database port db
    new_enough ← check_version conn expected_version
    m' ← with_hints conn new_enough m
    with_paths conn m'

  abbrev pub has_yezzey_schema : ℕ → Bytes → Result Error Bool
  has_yezzey_schema port db = connect_to_database port db >>= pg.has_yezzey

  -- The loop of getDatabase over the databases.
  unfoldable pub yezzey_databases : ℕ → List (Option Bytes) → Result Error (List Bytes)
  yezzey_databases port [] = ok []
  yezzey_databases port (none ∷ rows) = err (text "scan")
  yezzey_databases port (some db ∷ rows) =
      if eqb db postgres
      then yezzey_databases port rows
      else (has_yezzey_schema port db >>= λ ans.
          yezzey_databases port rows >>= λ found. ok (keep_if ans db found))

  -- getDatabase; `paranoid` is YezzeyRestoreParanoid of the configuration.
  unfoldable pub get_database : Bool → ℕ → Result Error (List Bytes)
  unfolding yezzey_databases some_database
  get_database paranoid port = do
    conn ← connect_to_database port postgres
    names ← pg.databases conn
    found ← yezzey_databases port names.rows
    some_database paranoid found

  unfoldable pub for_databases : ℕ → List Bytes → Maps → Result Error Maps
  for_databases port [] m = ok m
  for_databases port (db ∷ dbs) m = get_virtual_expire_index port db m >>= for_databases port dbs

  -- GetVirtualExpireIndexes
  unfoldable pub get_virtual_expire_indexes : Bool → ℕ → Result Error Maps
  unfolding for_databases
  get_virtual_expire_indexes paranoid port = do
    dbs ← queried "unable to get ao/aocs tables" (get_database paranoid port)
    for_databases port dbs no_maps

  unfoldable pub get_next_lsn : ℕ → Bytes → Result Error ℕ
  get_next_lsn port db = do
    conn ← connect_to_database port db
    location ← queried "unable to parse query output" (pg.current_location conn)
    queried "unable to parse query output" (pg.parse_lsn location)
