-- ===== src/Database/Indexes.antt =====
-- What GetVirtualExpireIndexes of pkg/database/database.go has in its virtual index.
use yproxy.Base.{ℕ, ◌≡◌, ap, subst, inl, inr, Bool, true, false, some, List, [], ◌∷◌, Elem}
use yproxy.Bytes.{Bytes, eqb}
use yproxy.Proc.Effect.{ok}
use yproxy.Database.{
  ◌>>=◌, bind-ok, queried-ok, ok-injective, Pg, Rows, Maps, no_maps, postgres, expected_version,
  add_hints, add_paths, queried, connect_to_database, check_version, with_hints, with_paths,
  get_virtual_expire_index, has_yezzey_schema, yezzey_databases, some_database, get_database,
  for_databases, get_virtual_expire_indexes,
}
use yproxy.Database.Loops.{
  add_paths-Elem, add_paths-Elem_rows, add_hints-virtual, yezzey_databases-Elem, some_database-Elem,
}

module _ {Conn : Type 0} (pg : Pg Conn) (test_mode : Bool) where
  with_hints-virtual :
      (conn : Conn) (new_enough : Bool) (m m' : Maps)
      → with_hints pg test_mode conn new_enough m ≡ ok m'
      → m.virtual ≡ m'.virtual
  unfolding with_hints
  with_hints-virtual conn true m m' h =
      let (hints, _, k) =
        bind-ok (queried "unable to get ao/aocs tables" (pg.expire_hints conn))
          (λ hints. add_hints pg.parse_lsn hints.rows m) m' h in
      add_hints-virtual pg.parse_lsn hints.rows m m' k
  with_hints-virtual conn false m m' h = ap (λ (n : Maps). n.virtual) (ok-injective h)

  -- The virtual index of one database, read over a connection to it.
  pub record Read (port : ℕ) (db : Bytes) (m : Maps) : Type 0 where
    pub conn : Conn
    pub paths : Rows Bytes
    pub connected : connect_to_database pg test_mode port db ≡ ok conn
    pub answered : pg.virtual_index conn ≡ ok paths
    pub has_rows : (p : Bytes) → Elem (some p) paths.rows → Elem p m.virtual

  index-Read :
      (port : ℕ) (db : Bytes) (m m' : Maps)
      → get_virtual_expire_index pg test_mode port db m ≡ ok m'
      → Read port db m' × ((p : Bytes) → Elem p m.virtual → Elem p m'.virtual)
  unfolding get_virtual_expire_index with_paths
  index-Read port db m m' h =
      let (conn, connected, k) =
        bind-ok (connect_to_database pg test_mode port db)
          (λ conn. check_version pg test_mode conn expected_version >>= λ new_enough.
            with_hints pg test_mode conn new_enough m >>= λ n. with_paths pg test_mode conn n)
          m' h in
      let (new_enough, _, k') =
        bind-ok (check_version pg test_mode conn expected_version)
          (λ new_enough.
            with_hints pg test_mode conn new_enough m >>= λ n. with_paths pg test_mode conn n)
          m' k in
      let (n, hints, k'') =
        bind-ok (with_hints pg test_mode conn new_enough m) (λ n. with_paths pg test_mode conn n) m'
          k' in
      let (paths, asked, added) =
        bind-ok (queried "unable to get ao/aocs tables" (pg.virtual_index conn))
          (λ paths. add_paths paths.rows n) m' k'' in
      (
        record {
          conn = conn;
          paths = paths;
          connected = connected;
          answered = queried-ok "unable to get ao/aocs tables" (pg.virtual_index conn) paths asked;
          has_rows = λ p e. add_paths-Elem_rows paths.rows n m' p added e;
        },
        λ p e. add_paths-Elem paths.rows n m' p added (
            subst (λ (ps : List Bytes). Elem p ps) (with_hints-virtual conn new_enough m n hints)
              e),
      )

  for_databases-keeps :
      (port : ℕ) (dbs : List Bytes) (m m' : Maps) (p : Bytes)
      → for_databases pg test_mode port dbs m ≡ ok m'
      → Elem p m.virtual
      → Elem p m'.virtual
  unfolding for_databases
  for_databases-keeps port [] m m' p h e = subst (λ (n : Maps). Elem p n.virtual) (ok-injective h) e
  for_databases-keeps port (db ∷ dbs) m m' p h e =
      let (n, one, k) =
        bind-ok (get_virtual_expire_index pg test_mode port db m)
          (for_databases pg test_mode port dbs) m' h in
      for_databases-keeps port dbs n m' p k ((index-Read port db m n one).1 p e)

  for_databases-Read :
      (port : ℕ) (dbs : List Bytes) (m m' : Maps) (db : Bytes)
      → for_databases pg test_mode port dbs m ≡ ok m'
      → Elem db dbs
      → Read port db m'
  unfolding for_databases
  for_databases-Read port [] m m' db h e = absurd e
  for_databases-Read port (name ∷ dbs) m m' db h e =
      let (n, one, k) =
        bind-ok (get_virtual_expire_index pg test_mode port name m)
          (for_databases pg test_mode port dbs) m' h in
      let (r, _) = index-Read port name m n one in
      elim e [
        | inl same ↦
            subst (λ (d : Bytes). Read port d m') same
              (record {
                conn = r.conn;
                paths = r.paths;
                connected = r.connected;
                answered = r.answered;
                has_rows = λ p there. for_databases-keeps port dbs n m' p k (r.has_rows p there);
              })
        | inr there ↦ for_databases-Read port dbs n m' db k there
      ]

  get_database-Elem :
      (paranoid : Bool) (port : ℕ) (dbs : List Bytes)
      → get_database pg test_mode paranoid port ≡ ok dbs
      → (names : Rows Bytes) × (conn : Conn) × (connect_to_database pg test_mode port postgres
          ≡ ok conn)
        × (pg.databases conn ≡ ok names)
        × ((db : Bytes)
            → Elem (some db) names.rows
            → eqb db postgres ≡ false
            → has_yezzey_schema pg test_mode port db ≡ ok true
            → Elem db dbs)
  unfolding get_database
  get_database-Elem paranoid port dbs h =
      let (conn, connected, k) =
        bind-ok (connect_to_database pg test_mode port postgres)
          (λ conn. pg.databases conn >>= λ names.
            yezzey_databases pg test_mode port names.rows >>= λ found. some_database paranoid found)
          dbs h in
      let (names, named, k') =
        bind-ok (pg.databases conn)
          (λ names.
            yezzey_databases pg test_mode port names.rows >>= λ found. some_database paranoid found)
          dbs k in
      let (found, searched, k'') =
        bind-ok (yezzey_databases pg test_mode port names.rows)
          (λ found. some_database paranoid found) dbs k' in
      (
        names,
        conn,
        connected,
        named,
        λ db e other has.
            some_database-Elem paranoid found dbs db k''
              (yezzey_databases-Elem pg test_mode port names.rows found db searched e other has),
      )

  -- If GetVirtualExpireIndexes returns, its virtual index has every path that was delivered of the
  -- virtual index of every database with a yezzey schema, apart from `postgres`.
  pub get_virtual_expire_indexes-Read :
      (paranoid : Bool) (port : ℕ) (m : Maps)
      → get_virtual_expire_indexes pg test_mode paranoid port ≡ ok m
      → (names : Rows Bytes) × (conn : Conn) × (connect_to_database pg test_mode port postgres
          ≡ ok conn)
        × (pg.databases conn ≡ ok names)
        × ((db : Bytes)
            → Elem (some db) names.rows
            → eqb db postgres ≡ false
            → has_yezzey_schema pg test_mode port db ≡ ok true
            → Read port db m)
  unfolding get_virtual_expire_indexes
  get_virtual_expire_indexes-Read paranoid port m h =
      let (dbs, asked, k) =
        bind-ok (queried "unable to get ao/aocs tables" (get_database pg test_mode paranoid port))
          (λ dbs. for_databases pg test_mode port dbs no_maps) m h in
      let (names, conn, connected, named, all) = get_database-Elem paranoid port dbs (
        queried-ok "unable to get ao/aocs tables" (get_database pg test_mode paranoid port) dbs
          asked) in
      (
        names,
        conn,
        connected,
        named,
        λ db e other has. for_databases-Read port dbs no_maps m db k (all db e other has),
      )
