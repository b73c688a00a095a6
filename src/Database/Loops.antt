-- ===== src/Database/Loops.antt =====
-- What the loops over the rows in pkg/database/database.go leave in their results.
use yproxy.Base.{
  ℕ, ◌≡◌, sym, ap, subst, ◌∙◌, inl, inr, Bool, true, false, Option, none, some, List, [], ◌∷◌, Elem,
  Bool-cases,
}
use yproxy.Bytes.{Bytes, eqb}
use yproxy.Proc.Effect.{Result, ok}
use yproxy.Proc.Garbage.Mgr.{Error}
use yproxy.Database.{
  ◌>>=◌, bind-ok, Result-cases, ok-injective, Pg, ExpireHint, Maps, postgres, add_hints, add_paths,
  has_yezzey_schema, keep_if, yezzey_databases, some_database,
}

pub add_paths-Elem :
    (rows : List (Option Bytes)) (m m' : Maps) (p : Bytes)
    → add_paths rows m ≡ ok m'
    → Elem p m.virtual
    → Elem p m'.virtual
unfolding add_paths
add_paths-Elem [] m m' p h e = subst (λ (n : Maps). Elem p n.virtual) (ok-injective h) e
add_paths-Elem (none ∷ rows) m m' p h e = cc
add_paths-Elem (some path ∷ rows) m m' p h e =
    add_paths-Elem rows (record m { virtual = path ∷ m.virtual }) m' p h (inr e)

pub add_paths-Elem_rows :
    (rows : List (Option Bytes)) (m m' : Maps) (p : Bytes)
    → add_paths rows m ≡ ok m'
    → Elem (some p) rows
    → Elem p m'.virtual
unfolding add_paths
add_paths-Elem_rows [] m m' p h e = absurd e
add_paths-Elem_rows (none ∷ rows) m m' p h e = cc
add_paths-Elem_rows (some path ∷ rows) m m' p h (inl same) =
    add_paths-Elem rows (record m { virtual = path ∷ m.virtual }) m' p h (inl (cc same))
add_paths-Elem_rows (some path ∷ rows) m m' p h (inr e) =
    add_paths-Elem_rows rows (record m { virtual = path ∷ m.virtual }) m' p h e

pub add_hints-virtual :
    (parse_lsn : Bytes → Result Error ℕ) (rows : List (Option ExpireHint)) (m m' : Maps)
    → add_hints parse_lsn rows m ≡ ok m'
    → m.virtual ≡ m'.virtual
unfolding add_hints
add_hints-virtual parse_lsn [] m m' h = ap (λ (n : Maps). n.virtual) (ok-injective h)
add_hints-virtual parse_lsn (none ∷ rows) m m' h = cc
add_hints-virtual parse_lsn (some row ∷ rows) m m' h =
    elim (Result-cases (parse_lsn row.expire_lsn)) [
      | inl (lsn, e) ↦
          add_hints-virtual parse_lsn rows (record m { expire = (row.x_path, lsn) ∷ m.expire }) m'
            (rw (e, add_hints) at h)
      | inr (x, e) ↦ cc (rw (e, add_hints) at h)
    ]

abbrev eqb_name : Option Bytes → Bool
eqb_name none = false
eqb_name (some db) = eqb db postgres

pub yezzey_databases-Elem :
    {Conn : Type 0} (pg : Pg Conn) (test_mode : Bool) (port : ℕ) (rows : List (Option Bytes))
    (found : List Bytes) (db : Bytes)
    → yezzey_databases pg test_mode port rows ≡ ok found
    → Elem (some db) rows
    → eqb db postgres ≡ false
    → has_yezzey_schema pg test_mode port db ≡ ok true
    → Elem db found
unfolding yezzey_databases
yezzey_databases-Elem pg test_mode port [] found db h e other has = absurd e
yezzey_databases-Elem pg test_mode port (none ∷ rows) found db h e other has = cc
yezzey_databases-Elem pg test_mode port (some name ∷ rows) found db h e other has =
    elim (Bool-cases (eqb name postgres)) [
      | inl is ↦ elim e [
        | inl same ↦ cc (sym is ∙ ap (λ (n : Option Bytes). eqb_name n) same ∙ other)
        | inr there ↦
            yezzey_databases-Elem pg test_mode port rows found db (rw (yezzey_databases, is) at h)
              there other has
      ]
      | inr isnt ↦
          let k = rw (yezzey_databases, isnt) at h in
          let (ans, has_ans, k') =
            bind-ok (has_yezzey_schema pg test_mode port name)
              (λ ans.
                yezzey_databases pg test_mode port rows >>= λ found. ok (keep_if ans name found))
              found k in
          let (more, rest, k'') =
            bind-ok (yezzey_databases pg test_mode port rows) (λ found. ok (keep_if ans name found))
              found k' in
          let same_found : keep_if ans name more ≡ found = ok-injective k'' in
          subst (λ (dbs : List Bytes). Elem db dbs) same_found
            (kept ans more has_ans
              (λ there. yezzey_databases-Elem pg test_mode port rows more db rest there other has))
    ]
  where
    kept :
        (ans : Bool) (more : List Bytes)
        → has_yezzey_schema pg test_mode port name ≡ ok ans
        → (Elem (some db) rows → Elem db more)
        → Elem db (keep_if ans name more)
    kept true more is later = elim e [ inl same ↦ inl (cc same) | inr there ↦ inr (later there) ]
    kept false more is later = elim e [
      | inl same ↦
          let named : name ≡ db = cc same in
          cc (sym is ∙ ap (λ (n : Bytes). has_yezzey_schema pg test_mode port n) named ∙ has)
      | inr there ↦ later there
    ]

pub some_database-Elem :
    (paranoid : Bool) (found dbs : List Bytes) (db : Bytes)
    → some_database paranoid found ≡ ok dbs
    → Elem db found
    → Elem db dbs
unfolding some_database
some_database-Elem paranoid [] dbs db h e = absurd e
some_database-Elem paranoid (name ∷ found) dbs db h e =
    subst (λ (ds : List Bytes). Elem db ds) (ok-injective h) e
