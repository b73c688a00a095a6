-- ===== src/Console/Protocol.antt =====
-- The answers of pkg/core/pg/pg.go keep to the protocol.
use yproxy.Base.{
  ℕ, ◌≡◌, refl, List, [], ◌∷◌, ◌++◌, map, length, All, Bool-cases, inl, inr, none, some, Option,
}
use yproxy.Bytes.{Bytes, ascii, eqb}
use yproxy.Proc.Effect.{Result, ok, err}
use yproxy.Proc.Garbage.Mgr.{Error}
use yproxy.Proc.Copy.{CopyLister, Lists}
use yproxy.Clients.{PoolImpl}
use yproxy.Console.{
  Answer, ConsoleEnv, Fault, failed, panic, copied_rows, CopySource, Node, answer_copy, answer_node,
  answer_query, configured_rows, copy_fields, copy_row, listed_rows, opened_rows, process_copy,
  sent, panicked, exits, to_uint64, say_hello, show, copy, kkb, no_command,
}
use yproxy.Console.Shown.{
  Message, Texts, answer_error, client_fields, client_row, process_show, recorded, report_quants,
  stat_fields, table, no_status,
}

-- A row for each column
abbrev pub Wide : List (Bytes × ℕ) → List (List Bytes) → Type 0
Wide fields = All (λ r. length r ≡ length fields)

-- An answer is an error, or a table each row of which has a value for each column; and then the
-- server is ready, once.
pub data IsAnswer : List Message → Type 0 where
  error : (text : Bytes) (status : ℕ) → IsAnswer (answer_error text status)
  rows :
      (fields : List (Bytes × ℕ)) (rows : List (List Bytes)) (tag : Bytes)
      → Wide fields rows
      → IsAnswer (table fields rows tag)

abbrev pub Answers : Answer → Type 0
Answers (sent ms) = IsAnswer ms
Answers panicked = Unit
Answers (exits ms) = IsAnswer ms

All-append :
    {A : Type 0} (P : A → Type 0) (xs : List A)
    → All P xs
    → (ys : List A) → All P ys
    → All P (xs ++ ys)
All-append P [] hx ys hy = hy
All-append P (x ∷ xs) hx ys hy = (hx.0, All-append P xs hx.1 ys hy)

All-map :
    {A B : Type 0} (P : B → Type 0) (f : A → B) (xs : List A)
    → ((x : A) → P (f x))
    → All P (map f xs)
All-map P f [] h = tt
All-map P f (x ∷ xs) h = (h x, All-map P f xs h)

report_quants-Wide :
    (t : Texts) (speeds : List (ℕ × ℕ)) (ct : ℕ) → Wide stat_fields (report_quants t speeds ct)
unfolding report_quants
report_quants-Wide t speeds ct = All-map _ _ (recorded ct speeds) (λ op. refl)

one_row-IsAnswer :
    (fields : List (Bytes × ℕ)) (row : List Bytes) (tag : Bytes)
    → length row ≡ length fields
    → IsAnswer (table fields (row ∷ []) tag)
one_row-IsAnswer fields row tag h = rows fields (row ∷ []) tag (h, tt)

reports-Wide :
    (t : Texts) (speeds : List (ℕ × ℕ))
    → Wide stat_fields
        (report_quants t speeds 0 ++ (report_quants t speeds 1 ++ report_quants t speeds 2))
reports-Wide t speeds = All-append _ (report_quants t speeds 0) (report_quants-Wide t speeds 0) _ (
    All-append _ (report_quants t speeds 1) (report_quants-Wide t speeds 1) _
      (report_quants-Wide t speeds 2))

process_show-IsAnswer : (t : Texts) (p : PoolImpl) (type : Bytes) → IsAnswer (process_show t p type)
unfolding process_show
process_show-IsAnswer t p type = elim (Bool-cases (eqb type (ascii "clients"))) [
  | inl e ↦ rw e (rows client_fields _ _ (All-map _ (client_row t) p.pool (λ c. refl)))
  | inr e ↦ elim (Bool-cases (eqb type (ascii "stats"))) [
    | inl e' ↦ rw (e, e') (rows stat_fields _ _ (reports-Wide t p.op_speed))
    | inr e' ↦ elim (Bool-cases (eqb type (ascii "stat_system"))) [
      | inl e'' ↦ rw (e, e', e'') (one_row-IsAnswer _ _ _ refl)
      | inr e'' ↦ rw (e, e', e'') (error _ _)
    ]
  ]
]

module _ {W Cnf : Type 0} (env : ConsoleEnv W Cnf) where
  -- The rows, where no panic comes first
  abbrev CopyRows : Option (List (List Bytes)) → Type 0
  CopyRows none = Unit
  CopyRows (some r) = Wide copy_fields r

  listed_rows-Wide : (lw : Result Fault Lists × W) → CopyRows (listed_rows env lw).0
  unfolding listed_rows
  listed_rows-Wide (err (failed e), w) = tt
  listed_rows-Wide (err panic, w) = tt
  listed_rows-Wide (ok lists, w) =
      All-append _ (map (copy_row (ascii "f")) lists.to_copy)
        (All-map _ _ lists.to_copy (λ o. refl)) _ (All-map _ _ lists.skipped (λ o. refl))

  opened_rows-Wide :
      (prefix : Bytes) (port : ℕ) (lister : Result Error (CopyLister W Fault)) (w : W)
      → CopyRows (opened_rows env prefix port lister w).0
  unfolding opened_rows
  opened_rows-Wide prefix port (err e) w = tt
  opened_rows-Wide prefix port (ok lister) w = listed_rows-Wide _

  configured_rows-Wide :
      (prefix : Bytes) (port : ℕ) (cw : Result Error Cnf × W)
      → CopyRows (configured_rows env prefix port cw).0
  unfolding configured_rows
  configured_rows-Wide prefix port (err e, w) = tt
  configured_rows-Wide prefix port (ok cnf, w) = opened_rows-Wide prefix port _ w

  process_copy-Wide :
      (prefix : Bytes) (port : ℕ) (path : Bytes) (w : W)
      → CopyRows (process_copy env prefix port path w).0
  unfolding process_copy
  process_copy-Wide prefix port path w = configured_rows-Wide prefix port _

  module _ (t : Texts) (p : PoolImpl) where
    copied_rows-Answers :
        (r : Option (List (List Bytes))) → CopyRows r → Answers (copied_rows env t p r)
    unfolding copied_rows
    copied_rows-Answers none h = tt
    copied_rows-Answers (some r) h = rows copy_fields r _ h

    answer_copy-Answers :
        (path : Bytes) (s : Option CopySource) (w : W) → Answers (answer_copy env t p path s w).0
    unfolding answer_copy
    answer_copy-Answers path none w = tt
    answer_copy-Answers path (some s) w =
        copied_rows-Answers _ (process_copy-Wide path (to_uint64 s.port) s.old_cfg_path w)

    answer_node-Answers : (node : Node) (w : W) → Answers (answer_node env t p node w).0
    unfolding answer_node
    answer_node-Answers say_hello w = one_row-IsAnswer _ _ _ refl
    answer_node-Answers (show type) w = process_show-IsAnswer t p type
    answer_node-Answers (copy path options) w = answer_copy-Answers path _ w
    answer_node-Answers kkb w = one_row-IsAnswer _ _ _ refl
    answer_node-Answers no_command w = error _ _

    -- Whatever the parser makes of a query, what is sent for it is an error, or a table each row of
    -- which has one value for each column, followed by the end of the command; and then one message
    -- that the server is ready, the last one. Unless a panic ends the server first.
    pub answer_query-Answers :
        (q : Result Error Node) (w : W) → Answers (answer_query env t p q w).0
    unfolding answer_query
    answer_query-Answers (err e) w = error _ no_status
    answer_query-Answers (ok node) w = answer_node-Answers node w
