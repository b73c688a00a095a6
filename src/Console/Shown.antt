-- ===== src/Console/Shown.antt =====
-- The messages of pkg/core/pg/pg.go, and its SHOW commands, over the client pool of pkg/clientpool.
use yproxy.Base.{ℕ, Bool, true, false, List, [], ◌∷◌, ◌++◌, map, ◌==◌, if◌then◌else◌}
use yproxy.Bytes.{Bytes, ascii, eqb}
use yproxy.Message.Kind.{MessageType, to_string}
use yproxy.Proc.Garbage.Mgr.{Error}
use yproxy.Proc.Garbage.Paths.{digits, decimal}
use yproxy.Clients.{YClient, PoolImpl}

-- The messages that the server sends. A column has a name and the id of its type.
pub data Message : Type 0 where
  cleartext_password authentication_ok : Message
  row_description : List (Bytes × ℕ) → Message
  data_row : List Bytes → Message
  command_complete : Bytes → Message
  error_response : Bytes → Message
  ready_for_query : ℕ → Message

-- `I`, and the zero value
abbrev pub idle : ℕ
idle = 73

abbrev pub no_status : ℕ
no_status = 0

abbrev pub column : Bytes → Bytes × ℕ
column name = (name, 25)

-- The texts that the model takes as they come.
pub record Texts : Type 0 where
  -- fmt.Sprintf("failed to parse query: %v", err), and %v of OPStart and of the instance's start
  pub failed_to_parse : Error → Bytes
  pub op_start : YClient → Bytes
  pub start_time : Bytes
  pub storage_concurrency : Bytes
  -- %v of a quantile of the speeds of an operation in a size category
  pub quantile : ℕ → Bytes → Bytes → Bytes
  -- strings.ToLower
  pub to_lower : Bytes → Bytes

abbrev pub answer_error : Bytes → ℕ → List Message
answer_error e status = error_response e ∷ ready_for_query status ∷ []

-- A table with its tag
abbrev pub table : List (Bytes × ℕ) → List (List Bytes) → Bytes → List Message
table fields rows tag =
    row_description fields
    ∷ (map data_row rows ++ (command_complete tag ∷ ready_for_query idle ∷ []))

abbrev pub client_row : Texts → YClient → List Bytes
client_row t c =
    ascii (to_string c.op) ∷ digits 20 c.id ∷ decimal c.progress ∷ t.op_start c ∷ c.path ∷ []

abbrev pub client_fields : List (Bytes × ℕ)
client_fields =
    column (ascii "opType")
    ∷ column (ascii "client_id")
    ∷ column (ascii "byte offset")
    ∷ column (ascii "opstart")
    ∷ column (ascii "xpath")
    ∷ []

-- The quantiles, as fmt's %v writes them
abbrev pub quants : List Bytes
quants =
    ascii "0.001"
    ∷ ascii "0.01"
    ∷ ascii "0.1"
    ∷ ascii "0.25"
    ∷ ascii "0.5"
    ∷ ascii "0.75"
    ∷ ascii "0.9"
    ∷ ascii "0.99"
    ∷ ascii "0.999"
    ∷ []

abbrev pub stat_fields : List (Bytes × ℕ)
stat_fields =
    column (ascii "opType")
    ∷ column (ascii "size category")
    ∷ map (λ q. column (ascii "quantiles_" ++ q)) quants

pub known : Bytes → List Bytes → Bool
known op [] = false
known op (o ∷ ops) = let later = known op ops in if eqb o op then true else later

-- The operations of a size category: the keys of the map of its digests
unfoldable pub recorded : ℕ → List (ℕ × MessageType) → List Bytes
unfolding known
recorded ct [] = []
recorded ct ((k, op) ∷ speeds) =
    let ops = recorded ct speeds in
    let name = ascii (to_string op) in
    if k == ct then (if known name ops then ops else name ∷ ops) else ops

-- quantToString, of the categories that there are
abbrev pub quant_to_string : ℕ → Bytes
quant_to_string ct =
    if ct == 0
    then ascii "< 1 MB"
    else if ct == 1
    then ascii "< 16 MB"
    else if ct == 2
    then ascii ">= 16 MB"
    else []

-- reportQuants of Quantile
unfoldable pub report_quants : Texts → List (ℕ × MessageType) → ℕ → List (List Bytes)
unfolding recorded
report_quants t speeds ct =
    map (λ op. op ∷ quant_to_string ct ∷ map (λ q. t.quantile ct op q) quants) (recorded ct speeds)

-- ProcessShow, where the callbacks of ClientPoolForeach run one after the other
unfoldable pub process_show : Texts → PoolImpl → Bytes → List Message
unfolding report_quants
process_show t p type =
    if eqb type (ascii "clients")
    then table client_fields (map (client_row t) p.pool) (ascii "CLIENTS")
    else if eqb type (ascii "stats")
    then table stat_fields
        (report_quants t p.op_speed 0
          ++ (report_quants t p.op_speed 1 ++ report_quants t p.op_speed 2))
        (ascii "STATS")
    else if eqb type (ascii "stat_system")
    then table (column (ascii "start time") ∷ column (ascii "storage concurrency") ∷ [])
        ((t.start_time ∷ t.storage_concurrency ∷ []) ∷ []) (ascii "STATS")
    else answer_error (ascii "unrecognized SHOW type") idle
