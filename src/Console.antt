-- ===== src/Console.antt =====
-- The console of pkg/core/pg/pg.go, which speaks the protocol of PostgreSQL, over the syntax trees of
-- pkg/core/parser/ast.go. The parser, the connection's framing and the text forms of times and
-- floats are parameters, and so are the configurations and storages of a COPY; a write to the connection succeeds.
pub mod Shown
pub mod Protocol
pub mod Crash
pub mod Session
mod Tests
use yproxy.Base.{
  ℕ, ◌-◌, ◌^◌, Bool, true, false, Option, none, some, List, [], ◌∷◌, ◌++◌, map, ltb, ◌==◌,
  if◌then◌else◌, ◌>>=◌,
}
use yproxy.Bytes.{Bytes, ascii, eqb}
use yproxy.Message.Kind.{MessageType, to_string}
use yproxy.Message.ObjectMeta.{ObjectInfo}
use yproxy.Proc.Effect.{M, Result, ok, err}
use yproxy.Proc.Garbage.Mgr.{Error, ℤ, pos, negsuc}
use yproxy.Proc.Garbage.Paths.{digits, decimal}
use yproxy.Proc.Copy.{CopyLister, Lists, list_files_to_copy}
use yproxy.Clients.{PoolImpl}
use yproxy.Console.Shown.{
  Message, cleartext_password, authentication_ok, row_description, data_row, command_complete,
  error_response, ready_for_query, idle, no_status, column, Texts, answer_error, table, client_row,
  client_fields, quants, stat_fields, known, recorded, quant_to_string, report_quants, process_show,
}

-- The argument of an option; `no_arg` is nil.
pub data Arg : Type 0 where
  sconst : Bytes → Arg
  iconst : ℤ → Arg
  bconst : Bool → Arg
  no_arg : Arg

pub record CopyOption : Type 0 where
  pub name : Bytes
  pub arg : Arg

-- What the parser gives; `no_command` is the nil of an empty text.
pub data Node : Type 0 where
  say_hello : Node
  show : Bytes → Node
  kkb : Node
  copy : Bytes → List CopyOption → Node
  no_command : Node

-- The messages that are sent; a panic; the messages before the process ends.
pub data Answer : Type 0 where
  sent : List Message → Answer
  panicked : Answer
  exits : List Message → Answer

abbrev pub copy_fields : List (Bytes × ℕ)
copy_fields = column (ascii "path") ∷ column (ascii "size") ∷ (ascii "skipped", 16) ∷ []

abbrev pub copy_row : Bytes → ObjectInfo → List Bytes
copy_row skipped o = o.path ∷ decimal o.size ∷ skipped ∷ []

-- The port and the path that the options set; a type assertion on another argument panics.
pub record CopySource : Type 0 where
  pub port : ℤ
  pub old_cfg_path : Bytes

config_option : Arg → CopySource → Option CopySource
config_option (sconst v) s = some (record s { old_cfg_path = v })
config_option a s = none

port_option : Arg → CopySource → Option CopySource
port_option (iconst v) s = some (record s { port = v })
port_option a s = none

unfoldable pub copy_option : (Bytes → Bytes) → CopyOption → CopySource → Option CopySource
unfolding config_option port_option
copy_option to_lower o s =
    if eqb (to_lower o.name) (ascii "config")
    then config_option o.arg s
    else if eqb (to_lower o.name) (ascii "port")
    then port_option o.arg s
    else some s

unfoldable pub copy_options : (Bytes → Bytes) → List CopyOption → CopySource → Option CopySource
unfolding copy_option
copy_options to_lower [] s = some s
copy_options to_lower (o ∷ options) s = do
  t ← copy_option to_lower o s
  copy_options to_lower options t

abbrev pub default_source : CopySource
default_source = record { port = pos 6000; old_cfg_path = ascii "/etc/yproxy/yproxy.yaml" }

-- uint64 of an int
abbrev pub to_uint64 : ℤ → ℕ
to_uint64 (pos n) = n
to_uint64 (negsuc n) = 2 ^ 64 - 1 - n

-- How a call of ListFilesToCopy breaks off: with an error, or with a panic, as on a key that is the
-- prefix of its storage.
pub data Fault : Type 0 where
  failed : Error → Fault
  panic : Fault

-- The configuration of the instance that is copied from, and what ListFilesToCopy calls of its
-- storages.
pub record ConsoleEnv (W Cnf : Type 0) : Type 0 where
  pub read_instance_config : Bytes → M W Error Cnf
  pub new_lister : Cnf → Result Error (CopyLister W Fault)

module _ {W Cnf : Type 0} (env : ConsoleEnv W Cnf) where
  listed_rows : Result Fault Lists × W → Option (List (List Bytes)) × W
  listed_rows (err (failed e), w) = (some [], w)
  listed_rows (err panic, w) = (none, w)
  listed_rows (ok lists, w) = (
    some (map (copy_row (ascii "f")) lists.to_copy ++ map (copy_row (ascii "t")) lists.skipped),
    w,
  )

  opened_rows : Bytes → ℕ → Result Error (CopyLister W Fault) → W → Option (List (List Bytes)) × W
  unfolding listed_rows
  opened_rows prefix port (err e) w = (some [], w)
  opened_rows prefix port (ok lister) w = listed_rows (list_files_to_copy lister prefix port w)

  configured_rows : Bytes → ℕ → Result Error Cnf × W → Option (List (List Bytes)) × W
  unfolding opened_rows
  configured_rows prefix port (err e, w) = (some [], w)
  configured_rows prefix port (ok cnf, w) = opened_rows prefix port (env.new_lister cnf) w

  -- The rows of ProcessCopy, or a panic; the caller looks at no error of it.
  unfoldable pub process_copy : Bytes → ℕ → Bytes → W → Option (List (List Bytes)) × W
  unfolding configured_rows
  process_copy prefix port old_cfg_path w =
      configured_rows prefix port (env.read_instance_config old_cfg_path w)

  module _ (t : Texts) (p : PoolImpl) where
    copied_rows : Option (List (List Bytes)) → Answer
    copied_rows none = panicked
    copied_rows (some rows) = sent (table copy_fields rows (ascii "COPY"))

    answer_copy : Bytes → Option CopySource → W → Answer × W
    unfolding copied_rows
    answer_copy path none w = (panicked, w)
    answer_copy path (some s) w =
        let (rows, w') = process_copy path (to_uint64 s.port) s.old_cfg_path w in
        (copied_rows rows, w')

    -- The switch on the node. A kkb command ends the process five seconds later.
    unfoldable pub answer_node : Node → W → Answer × W
    unfolding answer_copy process_show
    answer_node say_hello w =
        (sent (table (column (ascii "row") ∷ []) ((ascii "hi" ∷ []) ∷ []) (ascii "YPROXYHELLO")), w)
    answer_node (show type) w = (sent (process_show t p type), w)
    answer_node (copy path options) w =
        answer_copy path (copy_options t.to_lower options default_source) w
    answer_node kkb w =
        (exits (table (column (ascii "row") ∷ []) ((ascii "exit" ∷ []) ∷ []) (ascii "EXIT")), w)
    answer_node no_command w = (sent (answer_error (ascii "unknown command") idle), w)

    -- A query, by what the parser makes of it
    unfoldable pub answer_query : Result Error Node → W → Answer × W
    unfolding answer_node
    answer_query (err e) w = (sent (answer_error (t.failed_to_parse e) no_status), w)
    answer_query (ok node) w = answer_node node w

-- What a client sends at first, and what in the main cycle; `parsed` is a query by its tree.
pub data Startup : Type 0 where
  ssl_request startup_message other_startup : Startup

pub data Frontend : Type 0 where
  parsed : Result Error Node → Frontend
  other_message : Frontend

pub data Ended : Type 0 where
  closed crashed exited : Ended

-- The messages before the main cycle, and whether it is reached: an SSL request is answered by the
-- byte `N`, and `password` is whether a message follows, of which nothing is looked at.
unfoldable pub start_session : List Startup → Bool → Bytes × List Message × Bool
start_session [] password = ([], [], false)
start_session (ssl_request ∷ more) password =
    let (n, messages, reached) = start_session more password in (ascii "N" ++ n, messages, reached)
start_session (startup_message ∷ more) password =
    if password
    then ([], cleartext_password ∷ authentication_ok ∷ ready_for_query idle ∷ [], true)
    else ([], cleartext_password ∷ [], false)
start_session (other_startup ∷ more) password = ([], [], false)

module _ {W Cnf : Type 0} (env : ConsoleEnv W Cnf) (t : Texts) (pool : W → PoolImpl) where
  resumed : Answer × W → (W → List Message × Ended × W) → List Message × Ended × W
  resumed (sent ms, w) more = let (later, end, w') = more w in (ms ++ later, end, w')
  resumed (panicked, w) more = ([], crashed, w)
  resumed (exits ms, w) more = (ms, exited, w)

  -- The main cycle, until the client closes the connection. A message that is no query is logged.
  unfoldable pub main_cycle : List Frontend → W → List Message × Ended × W
  unfolding resumed
  main_cycle [] w = ([], closed, w)
  main_cycle (parsed q ∷ more) w = resumed (answer_query env t (pool w) q w) (main_cycle more)
  main_cycle (other_message ∷ more) w = main_cycle more w
