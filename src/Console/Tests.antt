-- ===== src/Console/Tests.antt =====
-- The console, with a client in the pool and an empty storage.
use yproxy.Base.{ℕ, ◌≡◌, ◌↔◌, ◌⊎◌, true, refl, List, [], ◌∷◌}
use yproxy.Bytes.{ascii}
use yproxy.Message.Kind.{message_type_cat}
use yproxy.Proc.Effect.{ok, err}
use yproxy.Proc.Garbage.Mgr.{text, pos}
use yproxy.Clients.{PoolImpl}
use yproxy.Console.{
  ConsoleEnv, process_copy, copy_options, sconst, iconst, CopyOption, panicked, show, copy, closed,
  Frontend, parsed, other_message, answer_query, main_cycle, start_session, ssl_request,
  startup_message,
}
use yproxy.Console.Shown.{Texts, idle, cleartext_password, authentication_ok, ready_for_query}
use yproxy.Console.Protocol.{Answers, answer_query-Answers}
use yproxy.Console.Session.{Dialogue, readies, queries, main_cycle-Dialogue}
use yproxy.Console.Crash.{HasBad, ListPanics, answer_query-panicked}

abbrev env : ConsoleEnv ℕ ℕ
env = record {
  read_instance_config = λ path w. (err (text "no such file"), w);
  new_lister = λ cnf. err (text "no storage");
}

abbrev texts : Texts
texts = record {
  failed_to_parse = λ e. ascii "failed to parse query";
  op_start = λ c. [];
  start_time = ascii "today";
  storage_concurrency = ascii "100";
  quantile = λ ct op q. ascii "1";
  to_lower = λ name. name;
}

abbrev pool : PoolImpl
pool = record {
  pool = record { id = 7; op = message_type_cat; path = ascii "a"; progress = 3 } ∷ [];
  op_speed = (0, message_type_cat) ∷ [];
}

abbrev told : List Frontend
told =
    parsed (ok (show (ascii "clients")))
    ∷ other_message
    ∷ parsed (err (text "syntax error"))
    ∷ parsed (ok (copy (ascii "p") (record { name = ascii "port"; arg = iconst (pos 5432) } ∷ [])))
    ∷ parsed (ok (show (ascii "stats")))
    ∷ []

started :
    start_session (ssl_request ∷ startup_message ∷ []) true
    ≡ (ascii "N", cleartext_password ∷ authentication_ok ∷ ready_for_query idle ∷ [], true)
unfolding start_session
started = refl

ends : (main_cycle env texts (λ w. pool) told 0).1 ≡ closed
unfolding main_cycle answer_query copy_options process_copy
ends = refl

main_cycle-Dialogue_example :
    Dialogue told (main_cycle env texts (λ w. pool) told 0).0
    × (readies (main_cycle env texts (λ w. pool) told 0).0 ≡ queries told)
main_cycle-Dialogue_example = main_cycle-Dialogue env texts (λ w. pool) told 0 ends

answer_query-Answers_example : Answers (answer_query env texts pool (ok (show (ascii "stats"))) 0).0
answer_query-Answers_example = answer_query-Answers env texts pool (ok (show (ascii "stats"))) 0

abbrev wrong : List CopyOption
wrong = record { name = ascii "port"; arg = sconst (ascii "5432") } ∷ []

answer_query-panicked_example :
    ((answer_query env texts pool (ok (copy (ascii "p") wrong)) 0).0 ≡ panicked)
    ↔ (HasBad texts.to_lower wrong ⊎ ListPanics env texts.to_lower (ascii "p") wrong 0)
answer_query-panicked_example = answer_query-panicked env texts pool (ascii "p") wrong 0
