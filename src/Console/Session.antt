-- ===== src/Console/Session.antt =====
-- What pkg/core/pg/pg.go answers in its main cycle.
use yproxy.Base.{ℕ, suc, ◌+◌, ◌≡◌, refl, arith, List, [], ◌∷◌, ◌++◌, map}
use yproxy.Bytes.{Bytes}
use yproxy.Proc.Effect.{Result}
use yproxy.Proc.Garbage.Mgr.{Error}
use yproxy.Clients.{PoolImpl}
use yproxy.Console.{
  ConsoleEnv, Node, Answer, sent, panicked, exits, Ended, closed, Frontend, parsed, other_message,
  answer_query, resumed, main_cycle,
}
use yproxy.Console.Shown.{Message, ready_for_query, command_complete, data_row, Texts, idle}
use yproxy.Console.Protocol.{IsAnswer, error, rows, Answers, answer_query-Answers}

is_ready : Message → ℕ
is_ready (ready_for_query status) = 1
is_ready m = 0

-- The messages among them that the server is ready
pub readies : List Message → ℕ
unfolding is_ready
readies [] = 0
readies (m ∷ ms) = is_ready m + readies ms

-- The queries among what a client sends
pub queries : List Frontend → ℕ
queries [] = 0
queries (parsed q ∷ more) = suc (queries more)
queries (other_message ∷ more) = queries more

readies-append : (ms more : List Message) → readies (ms ++ more) ≡ readies ms + readies more
unfolding readies
readies-append [] more = omega arith
readies-append (m ∷ ms) more = let ih = readies-append ms more in omega arith

readies-rows :
    (values : List (List Bytes)) (tag : Bytes)
    → readies (map data_row values ++ (command_complete tag ∷ ready_for_query idle ∷ [])) ≡ 1
unfolding readies
readies-rows [] tag = refl
readies-rows (v ∷ values) tag = let ih = readies-rows values tag in omega arith

readies-IsAnswer : {ms : List Message} → IsAnswer ms → readies ms ≡ 1
unfolding readies
readies-IsAnswer (error text status) = refl
readies-IsAnswer (rows fields values tag wide) = let ih = readies-rows values tag in omega arith

-- What a client sends, and what it is answered: a whole answer for each query, before the next
-- message is looked at, and nothing for each other message.
pub data Dialogue : List Frontend → List Message → Type 0 where
  nothing : Dialogue [] []
  answered :
      {q : Result Error Node} {more : List Frontend} {ms later : List Message}
      → IsAnswer ms
      → Dialogue more later
      → Dialogue (parsed q ∷ more) (ms ++ later)
  ignored :
      {more : List Frontend} {later : List Message}
      → Dialogue more later
      → Dialogue (other_message ∷ more) later

readies-Dialogue :
    {sent_in : List Frontend} {ms : List Message}
    → Dialogue sent_in ms
    → readies ms ≡ queries sent_in
unfolding readies queries
readies-Dialogue nothing = refl
readies-Dialogue (answered {ms = ms} {later = later} one rest) =
    let split = readies-append ms later in
    let ready = readies-IsAnswer one in let ih = readies-Dialogue rest in omega arith
readies-Dialogue (ignored rest) = readies-Dialogue rest

module _ {W Cnf : Type 0} (env : ConsoleEnv W Cnf) (t : Texts) (pool : W → PoolImpl) where
  resumed-Dialogue :
      (q : Result Error Node) (fs : List Frontend) (a : Answer × W)
      (more : W → List Message × Ended × W)
      → Answers a.0
      → ((w : W) → (more w).1 ≡ closed → Dialogue fs (more w).0)
      → (resumed env t pool a more).1 ≡ closed
      → Dialogue (parsed q ∷ fs) (resumed env t pool a more).0
  unfolding resumed
  resumed-Dialogue q fs (sent ms, w) more h ih e = answered h (ih w e)
  resumed-Dialogue q fs (panicked, w) more h ih e = cc
  resumed-Dialogue q fs (exits ms, w) more h ih e = cc

  cycle-Dialogue :
      (sent_in : List Frontend) (w : W)
      → (main_cycle env t pool sent_in w).1 ≡ closed
      → Dialogue sent_in (main_cycle env t pool sent_in w).0
  unfolding main_cycle
  cycle-Dialogue [] w e = nothing
  cycle-Dialogue (parsed q ∷ more) w e =
      resumed-Dialogue q more (answer_query env t (pool w) q w) (main_cycle env t pool more)
        (answer_query-Answers env t (pool w) q w) (cycle-Dialogue more) e
  cycle-Dialogue (other_message ∷ more) w e = ignored (cycle-Dialogue more w e)

  -- In the main cycle of a connection that the client closes, each query, whether the parser took
  -- it or not, is answered by an error or a table with the end of the command and then one
  -- message that the server is ready, in the order of the queries, and each other message by
  -- nothing; so this cycle says as often that it is ready as there are queries.
  pub main_cycle-Dialogue :
      (sent_in : List Frontend) (w : W)
      → (main_cycle env t pool sent_in w).1 ≡ closed
      → Dialogue sent_in (main_cycle env t pool sent_in w).0
        × (readies (main_cycle env t pool sent_in w).0 ≡ queries sent_in)
  main_cycle-Dialogue sent_in w e =
      let told = cycle-Dialogue sent_in w e in (told, readies-Dialogue told)
