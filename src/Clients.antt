-- ===== src/Clients.antt =====
-- The pool of clients (pkg/clientpool/client_pool.go), the client object (pkg/client/client.go),
-- and how core.go serves a connection: Put, ProcConn, Pop.
pub mod Served
mod Tests
use yproxy.Base.{
  ℕ, suc, ◌+◌, ◌*◌, ◌^◌, ◌≤◌, ◌<◌, ◌≡◌, ◌≢◌, refl, ◌⊎◌, Bool, true, false, ◌&&◌, List, [], ◌∷◌,
  Elem, map, ltb, ◌==◌, if◌then◌else◌,
}
use yproxy.Bytes.{Bytes}
use yproxy.Message.Kind.{MessageType}

-- YClient without its connection; `progress` is the bit pattern of an int64.
pub record YClient : Type 0 where
  pub id : ℕ
  pub op : MessageType
  pub path : Bytes
  pub progress : ℕ

-- SizeToCat of a size that is not negative
unfoldable pub size_to_cat : ℕ → ℕ
size_to_cat sz = if ltb sz (1024 * 1024) then 0 else if ltb sz (16 * 1024 * 1024) then 1 else 2

-- The clients, and the size category and the type of each operation whose speed was recorded.
pub record PoolImpl : Type 0 where
  pub pool : List YClient
  pub op_speed : List (ℕ × MessageType)

abbrev pub new_client_pool : PoolImpl
new_client_pool = record { pool = []; op_speed = [] }

unfoldable pub delete : ℕ → List YClient → List YClient
delete id [] = []
delete id (c ∷ cs) = let rest = delete id cs in if c.id == id then rest else c ∷ rest

-- The client of the map is replaced.
unfoldable pub put : YClient → PoolImpl → PoolImpl
unfolding delete
put c p = record p { pool = c ∷ delete c.id p.pool }

-- Only a positive offset is recorded.
unfoldable pub record_speed : YClient → List (ℕ × MessageType) → List (ℕ × MessageType)
unfolding size_to_cat
record_speed c speeds =
    if ltb 0 c.progress && ltb c.progress (2 ^ 63)
    then (size_to_cat c.progress, c.op) ∷ speeds
    else speeds

unfoldable pub find_speeds : ℕ → List YClient → List (ℕ × MessageType) → List (ℕ × MessageType)
unfolding record_speed
find_speeds id [] speeds = speeds
find_speeds id (c ∷ cs) speeds =
    let rest = find_speeds id cs speeds in if c.id == id then record_speed c speeds else rest

unfoldable pub has_client : ℕ → List YClient → Bool
has_client id [] = false
has_client id (c ∷ cs) = let rest = has_client id cs in if c.id == id then true else rest

-- Pop: whether the client was found, and the pool without it
unfoldable pub pop : ℕ → PoolImpl → Bool × PoolImpl
unfolding find_speeds delete has_client
pop id p =
    if has_client id p.pool
    then (true, record { pool = delete id p.pool; op_speed = find_speeds id p.pool p.op_speed })
    else (false, p)

-- The client object is shared: what its handler sets shows in the pool.
unfoldable pub update : ℕ → MessageType → Bytes → ℕ → List YClient → List YClient
update id op path progress [] = []
update id op path progress (c ∷ cs) =
    let rest = update id op path progress cs in
    if c.id == id
    then record { id = c.id; op = op; path = path; progress = progress } ∷ rest
    else c ∷ rest

-- The pool and the connections that are served.
pub record System : Type 0 where
  pub clients : PoolImpl
  pub live : List ℕ

unfoldable pub remove : ℕ → List ℕ → List ℕ
remove id [] = []
remove id (k ∷ ks) = let rest = remove id ks in if k == id then rest else k ∷ rest

-- A connection is accepted with a new client object, its handler sets the fields of this object,
-- and it ends. The id of a client is its address, which no other live object has.
pub data Step : System → System → Type 0 where
  accept :
      (id : ℕ) (op : MessageType) (s : System)
      → (Elem id s.live → ⊥)
      → Step s (record {
        clients = put (record { id = id; op = op; path = []; progress = 0 }) s.clients;
        live = id ∷ s.live;
      })
  handle :
      (id : ℕ) (op : MessageType) (path : Bytes) (progress : ℕ) (s : System)
      → Elem id s.live
      → Step s (record s {
        clients = record {
          pool = update id op path progress s.clients.pool;
          op_speed = s.clients.op_speed;
        };
      })
  finish :
      (id : ℕ) (s : System)
      → Elem id s.live
      → Step s (record { clients = (pop id s.clients).1; live = remove id s.live })

pub data Reach : System → Type 0 where
  start : Reach (record { clients = new_client_pool; live = [] })
  step : (s t : System) → Reach s → Step s t → Reach t
