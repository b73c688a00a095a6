-- ===== src/Clients/Tests.antt =====
-- One connection that uploads two megabytes.
use yproxy.Base.{◌*◌, refl, [], ◌∷◌, inl}
use yproxy.Clients.{
  System, Reach, start, step, accept, handle, finish, new_client_pool, put, pop, update, delete,
  remove, find_speeds, record_speed, size_to_cat, has_client,
}
use yproxy.Clients.Served.{InPool, Reach-InPool}

abbrev serving : System
serving = record {
  clients = record {
    pool = record { id = 64; op = 44; path = 97 ∷ []; progress = 2 * 1024 * 1024 } ∷ [];
    op_speed = [];
  };
  live = 64 ∷ [];
}

serving-Reach : Reach serving
unfolding put update delete
serving-Reach =
    step _ serving
      (step _ _ start (accept 64 42 (record { clients = new_client_pool; live = [] }) (λ h. h)))
      (handle 64 44 (97 ∷ []) (2 * 1024 * 1024) _ (inl refl))

abbrev ended : System
ended = record { clients = record { pool = []; op_speed = (1, 44) ∷ [] }; live = [] }

ended-Reach : Reach ended
unfolding pop delete remove find_speeds record_speed size_to_cat has_client
ended-Reach = step serving ended serving-Reach (finish 64 serving (inl refl))

Reach-InPool_example : InPool ended
Reach-InPool_example = Reach-InPool ended ended-Reach
