-- ===== src/Storage/Sessions.antt =====
-- GetSession of pkg/storage/sessionpool.go: how many callers make a session at a time, and the
-- number of used connections that the pool shows. The callers are counted by where they stand.
use yproxy.Base.{ℕ, zero, suc, ◌+◌, ◌≤◌, ◌<◌, ◌≡◌, refl, arith}

-- `acquired` have a permit of the semaphore, `counted` have one and are in the number of used
-- connections, and `released` are in the number and have given their permit back.
pub record Pool : Type 0 where
  pub acquired : ℕ
  pub counted : ℕ
  pub released : ℕ
  pub used_connections : ℕ

abbrev pub new_pool : Pool
new_pool = record { acquired = 0; counted = 0; released = 0; used_connections = 0 }

-- The steps of a caller; a semaphore of weight `concurrency` gives a permit while one is left.
pub data Step (concurrency : ℕ) : Pool → Pool → Type 0 where
  acquire :
      (a c r u : ℕ)
      → a + c < concurrency
      → Step concurrency
          (record { acquired = a; counted = c; released = r; used_connections = u })
          (record { acquired = suc a; counted = c; released = r; used_connections = u })
  add_one :
      (a c r u : ℕ)
      → Step concurrency
          (record { acquired = suc a; counted = c; released = r; used_connections = u })
          (record { acquired = a; counted = suc c; released = r; used_connections = suc u })
  release :
      (a c r u : ℕ)
      → Step concurrency
          (record { acquired = a; counted = suc c; released = r; used_connections = u })
          (record { acquired = a; counted = c; released = suc r; used_connections = u })
  take_one :
      (a c r u : ℕ)
      → Step concurrency
          (record { acquired = a; counted = c; released = suc r; used_connections = suc u })
          (record { acquired = a; counted = c; released = r; used_connections = u })

pub data Reach (concurrency : ℕ) : Pool → Type 0 where
  start : Reach concurrency new_pool
  step : (p q : Pool) → Reach concurrency p → Step concurrency p q → Reach concurrency q

pub record Counts (concurrency : ℕ) (p : Pool) : Type 0 where
  pub permits : p.acquired + p.counted ≤ concurrency
  pub used : p.used_connections ≡ p.counted + p.released

Step-Counts :
    (concurrency : ℕ) (p q : Pool)
    → Step concurrency p q
    → Counts concurrency p
    → Counts concurrency q
Step-Counts concurrency _ _ (acquire a c r u free) k = record {
  permits = omega (arith, free);
  used = k.used;
}
Step-Counts concurrency _ _ (add_one a c r u) k = record {
  permits = omega (arith, k.permits);
  used = omega (arith, k.used);
}
Step-Counts concurrency _ _ (release a c r u) k = record {
  permits = omega (arith, k.permits);
  used = omega (arith, k.used);
}
Step-Counts concurrency _ _ (take_one a c r u) k = record {
  permits = k.permits;
  used = omega (arith, k.used);
}

-- Never do more callers make a session at a time than the semaphore allows, and the number of used
-- connections that is shown is that of the callers that have been added and not taken off again.
pub Reach-Counts : (concurrency : ℕ) (p : Pool) → Reach concurrency p → Counts concurrency p
Reach-Counts concurrency _ start = record { permits = omega arith; used = refl }
Reach-Counts concurrency _ (step p q reached s) =
    Step-Counts concurrency p q s (Reach-Counts concurrency p reached)

all_counted :
    (concurrency n : ℕ)
    → n ≤ concurrency
    → Reach concurrency (record { acquired = 0; counted = n; released = 0; used_connections = n })
all_counted concurrency zero h = start
all_counted concurrency (suc n) h =
    step _ _ (step _ _ (all_counted concurrency n (omega arith)) (acquire 0 n 0 n (omega arith)))
      (add_one 0 n 0 n)

-- The number of used connections that is shown can exceed the limit of the storage: a caller gives
-- its permit back before it is taken off the number, so that with any limit but 0 a state is
-- reached that shows one connection more.
pub used_connections-over :
    (concurrency : ℕ)
    → 0 < concurrency
    → (p : Pool) × Reach concurrency p × (p.used_connections ≡ suc concurrency)
used_connections-over zero h = absurd (omega arith)
used_connections-over (suc n) h = (
  _,
  step _ _
      (step _ _ (step _ _ (all_counted (suc n) (suc n) (omega arith)) (release 0 n 0 (suc n)))
        (acquire 0 n 1 (suc n) (omega arith)))
      (add_one 0 n 1 (suc n)),
  refl,
)
