-- ===== src/Pool/Tests.antt =====
-- Small runs of a pool (crates/havuz-pool/src/pool.rs).
use havuz.Base.{
  List, ℕ, ◌+◌, ◌%◌, ◌^◌, ◌≤◌, ◌≡◌, refl, true, false, none, some, [], ◌∷◌, length, arith,
}
use havuz.Counters.{Counters, default, snapshot}
use havuz.Pool.{Pool, PoolLimits, PoolStatus, Conn, Slot, new, active, unusable, is_expired, report}
use havuz.Pool.Checkout.{
  give_back, free_permit, leave, connect_refused, enter, granted, connected, acquire, permit,
  opened, refused, err, Connect, unavailable,
}
use havuz.Pool.Admin.{drain, close}
use havuz.Pool.World.{
  World, Step, Reach, arrives, acts, operates, initial, waiting, permitted, connecting, holding,
  grant, look, connect, drops, frees, semaphore_closed, Task, act, Replace, here, start, resumes,
  reaps,
}
use havuz.Pool.World
use havuz.Pool.Counting.{live_of, permit_of, held_by, total}
use havuz.Pool.Capacity.{capacity, permits_return, ledger}
use havuz.Pool.Ownership.{copies, among, shelved}
use havuz.Pool.Exclusive.{FreshReach, none_yet, then_, forget_fresh, exclusive}
use havuz.Pool.Accounts.{acquire_accounts}
use havuz.Pool.Race.{decide_return, count_idle, push_idle, drain_misses_return}
use havuz.Pool.Closed.{close_is_final}
use havuz.Pool.Warmup.{Attempt, warmup, failed}

abbrev limits : PoolLimits
limits = record {
  max_size = 3;
  min_idle = 2;
  max_client_connections = 100;
  queue_timeout = 1_000_000_000;
  connect_timeout = 1_000_000_000;
  idle_timeout = 1000;
  max_lifetime = 5000;
}

abbrev healthy : ℕ → Conn
healthy i = record { id = i; opened_at = 100; is_broken = false }

abbrev broken : ℕ → Conn
broken i = record { id = i; opened_at = 100; is_broken = true }

abbrev slot : Conn → Slot
slot c = record { conn = c; idle_since = 200 }

-- One dead connection and two healthy ones are idle.
abbrev idle_pool : Pool
idle_pool = record {
  name = "app_main";
  limits = limits;
  permits = 3;
  permits_closed = false;
  idle = slot (broken 1) ∷ slot (healthy 2) ∷ slot (healthy 3) ∷ [];
  counters = record default { idle = 3; created_total = 3 };
  status = active;
  closer = [];
}

abbrev dead_pool : Pool
dead_pool = record idle_pool { idle = slot (broken 1) ∷ [] }

-- ---------------------------------------------------------------- a client opens a connection

abbrev p0 : Pool
p0 = new "app_main" limits

abbrev p1 : Pool
p1 = enter p0

abbrev p2 : Pool
p2 = granted p1 0

abbrev one_client : World
one_client = record { pool = connected p2; tasks = holding (healthy 7) false ∷ [] }

client_run : FreshReach (initial p0) one_client
unfolding new act enter granted copies total shelved among
client_run =
    then_
      (then_
        (then_ (then_ none_yet (arrives p0 [] refl) (λ i h. absurd (omega arith)))
          (acts p1 p2 waiting permitted (grant 0) _ _ refl here) (λ i h. absurd (omega arith)))
        (acts p2 p2 permitted connecting (look 0) _ _ refl here) (λ i h. absurd (omega arith)))
      (acts p2 (connected p2) connecting (holding (healthy 7) false) (connect (healthy 7)) _ _ refl
        here)
      (λ i h. refl)

capacity_example : length one_client.pool.idle + total live_of one_client.tasks ≤ 3
capacity_example = capacity "app_main" limits (omega arith) (forget_fresh client_run)

permits_return_example : one_client.pool.permits + total permit_of one_client.tasks ≡ 3
permits_return_example = permits_return "app_main" limits (omega arith) (forget_fresh client_run)

ledger_example :
    one_client.pool.counters.created_total
    ≡ (one_client.pool.counters.closed_total
        + total held_by one_client.tasks
        + length one_client.pool.idle)
      % 2 ^ 64
ledger_example = ledger "app_main" limits (omega arith) (forget_fresh client_run)

exclusive_example : copies 7 one_client ≤ 1
exclusive_example = exclusive "app_main" limits (omega arith) client_run 7

-- ---------------------------------------------------------------- reuse and return

acquire_accounts_example : (acquire dead_pool permit 0 300 (refused "down")).0.counters.waiting ≡ 0
acquire_accounts_example =
    (acquire_accounts dead_pool permit 0 300 (refused "down") (omega arith) (omega arith)
      (omega arith)).2

paused_pool_refuses :
    (acquire (record idle_pool { status = PoolStatus.paused }) permit 0 300 Connect.timeout).1
    ≡ err (unavailable "app_main" "paused")
unfolding acquire
paused_pool_refuses = refl

-- ---------------------------------------------------------------- shutting down

-- A client holds a connection and another one waits while the pool is closed; the first returns its
-- connection and its permit, and the pool is resumed.
abbrev at_close : List Task
at_close = holding (healthy 9) false ∷ waiting ∷ []

abbrev shut : Pool
shut = close idle_pool

abbrev returned : Pool
returned = give_back shut (healthy 9) false 300

abbrev freed : Pool
freed = free_permit returned

abbrev resumed : World
resumed = record { pool = World.operate freed resumes; tasks = World.finished ∷ waiting ∷ [] }

close_run : Reach (record { pool = shut; tasks = at_close }) resumed
unfolding act
close_run =
    World.next
      (World.next
        (World.next start (
          acts shut returned (holding (healthy 9) false) World.returning (drops 300) _ _ refl here))
        (acts returned freed World.returning World.finished frees _ _ refl here))
      (operates freed _ resumes)

close_is_final_example :
    (act resumed.pool waiting (grant 50) ≡ none)
    × (act resumed.pool waiting semaphore_closed ≡ some (leave resumed.pool, World.finished))
    × (total permit_of resumed.tasks ≤ total permit_of at_close)
close_is_final_example = close_is_final idle_pool at_close 50 close_run

abbrev before_return : Counters
before_return = record default { active = 1; created_total = 1 }

abbrev after_return : Counters
after_return = record default { idle = 1; created_total = 1 }

-- A connection is returned between the loads of the two gauges of a pool of one.
torn_report :
    (report
      (record idle_pool { limits = record limits { max_size = 1 }; counters = after_return })
      (record after_return { active = before_return.active })).opened
    ≡ 2
unfolding report snapshot
torn_report = refl

-- ---------------------------------------------------------------- warming up

abbrev attempts : List Attempt
attempts =
    record { wait = permit; waited = 0; now = 200; connect = opened (healthy 4) }
    ∷ record { wait = permit; waited = 0; now = 200; connect = refused "down" }
    ∷ []

half_warmed : (warmup dead_pool 300 attempts).1 ≡ failed (connect_refused "app_main" "down")
unfolding warmup unusable is_expired
half_warmed = refl

drain_misses_return_example :
    (push_idle
      (count_idle (drain (decide_return idle_pool (healthy 9) false 300).0).0)
      (healthy 9)
      300).status
    ≡ PoolStatus.draining
unfolding unusable is_expired
drain_misses_return_example =
    (drain_misses_return idle_pool (healthy 9) 300 refl refl (omega arith)).1
