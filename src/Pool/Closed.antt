-- ===== src/Pool/Closed.antt =====
-- A closed pool hands out nothing more (crates/havuz-pool/src/pool.rs).
use havuz.Base.{
  ℕ, ◌≤◌, ◌≡◌, ◌∙◌, refl, true, none, some, List, [], ◌∷◌, length, sub64, add64, ◌-◌, arith,
}
use havuz.Pool.{Pool, PoolStatus, Conn, retire}
use havuz.Pool.Checkout.{enter, leave}
use havuz.Pool.Admin.{
  drain, close, pause, resume, close_next, reap, close_idle, shed, sift, retire_all,
}
use havuz.Pool.World.{
  Task, TaskEvent, semaphore_closed, waiting, permitted, connecting, holding, returning, finished,
  grant, look, connect, drops, frees, act, Operation, pauses, resumes, drains, closes, closes_next,
  reaps, operate, World, Step, arrives, acts, operates, Reach, start, next,
}
use havuz.Pool.Counting.{permit_of, total, total-Replace}

retire_all-permits_closed :
    (p : Pool) (cs : List Conn) → (retire_all p cs).permits_closed ≡ p.permits_closed
unfolding retire_all retire
retire_all-permits_closed p [] = refl
retire_all-permits_closed p (c ∷ cs) = retire_all-permits_closed (retire p c) cs

close_idle-permits_closed : (p : Pool) → (close_idle p 0).0.permits_closed ≡ p.permits_closed
unfolding close_idle
close_idle-permits_closed p =
    let (kept, gone) = shed (length p.idle) 0 p.idle [] in
    let q = record p {
      idle = kept;
      counters = record (p.counters) { idle = sub64 p.counters.idle (length gone) };
    } in
    retire_all-permits_closed q gone

reap-permits_closed : (p : Pool) (now : ℕ) → (reap p now).0.permits_closed ≡ p.permits_closed
unfolding reap
reap-permits_closed p now =
    let gone = (sift p now (length p.idle - p.limits.min_idle) p.idle).0 in
    let r = record p {
      idle = (sift p now (length p.idle - p.limits.min_idle) p.idle).1;
      counters = record (p.counters) {
        idle = sub64 p.counters.idle (length gone);
        discarded_total = add64 p.counters.discarded_total (length gone);
      };
    } in
    ground (arith, retire_all-permits_closed r gone)

operate_closed :
    (p : Pool) (o : Operation) → p.permits_closed ≡ true → (operate p o).permits_closed ≡ true
unfolding operate drain close pause resume close_next
operate_closed p pauses h = h
operate_closed p resumes h = h
operate_closed p drains h =
    close_idle-permits_closed (record p { status = PoolStatus.draining }) ∙ h
operate_closed p closes h =
    close_idle-permits_closed (record p { status = PoolStatus.closed; permits_closed = true })
operate_closed p closes_next h = ground arith
operate_closed p (reaps now) h = reap-permits_closed p now ∙ h

act_closed :
    (p q : Pool) (t u : Task) (e : TaskEvent)
    → act p t e ≡ some (q, u)
    → p.permits_closed ≡ true
    → (q.permits_closed ≡ true) × (permit_of u ≤ permit_of t)
unfolding act
act_closed p q waiting u (grant n) a d = ground arith
act_closed p q waiting u _ a d = ground arith
act_closed p q permitted u (look n) a d = ground arith
act_closed p q permitted u _ a d = ground arith
act_closed p q connecting u (connect c) a d = ground arith
act_closed p q connecting u _ a d = ground arith
act_closed p q (holding c m) u (drops n) a d = ground arith
act_closed p q (holding c m) u _ a d = ground arith
act_closed p q returning u frees a d = ground arith
act_closed p q returning u _ a d = ground arith
act_closed p q finished u frees a d = ground arith
act_closed p q finished u _ a d = ground arith

abbrev IsShut : World → Type 0
IsShut w = w.pool.permits_closed ≡ true

Step-closed :
    {w x : World}
    → Step w x
    → IsShut w
    → IsShut x × (total permit_of x.tasks ≤ total permit_of w.tasks)
unfolding enter total
Step-closed (arrives p ts h) s = (s, omega arith)
Step-closed (acts p q t u e ts us a r) s =
    let (shut, less) = act_closed p q t u e a s in
    (shut, omega (arith, total-Replace permit_of r, less))
Step-closed (operates p ts o) s = (operate_closed p o s, omega arith)

Reach-closed :
    {w x : World}
    → Reach w x
    → IsShut w
    → IsShut x × (total permit_of x.tasks ≤ total permit_of w.tasks)
Reach-closed start s = (s, omega arith)
Reach-closed (next r st) s =
    let (shut, less) = Reach-closed r s in
    let (shut', less') = Step-closed st shut in (shut', omega (arith, less, less'))

close_shuts : (p : Pool) → (close p).permits_closed ≡ true
unfolding close
close_shuts p =
    close_idle-permits_closed (record p { status = PoolStatus.closed; permits_closed = true })

shut_refuses :
    (p : Pool) (n : ℕ)
    → p.permits_closed ≡ true
    → (act p waiting (grant n) ≡ none) × (act p waiting semaphore_closed ≡ some (leave p, finished))
unfolding act
shut_refuses p n shut = (rw shut refl, rw shut refl)

-- Closing is final. At every moment after `close`, whatever the tasks and the operator did, resuming
-- the pool included, a task that waits can not be granted a permit, returned ones included, and can be
-- turned away because the semaphore is closed; and the number of tasks that hold a permit has not
-- grown.
pub close_is_final :
    (p : Pool) (ts : List Task) (n : ℕ) {w : World}
    → Reach (record { pool = close p; tasks = ts }) w
    → (act w.pool waiting (grant n) ≡ none)
      × (act w.pool waiting semaphore_closed ≡ some (leave w.pool, finished))
      × (total permit_of w.tasks ≤ total permit_of ts)
close_is_final p ts n {w} r =
    let (shut, less) = Reach-closed r (close_shuts p) in
    let (no_grant, turned_away) = shut_refuses w.pool n shut in (no_grant, turned_away, less)
