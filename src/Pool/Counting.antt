-- ===== src/Pool/Counting.antt =====
-- How many tasks of a pool (crates/havuz-pool/src/pool.rs) hold a permit, wait or hold a connection,
-- and how a step of one task changes the counts.
use havuz.Base.{ℕ, ◌+◌, ◌≤◌, ◌≡◌, List, [], ◌∷◌, arith}
use havuz.Pool.World.{
  Task, waiting, permitted, connecting, holding, returning, finished, Replace, here, there,
}

abbrev pub waits : Task → ℕ
waits waiting = 1
waits _ = 0

-- Tasks that hold a permit.
abbrev pub permit_of : Task → ℕ
permit_of permitted = 1
permit_of connecting = 1
permit_of (holding c marked) = 1
permit_of returning = 1
permit_of _ = 0

-- Tasks that hold a connection, or are opening one.
abbrev pub live_of : Task → ℕ
live_of connecting = 1
live_of (holding c marked) = 1
live_of _ = 0

abbrev pub held_by : Task → ℕ
held_by (holding c marked) = 1
held_by _ = 0

unfoldable pub total : (Task → ℕ) → List Task → ℕ
total f [] = 0
total f (t ∷ ts) = f t + total f ts

-- The tasks that a step leaves alone.
pub others : {t u : Task} {ts us : List Task} → Replace t u ts us → List Task
others (here {ts}) = ts
others (there {s} r) = s ∷ others r

pub total-Replace :
    {t u : Task} {ts us : List Task} (f : Task → ℕ) (r : Replace t u ts us)
    → (total f ts ≡ total f (others r) + f t) × (total f us ≡ total f (others r) + f u)
unfolding total others
total-Replace f here = omega arith
total-Replace f (there r) = omega (arith, total-Replace f r)

total_mono :
    (f g : Task → ℕ) → ((t : Task) → f t ≤ g t) → (ts : List Task) → total f ts ≤ total g ts
unfolding total
total_mono f g h [] = omega arith
total_mono f g h (t ∷ ts) = omega (arith, h t, total_mono f g h ts)

live-le-permit : (t : Task) → live_of t ≤ permit_of t
live-le-permit waiting = omega arith
live-le-permit permitted = omega arith
live-le-permit connecting = omega arith
live-le-permit (holding c marked) = omega arith
live-le-permit returning = omega arith
live-le-permit finished = omega arith

held-le-live : (t : Task) → held_by t ≤ live_of t
held-le-live (holding c marked) = omega arith
held-le-live waiting = omega arith
held-le-live permitted = omega arith
held-le-live connecting = omega arith
held-le-live returning = omega arith
held-le-live finished = omega arith

pub total_live-le-permit : (ts : List Task) → total live_of ts ≤ total permit_of ts
total_live-le-permit = total_mono live_of permit_of live-le-permit

pub total_held-le-live : (ts : List Task) → total held_by ts ≤ total live_of ts
total_held-le-live = total_mono held_by live_of held-le-live
