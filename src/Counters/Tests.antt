-- ===== src/Counters/Tests.antt =====
-- Snapshots added up (crates/havuz-pool/src/counters.rs).
use havuz.Base.{◌≡◌, refl, true}
use havuz.Counters.{WaitStats, Counters, default, record_wait, snapshot, merge_wait, is_exhausted}

abbrev three_samples : WaitStats
three_samples = record { samples = 3; mean_micros = 100; max_micros = 150 }

abbrev many_samples : WaitStats
many_samples = record { samples = 3000; mean_micros = 10; max_micros = 20 }

-- The larger pool decides the mean, and the slowest wait the maximum.
merges :
    merge_wait three_samples many_samples
    ≡ record { samples = 3003; mean_micros = 10; max_micros = 150 }
unfolding merge_wait
merges = refl

abbrev busy : Counters
busy = record default { active = 3; waiting = 97 }

exhausted : is_exhausted (snapshot busy "app_main" 3 100 "active") ≡ true
unfolding is_exhausted snapshot
exhausted = refl

waits :
    (snapshot (record_wait (record_wait busy 10) 20) "app_main" 3 100 "active").wait.mean_micros
    ≡ 15
unfolding record_wait snapshot
waits = refl
