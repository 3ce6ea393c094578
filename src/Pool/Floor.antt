-- ===== src/Pool/Floor.antt =====
-- `Pool::reap` (crates/havuz-pool/src/pool.rs) and the number of connections that it keeps warm.
use havuz.Base.{ℕ, ◌+◌, ◌-◌, ◌≤◌, ◌≡◌, ◌<◌, ◌^◌, ◌∙◌, length, sub64, add64, arith}
use havuz.Pool.{Pool}
use havuz.Pool.Admin.{sift, reap}
use havuz.Pool.Closing.{retire_all_lem}
use havuz.Pool.Reaping.{length-sift, usable_only, thin, sift-thin, AllStale, length-sift_stale}

module _ (p : Pool) (now : ℕ) (fits : p.counters.closed_total < 2 ^ 64) where
  abbrev budget : ℕ
  budget = length p.idle - p.limits.min_idle

  reap-idle : (reap p now).0.idle ≡ (sift p now budget p.idle).1
  unfolding reap
  reap-idle =
      let gone = (sift p now budget p.idle).0 in
      let r = record p {
        idle = (sift p now budget p.idle).1;
        counters = record (p.counters) {
          idle = sub64 p.counters.idle (length gone);
          discarded_total = add64 p.counters.discarded_total (length gone);
        };
      } in
      ground (arith, retire_all_lem r gone fits)

  -- One pass of the reaper does what its two rules say, one after the other: it closes every
  -- connection that is broken or too old, and of the others, oldest place in the queue first, as
  -- many of those idle too long as the queue had more connections than `min_idle`. The rest stay
  -- in their order, and it reports the number closed.
  pub reap-thin :
      ((reap p now).0.idle ≡ thin p now budget (usable_only p now p.idle))
      × ((reap p now).1 + length (reap p now).0.idle ≡ length p.idle)
  reap-thin = (
    reap-idle ∙ sift-thin p now budget p.idle,
    rw reap-idle (unfold reap in length-sift p now budget p.idle),
  )

  -- The budget for idle connections is counted before the unusable ones are taken away. Where
  -- every connection is unusable or idle too long, at least one is unusable, and at least
  -- `min_idle` are usable, one pass closes usable connections until fewer than `min_idle` are left.
  pub reap_below_floor :
      AllStale p now p.idle
      → length (usable_only p now p.idle) < length p.idle
      → 0 < p.limits.min_idle
      → p.limits.min_idle ≤ length (usable_only p now p.idle)
      → length (reap p now).0.idle < p.limits.min_idle
  reap_below_floor stale dead pos warm =
      rw reap-idle (omega (arith, length-sift_stale p now budget p.idle stale))
