-- ===== src/Counters.antt =====
-- crates/havuz-pool/src/counters.rs: the pool's counters, their snapshot, and how snapshots add up.
-- The ratios that the dashboard shows as `f32` are left out; each is a quotient of fields here.
pub mod Merge
mod Tests
use Prim.Native.String.{String}
use havuz.Base.{
  ℕ, ◌+◌, ◌*◌, ◌/◌, ◌%◌, ◌^◌, Bool, ◌&&◌, ltb, leb, ◌==◌, if◌then◌else◌, add64, mul64, max,
  saturating_add32,
}

pub record Counters : Type 0 where
  pub active : ℕ  -- u64, as all below
  pub idle : ℕ
  pub waiting : ℕ
  pub created_total : ℕ
  pub closed_total : ℕ
  pub checkout_total : ℕ
  pub timeout_total : ℕ
  pub connect_error_total : ℕ
  pub discarded_total : ℕ
  pub unclean_total : ℕ
  pub wait_micros_total : ℕ
  pub wait_samples : ℕ
  pub wait_micros_max : ℕ

abbrev pub default : Counters
default = record {
  active = 0;
  idle = 0;
  waiting = 0;
  created_total = 0;
  closed_total = 0;
  checkout_total = 0;
  timeout_total = 0;
  connect_error_total = 0;
  discarded_total = 0;
  unclean_total = 0;
  wait_micros_total = 0;
  wait_samples = 0;
  wait_micros_max = 0;
}

unfoldable pub record_wait : Counters → ℕ → Counters
record_wait c micros = record c {
  wait_micros_total = add64 c.wait_micros_total micros;
  wait_samples = add64 c.wait_samples 1;
  wait_micros_max = max c.wait_micros_max micros;
}

pub record WaitStats : Type 0 where
  pub samples : ℕ
  pub mean_micros : ℕ
  pub max_micros : ℕ

pub record PoolSnapshot : Type 0 where
  pub name : String
  pub status : String
  pub active : ℕ
  pub idle : ℕ
  pub opened : ℕ  -- `open` in the source
  pub waiting : ℕ
  pub max_size : ℕ  -- u32
  pub max_client_connections : ℕ  -- u32
  pub created_total : ℕ
  pub closed_total : ℕ
  pub checkout_total : ℕ
  pub timeout_total : ℕ
  pub connect_error_total : ℕ
  pub discarded_total : ℕ
  pub unclean_total : ℕ
  pub wait : WaitStats

-- From what the loads of the counters returned, each at its own moment.
unfoldable pub snapshot : Counters → String → ℕ → ℕ → String → PoolSnapshot
snapshot c name max_size max_clients status = record {
  name = name;
  status = status;
  active = c.active;
  idle = c.idle;
  opened = add64 c.active c.idle;
  waiting = c.waiting;
  max_size = max_size;
  max_client_connections = max_clients;
  created_total = c.created_total;
  closed_total = c.closed_total;
  checkout_total = c.checkout_total;
  timeout_total = c.timeout_total;
  connect_error_total = c.connect_error_total;
  discarded_total = c.discarded_total;
  unclean_total = c.unclean_total;
  wait = record {
    samples = c.wait_samples;
    mean_micros = if c.wait_samples == 0 then 0 else c.wait_micros_total / c.wait_samples;
    max_micros = c.wait_micros_max;
  };
}

unfoldable pub is_exhausted : PoolSnapshot → Bool
is_exhausted s = ltb 0 s.waiting && leb s.max_size s.active

unfoldable pub merge_wait : WaitStats → WaitStats → WaitStats
merge_wait w v =
    let total = add64 (mul64 w.mean_micros w.samples) (mul64 v.mean_micros v.samples) in
    let samples = add64 w.samples v.samples in
    record {
      samples = samples;
      mean_micros = if samples == 0 then 0 else total / samples;
      max_micros = max w.max_micros v.max_micros;
    }

unfoldable pub merge : PoolSnapshot → PoolSnapshot → PoolSnapshot
merge s o = record s {
  active = add64 s.active o.active;
  idle = add64 s.idle o.idle;
  opened = add64 s.opened o.opened;
  waiting = add64 s.waiting o.waiting;
  created_total = add64 s.created_total o.created_total;
  closed_total = add64 s.closed_total o.closed_total;
  checkout_total = add64 s.checkout_total o.checkout_total;
  timeout_total = add64 s.timeout_total o.timeout_total;
  connect_error_total = add64 s.connect_error_total o.connect_error_total;
  discarded_total = add64 s.discarded_total o.discarded_total;
  unclean_total = add64 s.unclean_total o.unclean_total;
  max_size = saturating_add32 s.max_size o.max_size;
  wait = merge_wait s.wait o.wait;
}
