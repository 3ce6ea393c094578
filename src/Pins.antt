-- ===== src/Pins.antt =====
-- crates/havuz-proto/src/pins.rs: how often sessions were pinned, by whom and why. A 64-bit count is
-- its word and an `Instant` a number; the atomic counters and the locked map are read and written one
-- call at a time.
pub mod Ledger
mod Tests
use havuz.Base.{
  ℕ, zero, suc, ◌+◌, ◌-◌, ◌/◌, not, Bool, true, false, ◌&&◌, ◌||◌, Option, none, some, List, [],
  ◌∷◌, ◌==◌, ltb, leb, if◌then◌else◌, length, map, add64,
}
use havuz.Text.{same}
use havuz.Chars.{Str, codes}
use havuz.SessionParams.Sorted.{less}
use havuz.Flow.{
  PinReason, session_parameter, listen, temp_table, advisory_lock, server_side_prepare,
  holdable_cursor, bulk_transfer, replication, procedure_state, unclassified,
}

-- `PinReason::ALL`, in crates/havuz-registry/src/session.rs.
abbrev pub all_reasons : List PinReason
all_reasons =
    session_parameter ∷ listen ∷ temp_table ∷ advisory_lock ∷ server_side_prepare ∷ holdable_cursor
    ∷ bulk_transfer ∷ replication ∷ procedure_state ∷ unclassified ∷ []

-- The position of a reason in `PinReason::ALL`.
abbrev pub reason_index : PinReason → ℕ
reason_index session_parameter = 0
reason_index listen = 1
reason_index temp_table = 2
reason_index advisory_lock = 3
reason_index server_side_prepare = 4
reason_index holdable_cursor = 5
reason_index bulk_transfer = 6
reason_index replication = 7
reason_index procedure_state = 8
reason_index unclassified = 9

abbrev pub is_actionable : PinReason → Bool
is_actionable replication = false
is_actionable unclassified = false
is_actionable reason = true

abbrev pub max_entries : ℕ
max_entries = 1024

pub record PinKey : Type 0 where
  pub user : Str
  pub application : Str
  pub reason : PinReason

pub record PinEntry : Type 0 where
  pub count : ℕ
  pub first_seen : ℕ
  pub last_seen : ℕ

-- The entries in the order of their keys; the totals in the order of `PinReason::ALL`.
pub record PinRegistry : Type 0 where
  pub entries : List (PinKey × PinEntry)
  pub totals : List ℕ
  pub unpinned : ℕ
  pub dropped : ℕ

unfoldable pub same_key : PinKey → PinKey → Bool
unfolding same
same_key a b =
    same a.user b.user
    && same a.application b.application
    && (reason_index a.reason == reason_index b.reason)

unfoldable pub key_less : PinKey → PinKey → Bool
unfolding less same
key_less a b =
    if same a.user b.user
    then (if same a.application b.application
        then ltb (reason_index a.reason) (reason_index b.reason)
        else less a.application b.application)
    else less a.user b.user

abbrev no_totals : List ℕ
no_totals = 0 ∷ 0 ∷ 0 ∷ 0 ∷ 0 ∷ 0 ∷ 0 ∷ 0 ∷ 0 ∷ 0 ∷ []

abbrev pub new : PinRegistry
new = record { entries = []; totals = no_totals; unpinned = 0; dropped = 0 }

-- `fetch_add(1)` at a position.
unfoldable pub add_at : ℕ → List ℕ → List ℕ
add_at i [] = []
add_at zero (n ∷ more) = add64 n 1 ∷ more
add_at (suc i) (n ∷ more) = n ∷ add_at i more

unfoldable pub has_key : PinKey → List (PinKey × PinEntry) → Bool
unfolding same_key
has_key k [] = false
has_key k ((j, e) ∷ more) = let rest = has_key k more in same_key j k || rest

-- What the entry of a key becomes, found in the map.
unfoldable pub bump : PinKey → ℕ → List (PinKey × PinEntry) → List (PinKey × PinEntry)
unfolding same_key
bump k now [] = []
bump k now ((j, e) ∷ more) =
    let rest = bump k now more in
    if same_key j k
    then (j, record e { count = add64 e.count 1; last_seen = now }) ∷ more
    else (j, e) ∷ rest

unfoldable pub put : PinKey → PinEntry → List (PinKey × PinEntry) → List (PinKey × PinEntry)
unfolding key_less
put k entry [] = (k, entry) ∷ []
put k entry ((j, e) ∷ more) =
    let rest = put k entry more in
    if key_less k j then (k, entry) ∷ (j, e) ∷ more else (j, e) ∷ rest

abbrev key_for : Str → Option Str → PinReason → PinKey
key_for user none reason = record { user = user; application = codes "-"; reason = reason }
key_for user (some application) reason = record {
  user = user;
  application = application;
  reason = reason;
}

-- The map's part of `record`, and the number of drops.
unfoldable pub record_entry :
    PinKey → ℕ → List (PinKey × PinEntry) → ℕ → List (PinKey × PinEntry) × ℕ
unfolding has_key bump put
record_entry k now entries dropped =
    if has_key k entries
    then (bump k now entries, dropped)
    else if leb max_entries (length entries)
    then (entries, add64 dropped 1)
    else (put k (record { count = 1; first_seen = now; last_seen = now }) entries, dropped)

-- `record`, at the instant `now`.
unfoldable pub record_pin : PinRegistry → Str → Option Str → PinReason → ℕ → PinRegistry
unfolding add_at record_entry
record_pin r user application reason now =
    let (entries, dropped) =
      record_entry (key_for user application reason) now r.entries r.dropped in
    record {
      entries = entries;
      totals = add_at (reason_index reason) r.totals;
      unpinned = r.unpinned;
      dropped = dropped;
    }

abbrev pub record_clean : PinRegistry → PinRegistry
record_clean r = record r { unpinned = add64 r.unpinned 1 }

unfoldable pub value_at : ℕ → List ℕ → ℕ
value_at i [] = 0
value_at zero (n ∷ more) = n
value_at (suc i) (n ∷ more) = value_at i more

unfoldable pub total_for : PinRegistry → PinReason → ℕ
unfolding value_at
total_for r reason = value_at (reason_index reason) r.totals

unfoldable pub sum : List ℕ → ℕ
sum [] = 0
sum (n ∷ more) = add64 n (sum more)

unfoldable pub pinned_total : PinRegistry → ℕ
unfolding sum
pinned_total r = sum r.totals

abbrev pub reset : PinRegistry → PinRegistry
reset r = new

pub record PinOffender : Type 0 where
  pub user : Str
  pub application : Str
  pub reason : PinReason
  pub actionable : Bool
  pub count : ℕ
  pub first_seen_secs_ago : ℕ
  pub last_seen_secs_ago : ℕ

abbrev seconds_since : ℕ → ℕ → ℕ
seconds_since now then_ = (now - then_) / 1_000_000_000

abbrev offender : ℕ → PinKey × PinEntry → PinOffender
offender now (k, e) = record {
  user = k.user;
  application = k.application;
  reason = k.reason;
  actionable = is_actionable k.reason;
  count = e.count;
  first_seen_secs_ago = seconds_since now e.first_seen;
  last_seen_secs_ago = seconds_since now e.last_seen;
}

-- The comparison of `sort_by` is not `Greater`.
unfoldable pub not_after : PinOffender → PinOffender → Bool
unfolding less
not_after a b = ltb b.count a.count || ((a.count == b.count) && not (less b.user a.user))

unfoldable pub place : PinOffender → List PinOffender → List PinOffender
unfolding not_after
place a [] = a ∷ []
place a (b ∷ more) = let rest = place a more in if not_after a b then a ∷ b ∷ more else b ∷ rest

-- `sort_by`, which is stable.
unfoldable pub sort_offenders : List PinOffender → List PinOffender
unfolding place
sort_offenders [] = []
sort_offenders (a ∷ more) = place a (sort_offenders more)

-- The rate is the fraction that is divided in floating point.
pub record PinReport : Type 0 where
  pub pinned_sessions : ℕ
  pub clean_sessions : ℕ
  pub pin_rate : Option (ℕ × ℕ)
  pub by_reason : List (PinReason × ℕ)
  pub offenders : List PinOffender
  pub truncated : Bool

unfoldable pub pin_rate : PinRegistry → Option (ℕ × ℕ)
unfolding pinned_total
pin_rate r =
    let total = add64 (pinned_total r) r.unpinned in
    if ltb 0 total then some (pinned_total r, total) else none

unfoldable pub report : PinRegistry → ℕ → PinReport
unfolding pinned_total pin_rate total_for sort_offenders
report r now = record {
  pinned_sessions = pinned_total r;
  clean_sessions = r.unpinned;
  pin_rate = pin_rate r;
  by_reason = map (λ reason. (reason, total_for r reason)) all_reasons;
  offenders = sort_offenders (map (offender now) r.entries);
  truncated = ltb 0 r.dropped;
}
