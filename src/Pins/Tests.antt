-- ===== src/Pins/Tests.antt =====
-- The registry of pins, run.
use havuz.Base.{◌+◌, ◌≤◌, ◌≡◌, refl, none, some, true, false, List, [], ◌∷◌, length, arith}
use havuz.Chars.{codes}
use havuz.Flow.{PinReason, session_parameter, temp_table, replication}
use havuz.Pins.{new, max_entries, pinned_total, total_for, report}
use havuz.Pins.Ledger.{Recorded, record_all, tally, counted, totals_are_exact}

abbrev sessions : List Recorded
sessions =
    (codes "svc", some (codes "api"), session_parameter, 5)
    ∷ (codes "svc", none, temp_table, 6)
    ∷ (codes "svc", some (codes "api"), session_parameter, 9)
    ∷ (codes "wal", none, replication, 12)
    ∷ []

loudest_first :
    ((report (record_all new sessions) 2_000_000_012).offenders
      ≡ record {
        user = codes "svc";
        application = codes "api";
        reason = session_parameter;
        actionable = true;
        count = 2;
        first_seen_secs_ago = 2;
        last_seen_secs_ago = 2;
      }
        ∷ record {
          user = codes "svc";
          application = codes "-";
          reason = temp_table;
          actionable = true;
          count = 1;
          first_seen_secs_ago = 2;
          last_seen_secs_ago = 2;
        }
        ∷ record {
          user = codes "wal";
          application = codes "-";
          reason = replication;
          actionable = false;
          count = 1;
          first_seen_secs_ago = 2;
          last_seen_secs_ago = 2;
        }
        ∷ [])
unfolding report record_all
loudest_first = refl

totals_are_exact_example :
    (length (record_all new sessions).entries ≤ max_entries)
    × (counted (record_all new sessions).entries + (record_all new sessions).dropped ≡ 4)
    × (pinned_total (record_all new sessions) ≡ 4)
    × ((reason : PinReason) → total_for (record_all new sessions) reason ≡ tally reason sessions)
totals_are_exact_example = totals_are_exact sessions (omega arith)
