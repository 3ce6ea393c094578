-- ===== src/Pins/Ledger.antt =====
-- The counts of the registry (crates/havuz-proto/src/pins.rs).
use mathlib.Core.Path.{subst}
use havuz.Base.{
  ℕ, zero, suc, ◌+◌, ◌^◌, ◌≤◌, ◌<◌, ◌≡◌, refl, ap, ◌∙◌, true, Option, List, [], ◌∷◌, ◌==◌, leb,
  if◌then◌else◌, length, add64, Bool-cases, inl, inr, arith,
}
use havuz.Chars.{Str}
use havuz.Flow.{
  PinReason, session_parameter, listen, temp_table, advisory_lock, server_side_prepare,
  holdable_cursor, bulk_transfer, replication, procedure_state, unclassified,
}
use havuz.Pins.{
  PinKey, PinEntry, PinRegistry, new, reason_index, same_key, key_less, add_at, value_at, has_key,
  bump, put, record_entry, record_pin, max_entries, total_for, sum, pinned_total, key_for,
}

-- A session that is recorded: its user, its application, the reason and the instant.
abbrev pub Recorded : Type 0
Recorded = Str × Option Str × PinReason × ℕ

unfoldable pub record_all : PinRegistry → List Recorded → PinRegistry
unfolding record_pin
record_all r [] = r
record_all r ((user, application, reason, now) ∷ more) =
    record_all (record_pin r user application reason now) more

-- How many sessions are recorded for a reason.
unfoldable pub tally : PinReason → List Recorded → ℕ
tally reason [] = 0
tally reason ((user, application, other, now) ∷ more) =
    let rest = tally reason more in
    if reason_index other == reason_index reason then suc rest else rest

unfoldable pub counted : List (PinKey × PinEntry) → ℕ
counted [] = 0
counted ((k, e) ∷ more) = e.count + counted more

length-add_at : (i : ℕ) (l : List ℕ) → length (add_at i l) ≡ length l
unfolding add_at
length-add_at i [] = refl
length-add_at zero (n ∷ more) = refl
length-add_at (suc i) (n ∷ more) = ap suc (length-add_at i more)

value_at-add_at :
    (j i : ℕ) (l : List ℕ)
    → i < length l
    → value_at j (add_at i l) ≡ (if i == j then add64 (value_at j l) 1 else value_at j l)
unfolding value_at add_at
value_at-add_at j i [] h = absurd (omega (arith, h))
value_at-add_at zero zero (n ∷ more) h = ground arith
value_at-add_at zero (suc i) (n ∷ more) h = ground arith
value_at-add_at (suc j) zero (n ∷ more) h = ground arith
value_at-add_at (suc j) (suc i) (n ∷ more) h =
    ground (arith, value_at-add_at j i more (omega (arith, h)))

sum-add_at : (i : ℕ) (l : List ℕ) → i < length l → sum (add_at i l) ≡ add64 (sum l) 1
unfolding sum add_at
sum-add_at i [] h = absurd (omega (arith, h))
sum-add_at zero (n ∷ more) h = omega arith
sum-add_at (suc i) (n ∷ more) h = omega (arith, sum-add_at i more (omega (arith, h)))

counted-bump :
    (k : PinKey) (now : ℕ) (entries : List (PinKey × PinEntry))
    → has_key k entries ≡ true
    → counted entries + 1 < 2 ^ 64
    → counted (bump k now entries) ≡ counted entries + 1
unfolding has_key bump counted
counted-bump k now [] h fits = absurd (cc)
counted-bump k now ((j, e) ∷ more) h fits = elim (Bool-cases (same_key j k)) [
  | inl here ↦ rw here (omega (arith, fits))
  | inr there ↦
      rw there
        (omega (arith, counted-bump k now more (ground (arith, h, there)) (omega (arith, fits))))
]

counted-put :
    (k : PinKey) (entry : PinEntry) (entries : List (PinKey × PinEntry))
    → counted (put k entry entries) ≡ counted entries + entry.count
unfolding put counted
counted-put k entry [] = omega arith
counted-put k entry ((j, e) ∷ more) = elim (Bool-cases (key_less k j)) [
  | inl before ↦ rw before (omega arith)
  | inr after ↦ rw after (omega (arith, counted-put k entry more))
]

length-bump :
    (k : PinKey) (now : ℕ) (entries : List (PinKey × PinEntry))
    → length (bump k now entries) ≡ length entries
unfolding bump
length-bump k now [] = refl
length-bump k now ((j, e) ∷ more) = elim (Bool-cases (same_key j k)) [
  | inl here ↦ rw here refl
  | inr there ↦ rw there (ap suc (length-bump k now more))
]

length-put :
    (k : PinKey) (entry : PinEntry) (entries : List (PinKey × PinEntry))
    → length (put k entry entries) ≡ suc (length entries)
unfolding put
length-put k entry [] = refl
length-put k entry ((j, e) ∷ more) = elim (Bool-cases (key_less k j)) [
  | inl before ↦ rw before refl
  | inr after ↦ rw after (ap suc (length-put k entry more))
]

-- One more session is counted, in an entry or as dropped, and the cap holds.
entry_counted :
    (k : PinKey) (now : ℕ) (entries : List (PinKey × PinEntry)) (dropped : ℕ)
    → counted entries + dropped + 1 < 2 ^ 64
    → length entries ≤ max_entries
    → (counted (record_entry k now entries dropped).0 + (record_entry k now entries dropped).1
        ≡ counted entries + dropped + 1)
      × (length (record_entry k now entries dropped).0 ≤ max_entries)
unfolding record_entry
entry_counted k now entries dropped fits cap = elim (Bool-cases (has_key k entries)) [
  | inl known ↦ rw known (
    omega (arith, counted-bump k now entries known (omega (arith, fits))),
    omega (arith, cap, length-bump k now entries),
  )
  | inr unknown ↦ elim (Bool-cases (leb max_entries (length entries))) [
    | inl full ↦ rw (unknown, full) (omega (arith, fits), cap)
    | inr room ↦
        rw (unknown, room)
          (
            omega (
              arith,
              counted-put k (record { count = 1; first_seen = now; last_seen = now }) entries,
            ),
            ground (
              arith,
              room,
              length-put k (record { count = 1; first_seen = now; last_seen = now }) entries,
            ),
          )
  ]
]

index_in_range : (reason : PinReason) → reason_index reason < 10
index_in_range session_parameter = omega arith
index_in_range listen = omega arith
index_in_range temp_table = omega arith
index_in_range advisory_lock = omega arith
index_in_range server_side_prepare = omega arith
index_in_range holdable_cursor = omega arith
index_in_range bulk_transfer = omega arith
index_in_range replication = omega arith
index_in_range procedure_state = omega arith
index_in_range unclassified = omega arith

-- The registry has counted `n` sessions.
abbrev pub Counts : ℕ → PinRegistry → Type 0
Counts n r =
    (length r.totals ≡ 10)
    × (length r.entries ≤ max_entries)
    × (counted r.entries + r.dropped ≡ n)
    × (sum r.totals ≡ n)

record_pin-Counts :
    (n : ℕ) (r : PinRegistry) (user : Str) (application : Option Str) (reason : PinReason) (now : ℕ)
    → n + 1 < 2 ^ 64
    → Counts n r
    → Counts (n + 1) (record_pin r user application reason now)
unfolding record_pin
record_pin-Counts n r user application reason now fits (totals, cap, entries, summed) =
    let one =
      entry_counted (key_for user application reason) now r.entries r.dropped
        (omega (arith, entries, fits)) cap in
    (
      length-add_at (reason_index reason) r.totals ∙ totals,
      one.1,
      omega (arith, one.0, entries),
      omega (
        arith,
        sum-add_at (reason_index reason) r.totals (omega (arith, totals, index_in_range reason)),
        summed,
        fits,
      ),
    )

record_all-Counts :
    (n : ℕ) (r : PinRegistry) (rs : List Recorded)
    → n + length rs < 2 ^ 64
    → Counts n r
    → Counts (n + length rs) (record_all r rs)
unfolding record_all
record_all-Counts n r [] fits c = (c.0, c.1, omega (arith, c.2), omega (arith, c.3))
record_all-Counts n r ((user, application, reason, now) ∷ more) fits c =
    subst (λ k. Counts k (record_all (record_pin r user application reason now) more)) (omega arith)
      (record_all-Counts (n + 1) (record_pin r user application reason now) more
        (omega (arith, fits))
        (record_pin-Counts n r user application reason now (omega (arith, fits)) c))

fresh : Counts 0 new
unfolding sum counted
fresh = (refl, omega arith, refl, refl)

nothing_yet : (reason : PinReason) → total_for new reason ≡ 0
unfolding total_for
nothing_yet session_parameter = refl
nothing_yet listen = refl
nothing_yet temp_table = refl
nothing_yet advisory_lock = refl
nothing_yet server_side_prepare = refl
nothing_yet holdable_cursor = refl
nothing_yet bulk_transfer = refl
nothing_yet replication = refl
nothing_yet procedure_state = refl
nothing_yet unclassified = refl

total_step :
    (r : PinRegistry) (user : Str) (application : Option Str) (other : PinReason) (now : ℕ)
    (reason : PinReason)
    → length r.totals ≡ 10
    → total_for (record_pin r user application other now) reason ≡ (
        if reason_index other == reason_index reason
        then add64 (total_for r reason) 1
        else total_for r reason)
unfolding record_pin total_for
total_step r user application other now reason ten =
    value_at-add_at (reason_index reason) (reason_index other) r.totals
      (omega (arith, ten, index_in_range other))

totals_stay :
    (r : PinRegistry) (user : Str) (application : Option Str) (other : PinReason) (now : ℕ)
    → length r.totals ≡ 10
    → length (record_pin r user application other now).totals ≡ 10
unfolding record_pin
totals_stay r user application other now ten = length-add_at (reason_index other) r.totals ∙ ten

total_after :
    (r : PinRegistry) (rs : List Recorded) (reason : PinReason)
    → length r.totals ≡ 10
    → total_for r reason + length rs < 2 ^ 64
    → total_for (record_all r rs) reason ≡ total_for r reason + tally reason rs
unfolding record_all tally
total_after r [] reason ten fits = omega arith
total_after r ((user, application, other, now) ∷ more) reason ten fits =
    let step = total_step r user application other now reason ten in
    let after =
      total_after (record_pin r user application other now) more reason
        (totals_stay r user application other now ten) in
    elim (Bool-cases (reason_index other == reason_index reason)) [
      | inl e ↦ rw e (ground (arith, e, step, after, fits))
      | inr e ↦ rw e (ground (arith, e, step, after, fits))
    ]

-- The registry after any sessions, fewer than a counter holds: at most 1024 entries, whose counts and
-- the drops add up to the sessions; and the totals are exact in spite of the cap, in sum and for each
-- reason.
pub totals_are_exact :
    (rs : List Recorded)
    → length rs < 2 ^ 64
    → (length (record_all new rs).entries ≤ max_entries)
      × (counted (record_all new rs).entries + (record_all new rs).dropped ≡ length rs)
      × (pinned_total (record_all new rs) ≡ length rs)
      × ((reason : PinReason) → total_for (record_all new rs) reason ≡ tally reason rs)
unfolding pinned_total
totals_are_exact rs fits =
    let after = record_all-Counts 0 new rs (omega (arith, fits)) fresh in
    (
      after.1,
      omega (arith, after.2),
      omega (arith, after.3),
      λ reason. omega (
        arith,
        nothing_yet reason,
        total_after new rs reason refl (omega (arith, fits, nothing_yet reason)),
      ),
    )
