-- ===== src/SessionParams/Replay/Delta.antt =====
-- The statements that bring a backend in line with a client, run one by one and as one text
-- (crates/havuz-pg/src/params.rs).
use havuz.Base.{
  ◌≡◌, refl, sym, ap, ◌∙◌, true, Option, none, some, List, [], ◌∷◌, ◌++◌, if◌then◌else◌, Bool-cases,
  Option-cases, inl, inr, arith,
}
use havuz.Text.{same}
use havuz.Chars.{Str, codes}
use havuz.Prepared.Names.{same_sound}
use havuz.SessionParams.Sorted.{Params, get, IsOrdered, Above, Above-absent}
use havuz.SessionParams.Named.{AllNamed}
use havuz.SessionParams.Replay.{reset_statement, is_wanted, resets, has_already, sets, delta, join}
use havuz.SessionParams.Replay.Sql.{SqlServer, IsLower, AllLower, AllSet}

already_same :
    (o : Option Str) (statement : Str) → has_already o statement ≡ true → o ≡ some statement
already_same none statement h = absurd (cc)
already_same (some s) statement h = ap some (same_sound s statement h)

get_at : (a b : Str) (m : Params) → same a b ≡ true → get a m ≡ get b m
get_at a b m h = ap (λ x. get x m) (same_sound a b h)

absent_after : (a b : Str) (m : Params) → Above a m → same a b ≡ true → get b m ≡ none
absent_after a b m o h = sym (get_at a b m h) ∙ Above-absent a m o

abbrev or_else : Option Str → Option Str → Option Str
or_else none v = v
or_else (some statement) v = some statement

module _ (P : SqlServer) where
  open P use {State, run, value, does_set, set_law, reset_law, set_ends, reset_ends}

  unfoldable pub run_all : State → List Str → State
  run_all s [] = s
  run_all s (statement ∷ more) = run_all (run s statement) more

  run_all-append : (s : State) (xs ys : List Str) → run_all s (xs ++ ys) ≡ run_all (run_all s xs) ys
  unfolding run_all
  run_all-append s [] ys = refl
  run_all-append s (x ∷ xs) ys = run_all-append (run s x) xs ys

  after_resets :
      (s : State) (desired part : Params) (m : Str)
      → AllNamed part
      → AllLower part
      → IsLower m
      → value (run_all s (resets desired part)) m ≡ (
          if is_wanted (get m desired)
          then value s m
          else if is_wanted (get m part)
          then none
          else value s m)
  unfolding run_all resets get
  after_resets s desired [] m named lower low = ground arith
  after_resets s desired ((name, statement) ∷ more) m named lower low =
      elim (Bool-cases (is_wanted (get name desired))) [
        | inl e ↦ rw e (
            ground
              (arith, e, after_resets s desired more m named.1 lower.1 low, get_at name m desired))
        | inr e ↦ rw e (
            ground (
              arith,
              e,
              after_resets (run s (reset_statement name)) desired more m named.1 lower.1 low,
              reset_law s name m named.0 lower.0 low,
              get_at name m desired,
            ))
      ]

  after_sets :
      (s : State) (before part : Params) (m : Str)
      → IsOrdered part
      → AllSet does_set part
      → IsLower m
      → ((statement : Str)
          → get m part ≡ some statement
          → get m before ≡ some statement
          → value s m ≡ some statement)
      → value (run_all s (sets before part)) m ≡ or_else (get m part) (value s m)
  unfolding run_all sets get
  after_sets s before [] m o all low h = refl
  after_sets s before ((name, statement) ∷ more) m o all low h = elim (Bool-cases (same name m)) [
    | inl here ↦ elim (Bool-cases (has_already (get name before) statement)) [
      | inl e ↦
          rw (e, here)
            (after_sets s before more m o.1 all.1 low
                (λ st g b. absurd (cc (g, absent_after name m more o.0 here)))
              ∙ (ap (λ g. or_else g (value s m)) (absent_after name m more o.0 here)
                  ∙ h statement (rw here refl) (
                      sym (get_at name m before here)
                      ∙ already_same (get name before) statement e)))
      | inr e ↦
          rw (e, here)
            (after_sets (run s statement) before more m o.1 all.1 low
                (λ st g b. absurd (cc (g, absent_after name m more o.0 here)))
              ∙ (ap (λ g. or_else g (value (run s statement) m)) (absent_after name m more o.0 here)
                  ∙ (set_law s name statement m all.0 low ∙ rw here refl)))
    ]
    | inr there ↦ elim (Bool-cases (has_already (get name before) statement)) [
      | inl e ↦
          rw (e, there) (after_sets s before more m o.1 all.1 low (λ st g b. h st (rw there g) b))
      | inr e ↦
          rw (e, there)
            (after_sets (run s statement) before more m o.1 all.1 low
                (λ st g b. set_law s name statement m all.0 low ∙ rw there (h st (rw there g) b))
              ∙ ap (or_else (get m more)) (set_law s name statement m all.0 low ∙ rw there refl))
    ]
  ]

  pub value-delta :
      (s : State) (desired before : Params) (m : Str)
      → IsOrdered desired
      → AllSet does_set desired
      → AllNamed before
      → AllLower before
      → IsLower m
      → value s m ≡ get m before
      → value (run_all s (delta desired before)) m ≡ get m desired
  unfolding delta
  value-delta s desired before m o all named lower low agrees =
      let reset_value : value (run_all s (resets desired before)) m ≡ (
          if is_wanted (get m desired)
          then value s m
          else if is_wanted (get m before)
          then none
          else value s m) =
        after_resets s desired before m named lower low in
      ap (λ t. value t m) (run_all-append s (resets desired before) (sets before desired))
      ∙ (after_sets (run_all s (resets desired before)) before desired m o all low
            (λ st g b. reset_value ∙ rw g (agrees ∙ b))
          ∙ elim (Option-cases (get m desired)) [
            | inl e ↦ rw e (reset_value ∙ rw e (ground (arith, agrees)))
            | inr (statement, e) ↦ rw e refl
          ])

  abbrev pub IsWhole : Str → Type 0
  IsWhole statement =
      (s : State) (rest : Str)
      → run s (statement ++ (codes "; " ++ rest)) ≡ run (run s statement) rest

  abbrev pub AllWhole : List Str → Type 0
  AllWhole [] = Unit {0}
  AllWhole (statement ∷ more) = IsWhole statement × AllWhole more

  AllWhole-append : (xs ys : List Str) → AllWhole xs → AllWhole ys → AllWhole (xs ++ ys)
  AllWhole-append [] ys h k = k
  AllWhole-append (x ∷ xs) ys (w, h) k = (w, AllWhole-append xs ys h k)

  resets-AllWhole :
      (desired part : Params) → AllNamed part → AllLower part → AllWhole (resets desired part)
  unfolding resets
  resets-AllWhole desired [] named lower = tt
  resets-AllWhole desired ((name, statement) ∷ more) (n, named) (l, lower) =
      elim (Bool-cases (is_wanted (get name desired))) [
        | inl e ↦ rw e (resets-AllWhole desired more named lower)
        | inr e ↦
            rw e (λ s rest. reset_ends s name rest n l, resets-AllWhole desired more named lower)
      ]

  sets-AllWhole : (before part : Params) → AllSet does_set part → AllWhole (sets before part)
  unfolding sets
  sets-AllWhole before [] all = tt
  sets-AllWhole before ((name, statement) ∷ more) (h, all) =
      elim (Bool-cases (has_already (get name before) statement)) [
        | inl e ↦ rw e (sets-AllWhole before more all)
        | inr e ↦ rw e (λ s rest. set_ends s name statement rest h, sets-AllWhole before more all)
      ]

  pub delta-AllWhole :
      (desired before : Params)
      → AllSet does_set desired
      → AllNamed before
      → AllLower before
      → AllWhole (delta desired before)
  unfolding delta
  delta-AllWhole desired before all named lower =
      AllWhole-append (resets desired before) (sets before desired)
        (resets-AllWhole desired before named lower) (sets-AllWhole before desired all)

  -- One text, of the statements joined.
  abbrev pub run_text : State → List Str → State
  run_text s [] = s
  run_text s (statement ∷ more) = run s (join (statement ∷ more))

  run_joined :
      (s : State) (statement : Str) (more : List Str)
      → AllWhole (statement ∷ more)
      → run s (join (statement ∷ more)) ≡ run_all s (statement ∷ more)
  unfolding join run_all
  run_joined s statement [] whole = refl
  run_joined s statement (t ∷ more) (w, whole) =
      w s (join (t ∷ more)) ∙ run_joined (run s statement) t more whole

  pub run_text_lem :
      (s : State) (statements : List Str)
      → AllWhole statements
      → run_text s statements ≡ run_all s statements
  unfolding run_all
  run_text_lem s [] whole = refl
  run_text_lem s (statement ∷ more) whole = run_joined s statement more whole
