-- ===== src/Classify/Batch.antt =====
-- A text of several statements is judged as its statements are one by one
-- (crates/havuz-pg/src/classify.rs).
use mathlib.Core.Path.{subst}
use havuz.Base.{
  ◌≡◌, refl, sym, ap, ◌∙◌, Bool, true, false, Option, none, some, List, [], ◌∷◌, map, Bool-cases,
  ◌⊎◌, inl, inr,
}
use havuz.Chars.{Str, is_blank}
use havuz.Flow.{PinReason}
use havuz.Routing.{RouteIntent, read, write}
use havuz.Lexer.{split_statements, strip_leading_noise}
use havuz.Lexer.Rejoin.{AllSingle, statements_are_single}
use havuz.Classify.{
  statement_pin_reason, or_reason, first_reason, sql_pin_reason, statement_route_intent,
  substantive, all_read, join_intent, batch_intent, route_intent,
}

-- The first reason of a list, if there is one.
unfoldable pub first_some : List (Option PinReason) → Option PinReason
first_some [] = none
first_some (o ∷ more) = or_reason o (first_some more)

or_none : (o : Option PinReason) → or_reason o none ≡ o
or_none none = refl
or_none (some reason) = refl

empty_pins_nothing : sql_pin_reason [] ≡ statement_pin_reason []
unfolding sql_pin_reason
empty_pins_nothing = refl

single_reason : (s : Str) → split_statements s ≡ s ∷ [] → sql_pin_reason s ≡ first_reason (s ∷ [])
unfolding sql_pin_reason
single_reason s single = ap first_reason single

first_reason_one : (s : Str) → first_reason (s ∷ []) ≡ statement_pin_reason s
unfolding first_reason
first_reason_one s = or_none (statement_pin_reason s)

first_reason_cons :
    (s : Str) (more : List Str)
    → first_reason (s ∷ more) ≡ or_reason (statement_pin_reason s) (first_reason more)
unfolding first_reason
first_reason_cons s more = refl

alone_reason :
    (s : Str) → (s ≡ []) ⊎ (split_statements s ≡ s ∷ []) → sql_pin_reason s ≡ statement_pin_reason s
alone_reason s (inl empty) =
    ap sql_pin_reason empty ∙ (empty_pins_nothing ∙ ap statement_pin_reason (sym empty))
alone_reason s (inr single) = single_reason s single ∙ first_reason_one s

no_reason : first_reason [] ≡ none
unfolding first_reason
no_reason = refl

reasons_alone :
    (ss : List Str) → AllSingle ss → first_reason ss ≡ first_some (map sql_pin_reason ss)
unfolding first_some
reasons_alone [] all = no_reason
reasons_alone (s ∷ more) all =
    first_reason_cons s more
    ∙ (ap (λ o. or_reason o (first_reason more)) (sym (alone_reason s all.0))
        ∙ ap (or_reason (sql_pin_reason s)) (reasons_alone more all.1))

-- A text pins its session for the first reason that one of its statements gives when it is sent
-- alone, and does not pin it if none of them would.
pub pins_statement_by_statement :
    (sql : Str) → sql_pin_reason sql ≡ first_some (map sql_pin_reason (split_statements sql))
unfolding sql_pin_reason
pins_statement_by_statement sql = reasons_alone (split_statements sql) (statements_are_single sql)

-- A list of routes is a read if there is one and all are reads.
unfoldable pub unanimous : List RouteIntent → RouteIntent
unanimous [] = write
unanimous (i ∷ []) = i
unanimous (i ∷ j ∷ more) = join_intent i (unanimous (j ∷ more))

join_read : (i : RouteIntent) → join_intent i read ≡ i
join_read read = refl
join_read write = refl

all_read_cons :
    (s : Str) (more : List Str) (ro : Bool)
    → all_read (s ∷ more) ro ≡ join_intent (statement_route_intent s ro) (all_read more ro)
unfolding all_read
all_read_cons s more ro = refl

all_read_none : (ro : Bool) → all_read [] ro ≡ read
unfolding all_read
all_read_none ro = refl

all_read_one : (s : Str) (ro : Bool) → all_read (s ∷ []) ro ≡ statement_route_intent s ro
all_read_one s ro =
    all_read_cons s [] ro
    ∙ (ap (join_intent (statement_route_intent s ro)) (all_read_none ro)
        ∙ join_read (statement_route_intent s ro))

keeps_substance :
    (s : Str) (more : List Str)
    → is_blank (strip_leading_noise s) ≡ false
    → substantive (s ∷ more) ≡ s ∷ substantive more
unfolding substantive
keeps_substance s more h = rw (substantive, h) refl

drops_blank :
    (s : Str) (more : List Str)
    → is_blank (strip_leading_noise s) ≡ true
    → substantive (s ∷ more) ≡ substantive more
unfolding substantive
drops_blank s more h = rw (substantive, h) refl

no_substance : substantive [] ≡ []
unfolding substantive
no_substance = refl

empty_is_blank : is_blank (strip_leading_noise []) ≡ true
unfolding is_blank strip_leading_noise
empty_is_blank = refl

route_single :
    (s : Str) (ro : Bool)
    → split_statements s ≡ s ∷ []
    → route_intent s ro ≡ batch_intent (substantive (s ∷ [])) ro
unfolding route_intent
route_single s ro e = ap (λ ss. batch_intent (substantive ss) ro) e

route_alone :
    (s : Str) (ro : Bool)
    → (s ≡ []) ⊎ (split_statements s ≡ s ∷ [])
    → is_blank (strip_leading_noise s) ≡ false
    → route_intent s ro ≡ statement_route_intent s ro
route_alone s ro (inl e) h =
    absurd (cc (h, ap (λ t. is_blank (strip_leading_noise t)) e, empty_is_blank))
route_alone s ro (inr e) h =
    route_single s ro e
    ∙ (ap (λ ss. batch_intent ss ro) (keeps_substance s [] h ∙ ap (λ ss. s ∷ ss) no_substance)
        ∙ all_read_one s ro)

-- Each of the statements is routed alone as it is in the batch.
RoutesAlone : Bool → List Str → Type 0
RoutesAlone ro [] = Unit {0}
RoutesAlone ro (s ∷ more) = (route_intent s ro ≡ statement_route_intent s ro) × RoutesAlone ro more

substance_alone : (ss : List Str) (ro : Bool) → AllSingle ss → RoutesAlone ro (substantive ss)
unfolding RoutesAlone
substance_alone [] ro all = subst (RoutesAlone ro) (sym no_substance) tt
substance_alone (s ∷ more) ro all = elim (Bool-cases (is_blank (strip_leading_noise s))) [
  | inl e ↦ subst (RoutesAlone ro) (sym (drops_blank s more e)) (substance_alone more ro all.1)
  | inr e ↦
      subst (RoutesAlone ro) (sym (keeps_substance s more e))
        (route_alone s ro all.0 e, substance_alone more ro all.1)
]

batch_unanimous :
    (ss : List Str) (ro : Bool)
    → RoutesAlone ro ss
    → batch_intent ss ro ≡ unanimous (map (λ s. route_intent s ro) ss)
unfolding unanimous RoutesAlone
batch_unanimous [] ro all = refl
batch_unanimous (s ∷ []) ro all = all_read_one s ro ∙ sym all.0
batch_unanimous (s ∷ t ∷ more) ro all =
    all_read_cons s (t ∷ more) ro
    ∙ (ap (λ i. join_intent i (all_read (t ∷ more) ro)) (sym all.0)
        ∙ ap (join_intent (route_intent s ro)) (batch_unanimous (t ∷ more) ro all.1))

-- A text may be served by a replica if it has statements that are not blank, and a replica may serve
-- each of them when it is sent alone; if one of them must reach the primary, so must the text.
pub routes_statement_by_statement :
    (sql : Str) (session_read_only : Bool)
    → route_intent sql session_read_only
      ≡ unanimous (map (λ s. route_intent s session_read_only) (substantive (split_statements sql)))
unfolding route_intent
routes_statement_by_statement sql ro =
    batch_unanimous (substantive (split_statements sql)) ro
      (substance_alone (split_statements sql) ro (statements_are_single sql))
