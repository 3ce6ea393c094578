-- ===== src/Sessions/Tests.antt =====
-- Clients that connect, leave and are kicked.
use havuz.Base.{ℕ, ◌≤◌, ◌≡◌, refl, none, List, [], ◌∷◌, map, arith}
use havuz.Text.{Bytes}
use havuz.Sessions.{
  SessionRegistry, new, held, kick_user, Act, connect, disconnect, kick_by_id, act_all,
  counts_by_user, count_from, users_from, users_in_pool, snapshot,
}
use havuz.Sessions.Limit.{limit_holds}
use havuz.Sessions.Kicks.{AllKicked, kick_reaches_all}

abbrev amy : Bytes
amy = 97 ∷ 109 ∷ 121 ∷ []

abbrev bob : Bytes
bob = 98 ∷ 111 ∷ 98 ∷ []

abbrev orders : Bytes
orders = 111 ∷ []

abbrev two_each : Bytes → ℕ
two_each user = 2

abbrev arrive : Bytes → ℕ → Act
arrive user now = connect user orders none [] 0 now

abbrev crowd : List Act
crowd = arrive bob 0 ∷ arrive amy 1_000 ∷ arrive amy 2_000 ∷ arrive amy 3_000 ∷ []

third_is_refused :
    (counts_by_user (act_all two_each new crowd) ≡ (amy, 2) ∷ (bob, 1) ∷ [])
    × (users_in_pool (act_all two_each new crowd) orders ≡ amy ∷ bob ∷ [])
    × ((act_all two_each new crowd).next_id ≡ 4)
unfolding act_all count_from users_from
third_is_refused = (refl, refl, refl)

longest_first :
    map (λ s. s.id) (snapshot 9_000 (act_all two_each new crowd).entries) ≡ 1 ∷ 2 ∷ 3 ∷ []
unfolding act_all snapshot
longest_first = refl

abbrev afterwards : List Act
afterwards = disconnect 2 ∷ arrive amy 4_000 ∷ kick_by_id 1 ∷ []

limit_holds_example : held amy (act_all two_each new crowd).entries ≤ two_each amy
limit_holds_example = limit_holds two_each amy crowd (omega arith)

abbrev crowded : SessionRegistry
crowded = act_all two_each new crowd

kick_reaches_all_example :
    ((kick_user crowded amy).1 ≡ held amy crowded.entries)
    × AllKicked amy crowded.next_id (act_all two_each (kick_user crowded amy).0 afterwards).entries
unfolding act_all
kick_reaches_all_example = kick_reaches_all two_each crowded amy afterwards (omega arith)
