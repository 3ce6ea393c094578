-- ===== src/Cancel/Tests.antt =====
-- Keys issued, pointed and cancelled.
use havuz.Base.{◌≡◌, refl, none, some, List, [], ◌∷◌}
use havuz.Chars.{codes}
use havuz.Cancel.{CancelTarget, CancelKey, new, scope, lookup, following_id}
use havuz.Cancel.Reach.{Act, issue, point, act_all}

abbrev backend : CancelTarget
backend = record { host = codes "pg"; port = 5432; backend_pid = 9001; backend_secret = 42 }

abbrev mine : CancelKey
mine = record { process_id = 1; secret_key = 77 }

abbrev other : CancelKey
other = record { process_id = 2; secret_key = 77 }

-- The backend goes from the first session to the second.
abbrev acts : List Act
acts = issue 77 ∷ point mine (some backend) ∷ point mine none ∷ point other (some backend) ∷ []

returned_backend_is_safe :
    (lookup (act_all (scope new 77).0 acts) mine ≡ none)
    × (lookup (act_all (scope new 77).0 acts) other ≡ some backend)
unfolding lookup act_all scope
returned_backend_is_safe = (refl, refl)

ids_wrap_to_one : following_id 2_147_483_647 ≡ 1
unfolding following_id
ids_wrap_to_one = refl
