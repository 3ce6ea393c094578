-- ===== src/SessionParams/Replay/Settled.antt =====
-- A backend that is in line with its client is left alone (crates/havuz-pg/src/params.rs).
use havuz.Base.{◌≡◌, refl, ap, true, false, none, some, List, [], ◌∷◌, Bool-cases, inl, inr}
use havuz.Text.{same}
use havuz.Chars.{Str}
use havuz.Protocol.{Message}
use havuz.Prepared.Names.{same_refl, same_sound}
use havuz.SessionParams.Sorted.{Params, less, less_irrefl, get, IsOrdered, Above}
use havuz.SessionParams.Client.{ClientParams}
use havuz.SessionParams.Replay.{unchanged, resets, sets, delta, sync_params, sync_batch}

-- Each entry of the second map is what the first has under its name.
AllFound : Params → Params → Type 0
AllFound all [] = Unit {0}
AllFound all ((name, statement) ∷ more) = (get name all ≡ some statement) × AllFound all more

above_other : (a b : Str) → less a b ≡ true → same a b ≡ false
above_other a b h = elim (Bool-cases (same a b)) [
  | inr e ↦ e
  | inl e ↦ absurd (cc (h, less_irrefl b, ap (λ x. less x b) (same_sound a b e)))
]

found_longer :
    (name statement : Str) (all part : Params)
    → Above name part
    → AllFound all part
    → AllFound ((name, statement) ∷ all) part
unfolding get AllFound
found_longer name statement all [] a f = tt
found_longer name statement all ((j, w) ∷ more) a f =
    (rw (above_other name j a.0) f.0, found_longer name statement all more a.1 f.1)

all_found : (m : Params) → IsOrdered m → AllFound m m
unfolding get AllFound
all_found [] o = tt
all_found ((name, statement) ∷ more) o =
    (rw (same_refl name) refl, found_longer name statement more more o.0 (all_found more o.1))

resets_nothing : (all part : Params) → AllFound all part → resets all part ≡ []
unfolding resets AllFound
resets_nothing all [] f = refl
resets_nothing all ((name, statement) ∷ more) f = rw f.0 (resets_nothing all more f.1)

sets_nothing : (all part : Params) → AllFound all part → sets all part ≡ []
unfolding sets AllFound
sets_nothing all [] f = refl
sets_nothing all ((name, statement) ∷ more) f =
    rw f.0 (rw (same_refl statement) (sets_nothing all more f.1))

delta_self : (m : Params) → IsOrdered m → delta m m ≡ []
unfolding delta
delta_self m o = rw (resets_nothing m m (all_found m o)) (sets_nothing m m (all_found m o))

-- A backend that is recorded to have what its client wants is sent nothing, and stays so recorded.
pub settled_backend_is_left :
    (c : ClientParams) (replies : List Message)
    → IsOrdered c.desired
    → sync_params c c.desired replies
      ≡ record { sent = none; outcome = some unchanged; recorded = c.desired }
unfolding sync_params sync_batch
settled_backend_is_left c replies o =
    ap (λ statements. sync_batch c.desired c.desired statements replies) (delta_self c.desired o)
