-- ===== src/Cancel/Reach.antt =====
-- A key leads to the backend that its session holds, and to no other (crates/havuz-pg/src/cancel.rs).
use havuz.Base.{ℕ, suc, ◌≡◌, Option, none, some, List, [], ◌∷◌, if◌then◌else◌, arith}
use havuz.Cancel.{
  CancelTarget, CancelKey, same_key, Entries, CancelRegistry, scope, retarget, unregister,
}

-- The entry of a key: none where the key is not registered.
unfoldable pub entry_of : CancelKey → Entries → Option (Option CancelTarget)
unfolding same_key
entry_of k [] = none
entry_of k ((j, t) ∷ more) = let rest = entry_of k more in if same_key j k then some t else rest

abbrev pub flatten : Option (Option CancelTarget) → Option CancelTarget
flatten none = none
flatten (some t) = t

-- What the sessions of a server do: a new one gets a key, one borrows or returns a backend, one ends.
pub data Act : Type 0 where
  issue : (secret : ℕ) → Act
  point : (key : CancelKey) (target : Option CancelTarget) → Act
  release : (key : CancelKey) → Act

unfoldable pub act : CancelRegistry → Act → CancelRegistry
unfolding scope retarget unregister
act r (issue secret) = (scope r secret).0
act r (point key target) = retarget r key target
act r (release key) = unregister r key

unfoldable pub act_all : CancelRegistry → List Act → CancelRegistry
unfolding act
act_all r [] = r
act_all r (a ∷ more) = act_all (act r a) more

abbrev pub issues : List Act → ℕ
issues [] = 0
issues (issue secret ∷ more) = suc (issues more)
issues (point key target ∷ more) = issues more
issues (release key ∷ more) = issues more

abbrev repointed : Option (Option CancelTarget) → Option CancelTarget → Option (Option CancelTarget)
repointed none target = none
repointed (some old) target = some target

-- What the session of a key holds, told by its own acts alone: nothing of what other sessions do
-- counts. None once it has ended.
unfoldable pub told :
    CancelKey → Option (Option CancelTarget) → List Act → Option (Option CancelTarget)
unfolding same_key
told k now [] = now
told k now (issue secret ∷ more) = told k now more
told k now (point key target ∷ more) =
    told k (if same_key key k then repointed now target else now) more
told k now (release key ∷ more) = told k (if same_key key k then none else now) more

same_key_sym : (a b : CancelKey) → same_key a b ≡ same_key b a
unfolding same_key
same_key_sym a b = ground arith
