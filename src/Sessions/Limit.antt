-- ===== src/Sessions/Limit.antt =====
-- No user holds more sessions than allowed (crates/havuz-control/src/sessions.rs).
use havuz.Base.{
  ℕ, suc, ◌≤◌, ◌<◌, ◌≡◌, refl, ap, Bool, true, false, Option, List, [], ◌∷◌, ◌==◌, if◌then◌else◌,
  arith, Bool-cases, inl, inr,
}
use havuz.Text.{Bytes, same}
use havuz.Prepared.Names.{same_sound}
use havuz.Sessions.{
  Entry, Entries, SessionRegistry, new, new_entry, insert, held, at_limit, register, signal,
  kick_user, kick_pool, kick_session, remove, deregister, Act, connect, disconnect, kick_by_user,
  kick_by_pool, kick_by_id, act, act_all,
}

held-insert :
    (user : Bytes) (id : ℕ) (e : Entry) (es : Entries)
    → held user (insert id e es)
      ≤ (if same e.public.user user then suc (held user es) else held user es)
unfolding held insert
held-insert user id e [] = ground arith
held-insert user id e ((j, d) ∷ more) = ground (arith, held-insert user id e more)

held-signal :
    (user : Bytes) (matches : Entry → Bool) (es : Entries)
    → held user (signal matches es).0 ≡ held user es
unfolding held signal
held-signal user matches [] = refl
held-signal user matches ((j, e) ∷ more) = ground (arith, held-signal user matches more)

held-remove : (user : Bytes) (id : ℕ) (es : Entries) → held user (remove id es) ≤ held user es
unfolding held remove
held-remove user id [] = omega arith
held-remove user id ((j, e) ∷ more) = ground (arith, held-remove user id more)

-- Where a user may connect, one more session is within the limit.
room :
    (user u : Bytes) (es : Entries) (limit n : ℕ)
    → at_limit limit (held user es) ≡ false
    → 0 < n
    → held u es ≤ n
    → (same user u ≡ true → limit ≡ n)
    → (if same user u then suc (held u es) else held u es) ≤ n
room user u es limit n free positive h same_limit = elim (Bool-cases (same user u)) [
  | inl e ↦
      rw e (ground (arith, free, positive, same_limit e, ap (λ x. held x es) (same_sound user u e)))
  | inr e ↦ rw e h
]

register-held :
    (r : SessionRegistry) (u user pool : Bytes) (application : Option Bytes) (client_addr : Bytes)
    (limit now_ms now n : ℕ)
    → 0 < n
    → held u r.entries ≤ n
    → (same user u ≡ true → limit ≡ n)
    → held u (register r user pool application client_addr limit now_ms now).0.entries ≤ n
unfolding register
register-held r u user pool application client_addr limit now_ms now n positive h same_limit =
    elim (Bool-cases (at_limit limit (held user r.entries))) [
      | inl e ↦ rw e h
      | inr e ↦
          let added =
            held-insert u r.next_id
              (new_entry r.next_id user pool application client_addr now_ms now) r.entries in
          rw e (omega (arith, added, room user u r.entries limit n e positive h same_limit))
    ]

act-held :
    (limits : Bytes → ℕ) (u : Bytes) (r : SessionRegistry) (a : Act)
    → 0 < limits u
    → held u r.entries ≤ limits u
    → held u (act limits r a).entries ≤ limits u
unfolding deregister kick_user kick_pool kick_session
act-held limits u r (connect user pool application client_addr now_ms now) positive h =
    register-held r u user pool application client_addr (limits user) now_ms now (limits u) positive
      h (λ e. ap limits (same_sound user u e))
act-held limits u r (disconnect id) positive h = omega (arith, h, held-remove u id r.entries)
act-held limits u r (kick_by_user user) positive h =
    omega (arith, h, held-signal u (λ e. same e.public.user user) r.entries)
act-held limits u r (kick_by_pool pool) positive h =
    omega (arith, h, held-signal u (λ e. same e.public.pool pool) r.entries)
act-held limits u r (kick_by_id id) positive h =
    omega (arith, h, held-signal u (λ e. e.public.id == id) r.entries)

act_all-held :
    (limits : Bytes → ℕ) (u : Bytes) (r : SessionRegistry) (acts : List Act)
    → 0 < limits u
    → held u r.entries ≤ limits u
    → held u (act_all limits r acts).entries ≤ limits u
unfolding act_all
act_all-held limits u r [] positive h = h
act_all-held limits u r (a ∷ more) positive h =
    act_all-held limits u (act limits r a) more positive (act-held limits u r a positive h)

-- A user with a limit, one that is not 0, never holds more sessions than it, in whatever order clients
-- connect, leave and are kicked.
pub limit_holds :
    (limits : Bytes → ℕ) (user : Bytes) (acts : List Act)
    → 0 < limits user
    → held user (act_all limits new acts).entries ≤ limits user
unfolding held
limit_holds limits user acts positive = act_all-held limits user new acts positive (omega arith)
