-- ===== src/Sessions/Kicks.antt =====
-- A kick reaches every session of its user, for good (crates/havuz-control/src/sessions.rs).
use havuz.Base.{
  ℕ, suc, ◌+◌, ◌^◌, ◌≤◌, ◌<◌, ◌≡◌, refl, Bool, false, not, ◌&&◌, Option, List, [], ◌∷◌, ltb, ◌==◌,
  arith, Bool-cases, inl, inr,
}
use havuz.Text.{Bytes, same}
use havuz.Sessions.{
  Entry, Entries, SessionRegistry, new_entry, insert, held, at_limit, register, signal, kick_user,
  kick_pool, kick_session, remove, deregister, Act, connect, disconnect, kick_by_user, kick_by_pool,
  kick_by_id, act_all,
}

-- The sessions of a user with an id below `bound` are all kicked.
abbrev pub AllKicked : Bytes → ℕ → Entries → Type 0
AllKicked user bound [] = Unit {0}
AllKicked user bound ((j, e) ∷ more) =
    ((ltb j bound && same e.public.user user && not e.kick) ≡ false) × AllKicked user bound more

abbrev pub connects : List Act → ℕ
connects [] = 0
connects (connect user pool application client_addr now_ms now ∷ more) = suc (connects more)
connects (disconnect id ∷ more) = connects more
connects (kick_by_user user ∷ more) = connects more
connects (kick_by_pool pool ∷ more) = connects more
connects (kick_by_id id ∷ more) = connects more

kick_user-AllKicked :
    (user : Bytes) (bound : ℕ) (es : Entries)
    → AllKicked user bound (signal (λ e. same e.public.user user) es).0
unfolding signal
kick_user-AllKicked user bound [] = tt
kick_user-AllKicked user bound ((j, e) ∷ more) = elim (Bool-cases (same e.public.user user)) [
  | inl h ↦ rw h (ground arith, kick_user-AllKicked user bound more)
  | inr h ↦ rw h (ground (arith, h), kick_user-AllKicked user bound more)
]

kick_user_count :
    (user : Bytes) (es : Entries) → (signal (λ e. same e.public.user user) es).1 ≡ held user es
unfolding signal held
kick_user_count user [] = refl
kick_user_count user ((j, e) ∷ more) = ground (arith, kick_user_count user more)

signal-AllKicked :
    (user : Bytes) (bound : ℕ) (matches : Entry → Bool) (es : Entries)
    → AllKicked user bound es
    → AllKicked user bound (signal matches es).0
unfolding signal
signal-AllKicked user bound matches [] all = tt
signal-AllKicked user bound matches ((j, e) ∷ more) (h, all) = elim (Bool-cases (matches e)) [
  | inl m ↦ rw m (ground arith, signal-AllKicked user bound matches more all)
  | inr m ↦ rw m (h, signal-AllKicked user bound matches more all)
]

remove-AllKicked :
    (user : Bytes) (bound id : ℕ) (es : Entries)
    → AllKicked user bound es
    → AllKicked user bound (remove id es)
unfolding remove
remove-AllKicked user bound id [] all = tt
remove-AllKicked user bound id ((j, e) ∷ more) (h, all) = elim (Bool-cases (j == id)) [
  | inl m ↦ rw m (remove-AllKicked user bound id more all)
  | inr m ↦ rw m (h, remove-AllKicked user bound id more all)
]

insert-AllKicked :
    (user : Bytes) (bound id : ℕ) (e : Entry) (es : Entries)
    → bound ≤ id
    → AllKicked user bound es
    → AllKicked user bound (insert id e es)
unfolding insert
insert-AllKicked user bound id e [] new_id all = (ground (arith, new_id), tt)
insert-AllKicked user bound id e ((j, d) ∷ more) new_id (h, all) = elim (Bool-cases (ltb id j)) [
  | inl m ↦ rw m (ground (arith, new_id), (h, all))
  | inr m ↦ elim (Bool-cases (id == j)) [
    | inl s ↦ rw (m, s) (ground (arith, new_id), all)
    | inr s ↦ rw (m, s) (h, insert-AllKicked user bound id e more new_id all)
  ]
]

-- What holds of a registry after the kick: the ids that are still to be given are new.
abbrev Since : Bytes → ℕ → ℕ → SessionRegistry → Type 0
Since user bound n r =
    AllKicked user bound r.entries × (bound ≤ r.next_id) × (r.next_id + n < 2 ^ 64)

register-Since :
    (r : SessionRegistry) (u user pool : Bytes) (application : Option Bytes) (client_addr : Bytes)
    (limit now_ms now bound n : ℕ)
    → Since u bound (suc n) r
    → Since u bound n (register r user pool application client_addr limit now_ms now).0
unfolding register
register-Since r u user pool application client_addr limit now_ms now bound n (all, later, fits) =
    elim (Bool-cases (at_limit limit (held user r.entries))) [
      | inl e ↦ rw e (all, later, omega (arith, fits))
      | inr e ↦ rw e (
        insert-AllKicked u bound r.next_id
            (new_entry r.next_id user pool application client_addr now_ms now) r.entries later all,
        omega (arith, later, fits),
        omega (arith, fits),
      )
    ]

act_all-Since :
    (limits : Bytes → ℕ) (user : Bytes) (bound : ℕ) (r : SessionRegistry) (acts : List Act)
    → Since user bound (connects acts) r
    → AllKicked user bound (act_all limits r acts).entries
unfolding act_all deregister kick_user kick_pool kick_session
act_all-Since limits user bound r [] (all, later, fits) = all
act_all-Since limits user bound r (connect u pool application client_addr now_ms now ∷ more) h =
    act_all-Since limits user bound
      (register r u pool application client_addr (limits u) now_ms now).0 more
      (register-Since r user u pool application client_addr (limits u) now_ms now bound
        (connects more) h)
act_all-Since limits user bound r (disconnect id ∷ more) (all, later, fits) =
    act_all-Since limits user bound (deregister r id) more
      (remove-AllKicked user bound id r.entries all, later, fits)
act_all-Since limits user bound r (kick_by_user u ∷ more) (all, later, fits) =
    act_all-Since limits user bound (kick_user r u).0 more
      (signal-AllKicked user bound (λ e. same e.public.user u) r.entries all, later, fits)
act_all-Since limits user bound r (kick_by_pool pool ∷ more) (all, later, fits) =
    act_all-Since limits user bound (kick_pool r pool).0 more
      (signal-AllKicked user bound (λ e. same e.public.pool pool) r.entries all, later, fits)
act_all-Since limits user bound r (kick_by_id id ∷ more) (all, later, fits) =
    act_all-Since limits user bound (kick_session r id).0 more
      (signal-AllKicked user bound (λ e. e.public.id == id) r.entries all, later, fits)

-- Kicking a user reaches every session that the user has at that moment, and says how many these are.
-- Whatever happens afterwards, each of them that is still connected stays kicked, so that a session
-- that looks at its signal later does not miss it; the ids of later sessions are higher, up to the
-- wrap-around of the counter.
pub kick_reaches_all :
    (limits : Bytes → ℕ) (r : SessionRegistry) (user : Bytes) (acts : List Act)
    → r.next_id + connects acts < 2 ^ 64
    → ((kick_user r user).1 ≡ held user r.entries)
      × AllKicked user r.next_id (act_all limits (kick_user r user).0 acts).entries
unfolding kick_user
kick_reaches_all limits r user acts fits = (
  kick_user_count user r.entries,
  act_all-Since limits user r.next_id (kick_user r user).0 acts
      (kick_user-AllKicked user r.next_id r.entries, omega arith, fits),
)
