-- ===== src/Sessions.antt =====
-- crates/havuz-control/src/sessions.rs: the registry of the clients that are connected, their limit per
-- user, and how they are kicked. A string is the list of its bytes; the locked map is its entries in
-- the order of their ids. An entry has the flag that its channel holds last; while the entry is there,
-- its session's handle is as well, and so a receiver of the channel: `send` succeeds. The clock is an
-- argument.
pub mod Limit
pub mod Kicks
mod Tests
use havuz.Base.{
  ℕ, zero, suc, ◌+◌, ◌-◌, ◌/◌, ◌%◌, ◌^◌, Bool, true, false, ◌&&◌, Option, none, some, List, [], ◌∷◌,
  leb, ltb, ◌==◌, if◌then◌else◌, length, add64,
}
use havuz.Text.{Bytes, same, before}

pub record LiveSession : Type 0 where
  pub id : ℕ
  pub user : Bytes
  pub pool : Bytes
  pub application : Option Bytes
  pub client_addr : Bytes
  pub since_ms : ℕ
  pub elapsed_us : ℕ

pub record Entry : Type 0 where
  pub public : LiveSession
  pub since : ℕ
  pub kick : Bool

pub record TooManySessions : Type 0 where
  pub user : Bytes
  pub limit : ℕ

abbrev pub Entries : Type 0
Entries = List (ℕ × Entry)

pub record SessionRegistry : Type 0 where
  pub next_id : ℕ
  pub entries : Entries

abbrev pub new : SessionRegistry
new = record { next_id = 1; entries = [] }

-- `BTreeMap::insert`.
unfoldable pub insert : ℕ → Entry → Entries → Entries
insert id e [] = (id, e) ∷ []
insert id e ((j, d) ∷ more) =
    let rest = insert id e more in
    if ltb id j then (id, e) ∷ (j, d) ∷ more else if id == j then (id, e) ∷ more else (j, d) ∷ rest

-- The number of a user's sessions.
unfoldable pub held : Bytes → Entries → ℕ
unfolding same
held user [] = 0
held user ((j, e) ∷ more) =
    let rest = held user more in if same e.public.user user then suc rest else rest

pub data Admission : Type 0 where
  refused : (error : TooManySessions) → Admission
  admitted : (id : ℕ) → Admission

abbrev pub new_entry : ℕ → Bytes → Bytes → Option Bytes → Bytes → ℕ → ℕ → Entry
new_entry id user pool application client_addr now_ms now = record {
  public = record {
    id = id;
    user = user;
    pool = pool;
    application = application;
    client_addr = client_addr;
    since_ms = now_ms;
    elapsed_us = 0;
  };
  since = now;
  kick = false;
}

abbrev pub at_limit : ℕ → ℕ → Bool
at_limit limit count = ltb 0 limit && leb limit count

unfoldable pub register :
    SessionRegistry → Bytes → Bytes → Option Bytes → Bytes → ℕ → ℕ → ℕ → SessionRegistry × Admission
unfolding held insert
register r user pool application client_addr limit now_ms now =
    if at_limit limit (held user r.entries)
    then (r, refused (record { user = user; limit = limit }))
    else (
      record {
        next_id = add64 r.next_id 1;
        entries =
            insert r.next_id (new_entry r.next_id user pool application client_addr now_ms now)
              r.entries;
      },
      admitted r.next_id,
    )

unfoldable pub signal : (Entry → Bool) → Entries → Entries × ℕ
signal matches [] = ([], 0)
signal matches ((j, e) ∷ more) =
    let (rest, n) = signal matches more in
    if matches e then ((j, record e { kick = true }) ∷ rest, suc n) else ((j, e) ∷ rest, n)

abbrev signalled : SessionRegistry → Entries × ℕ → SessionRegistry × ℕ
signalled r (entries, n) = (record r { entries = entries }, n)

unfoldable pub kick_user : SessionRegistry → Bytes → SessionRegistry × ℕ
unfolding signal same
kick_user r user = signalled r (signal (λ e. same e.public.user user) r.entries)

unfoldable pub kick_pool : SessionRegistry → Bytes → SessionRegistry × ℕ
unfolding signal same
kick_pool r pool = signalled r (signal (λ e. same e.public.pool pool) r.entries)

unfoldable pub kick_session : SessionRegistry → ℕ → SessionRegistry × Bool
unfolding signal
kick_session r id =
    let (s, n) = signalled r (signal (λ e. e.public.id == id) r.entries) in (s, ltb 0 n)

unfoldable pub remove : ℕ → Entries → Entries
remove id [] = []
remove id ((j, e) ∷ more) = let rest = remove id more in if j == id then rest else (j, e) ∷ rest

unfoldable pub deregister : SessionRegistry → ℕ → SessionRegistry
unfolding remove
deregister r id = record r { entries = remove id r.entries }

abbrev pub len : SessionRegistry → ℕ
len r = length r.entries

abbrev pub is_empty : SessionRegistry → Bool
is_empty r = len r == 0

-- `elapsed().as_micros() as u64`.
abbrev pub at_instant : ℕ → Entry → LiveSession
at_instant now e = record e.public { elapsed_us = ((now - e.since) / 1_000) % 2 ^ 64 }

-- The sort is stable: a session stays in front of later ones that have lived as long.
unfoldable pub place : LiveSession → List LiveSession → List LiveSession
place s [] = s ∷ []
place s (t ∷ more) =
    let rest = place s more in if leb t.elapsed_us s.elapsed_us then s ∷ t ∷ more else t ∷ rest

unfoldable pub snapshot : ℕ → Entries → List LiveSession
unfolding place
snapshot now [] = []
snapshot now ((j, e) ∷ more) = place (at_instant now e) (snapshot now more)

unfoldable pub add_count : Bytes → List (Bytes × ℕ) → List (Bytes × ℕ)
unfolding same before
add_count user [] = (user, 1) ∷ []
add_count user ((u, n) ∷ more) =
    let rest = add_count user more in
    if same u user
    then (u, add64 n 1) ∷ more
    else if before user u
    then (user, 1) ∷ (u, n) ∷ more
    else (u, n) ∷ rest

unfoldable pub count_from : List (Bytes × ℕ) → Entries → List (Bytes × ℕ)
unfolding add_count
count_from counts [] = counts
count_from counts ((j, e) ∷ more) = count_from (add_count e.public.user counts) more

abbrev pub counts_by_user : SessionRegistry → List (Bytes × ℕ)
counts_by_user r = count_from [] r.entries

unfoldable pub add_user : Bytes → List Bytes → List Bytes
unfolding same before
add_user user [] = user ∷ []
add_user user (u ∷ more) =
    let rest = add_user user more in
    if same u user then u ∷ more else if before user u then user ∷ u ∷ more else u ∷ rest

unfoldable pub users_from : Bytes → List Bytes → Entries → List Bytes
unfolding same add_user
users_from pool users [] = users
users_from pool users ((j, e) ∷ more) =
    users_from pool (if same e.public.pool pool then add_user e.public.user users else users) more

abbrev pub users_in_pool : SessionRegistry → Bytes → List Bytes
users_in_pool r pool = users_from pool [] r.entries

-- What `KickSignal::is_kicked` reads: a signal without a registry never fires.
abbrev pub is_kicked : Option Bool → Bool
is_kicked none = false
is_kicked (some flag) = flag

-- What happens to a registry, the users having fixed limits.
pub data Act : Type 0 where
  connect :
      (user pool : Bytes) (application : Option Bytes) (client_addr : Bytes) (now_ms now : ℕ) → Act
  disconnect : (id : ℕ) → Act
  kick_by_user : (user : Bytes) → Act
  kick_by_pool : (pool : Bytes) → Act
  kick_by_id : (id : ℕ) → Act

abbrev pub act : (Bytes → ℕ) → SessionRegistry → Act → SessionRegistry
act limits r (connect user pool application client_addr now_ms now) =
    (register r user pool application client_addr (limits user) now_ms now).0
act limits r (disconnect id) = deregister r id
act limits r (kick_by_user user) = (kick_user r user).0
act limits r (kick_by_pool pool) = (kick_pool r pool).0
act limits r (kick_by_id id) = (kick_session r id).0

unfoldable pub act_all : (Bytes → ℕ) → SessionRegistry → List Act → SessionRegistry
unfolding register deregister kick_user kick_pool kick_session
act_all limits r [] = r
act_all limits r (a ∷ more) = act_all limits (act limits r a) more
