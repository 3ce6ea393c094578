-- ===== src/Prepared/Mirror.antt =====
-- A backend's cache and the statements that its server holds (crates/havuz-pg/src/prepared.rs,
-- crates/havuz-pg/src/txn.rs).
use havuz.Base.{
  ◌≡◌, refl, sym, ap, ◌∙◌, Bool, true, false, not, ◌&&◌, Option, none, some, List, [], ◌∷◌, ◌++◌,
  if◌then◌else◌, Bool-cases, inl, inr, arith,
}
use havuz.Prepared.Wire.{Bytes, same, Message}
use havuz.Prepared.{
  BackendStatements, has, insert, remove, ClientStatements, Rewrite, unchanged, replace,
  replay_then, parse, close_statement,
}
use havuz.Prepared.Relay.{Sent, closes, parses, close_evicted, free_name, settle}
use havuz.Prepared.Names.{same_refl, same_sound}
use havuz.Prepared.Cache.{Inv, is_it, is_it-insert, has-remove, has-insert, insert-Inv, remove-Inv}

-- PostgreSQL, as far as the names of its prepared statements go, the unnamed one apart: a `Parse` under
-- a free name, when it succeeds, adds it, and a `Close` removes the name, or does nothing if it is not
-- held. What a message does that is forwarded as it came is left open, as it may be SQL that empties
-- the names.
pub record Server : Type 1 where
  pub State : Type 0
  pub holds : State → Bytes → Bool
  pub parse_name : State → Bytes → State
  pub close_name : State → Bytes → State
  pub pass_on : State → Message → State
  pub holds-parse :
      (s : State) (n m : Bytes)
      → holds s n ≡ false
      → holds (parse_name s n) m ≡ (if same n m then true else holds s m)
  pub holds-close :
      (s : State) (n m : Bytes) → holds (close_name s n) m ≡ (if same n m then false else holds s m)

is_it_at : (e : Option Bytes) (n m : Bytes) → same n m ≡ true → is_it e n ≡ is_it e m
is_it_at e n m h = ap (is_it e) (same_sound n m h)

free_name_held :
    (b : BackendStatements) (n : Bytes)
    → has b n ≡ true
    → free_name b n ≡ (remove b n, closes n ∷ [])
unfolding free_name
free_name_held b n h = ground arith

pub free_name_free : (b : BackendStatements) (n : Bytes) → has b n ≡ false → free_name b n ≡ (b, [])
unfolding free_name
free_name_free b n h = ground arith

-- A replay is asked for only of a statement that the cache lacks.
abbrev pub IsDue : BackendStatements → Rewrite → Type 0
IsDue b (replay_then body g m) = has b g ≡ false
IsDue b _ = Unit {0}

module _ (P : Server) where
  open P use {State, holds, parse_name, close_name, pass_on, holds-parse, holds-close}

  -- The cache knows exactly the names that the server holds.
  abbrev pub Mirrors : BackendStatements → State → Type 0
  Mirrors b s = (m : Bytes) → has b m ≡ holds s m

  unfoldable pub send_all : State → List Sent → State
  send_all s [] = s
  send_all s (closes n ∷ rest) = send_all (close_name s n) rest
  send_all s (parses n body ∷ rest) = send_all (parse_name s n) rest

  -- What the client's message does when it arrives in turn.
  abbrev pub arrive : State → Message → Rewrite → State
  arrive s msg unchanged = pass_on s msg
  arrive s msg (parse g m) = parse_name s g
  arrive s msg (close_statement g name m) = close_name s g
  arrive s msg _ = s

  -- A message that is forwarded as it came changes no names.
  abbrev pub IsQuiet : State → Message → Rewrite → Type 0
  IsQuiet s msg unchanged = (m : Bytes) → holds (pass_on s msg) m ≡ holds s m
  IsQuiet s msg _ = Unit {0}

  holds-evicted :
      (s : State) (e : Option Bytes) (m : Bytes)
      → holds (send_all s (close_evicted e)) m ≡ (holds s m && not (is_it e m))
  unfolding send_all
  holds-evicted s none m = ground arith
  holds-evicted s (some old) m = ground (arith, holds-close s old m)

  abbrev room_for : BackendStatements → Bytes → State → State
  room_for b n s = send_all s (close_evicted (insert b n).1)

  -- The new name is free when its `Parse` arrives after the displaced one was closed.
  insert_then_parse :
      (b : BackendStatements) (s : State) (n : Bytes)
      → Inv b
      → Mirrors b s
      → has b n ≡ false
      → (holds (room_for b n s) n ≡ false) × Mirrors (insert b n).0 (parse_name (room_for b n s) n)
  insert_then_parse b s n v same_names h =
      let free : holds (room_for b n s) n ≡ false =
        ground (arith, holds-evicted s (insert b n).1 n, same_names n) in
      (
        free,
        λ m. ground (
          arith,
          has-insert b n m v h,
          holds-parse (room_for b n s) n m free,
          holds-evicted s (insert b n).1 m,
          same_names m,
        ),
      )

  parse_then_insert :
      (b : BackendStatements) (s : State) (n : Bytes)
      → Inv b
      → Mirrors b s
      → has b n ≡ false
      → (holds s n ≡ false) × Mirrors (insert b n).0 (room_for b n (parse_name s n))
  parse_then_insert b s n v same_names h =
      let free : holds s n ≡ false = ground (arith, same_names n) in
      (
        free,
        λ m. ground (
          arith,
          has-insert b n m v h,
          holds-parse s n m free,
          holds-evicted (parse_name s n) (insert b n).1 m,
          same_names m,
          is_it-insert b n v h,
          is_it_at (insert b n).1 n m,
        ),
      )

  free_name_lem :
      (b : BackendStatements) (s : State) (n : Bytes)
      → Inv b
      → Mirrors b s
      → Inv (free_name b n).0
        × (has (free_name b n).0 n ≡ false)
        × Mirrors (free_name b n).0 (send_all s (free_name b n).1)
  unfolding send_all
  free_name_lem b s n v same_names = elim (Bool-cases (has b n)) [
    | inl e ↦ rw (free_name_held b n e) (
      remove-Inv b n v,
      ground (arith, has-remove b n n, same_refl n),
      λ m. ground (arith, has-remove b n m, holds-close s n m, same_names m),
    )
    | inr e ↦ rw (free_name_free b n e) (v, e, same_names)
  ]

  send_all-append :
      (s : State) (xs ys : List Sent) → send_all s (xs ++ ys) ≡ send_all (send_all s xs) ys
  unfolding send_all
  send_all-append s [] ys = refl
  send_all-append s (closes n ∷ xs) ys = send_all-append (close_name s n) xs ys
  send_all-append s (parses n body ∷ xs) ys = send_all-append (parse_name s n) xs ys

  -- Before the messages sent ahead and after them, the server is ready for what it is sent: a name
  -- to be parsed is free, and the name of a replayed statement is held when the message arrives.
  abbrev pub IsReady : State → State → Rewrite → Type 0
  IsReady s s' (parse g m) = holds s' g ≡ false
  IsReady s s' (replay_then body g m) = (holds s g ≡ false) × (holds s' g ≡ true)
  IsReady s s' _ = Unit {0}

  -- The relay keeps a backend's cache equal to what its server holds. If it is, every message is
  -- answered without an error, and one that is forwarded as it came changes no names, then after a client's message has been settled and has arrived it is
  -- again, and still satisfies its invariant; a statement is never parsed under a name that the
  -- server holds, and one that is replayed is held when the client's message arrives.
  pub settle-Mirrors :
      (c : ClientStatements) (b : BackendStatements) (s : State) (msg : Message) (r : Rewrite)
      → Inv b
      → Mirrors b s
      → IsDue b r
      → IsQuiet s msg r
      → let (c', b', sent, out) = settle c b msg r in
        Inv b' × Mirrors b' (arrive (send_all s sent) msg r) × IsReady s (send_all s sent) r
  unfolding settle send_all
  settle-Mirrors c b s msg unchanged v h due quiet = (v, λ m. h m ∙ sym (quiet m), tt)
  settle-Mirrors c b s msg (replace m) v h due quiet = (v, h, tt)
  settle-Mirrors c b s msg (parse g m) v h due quiet =
      let (w, free, k) = free_name_lem b s g v h in
      let b' = (free_name b g).0 in
      let s' = send_all s (free_name b g).1 in
      let (ready, mirrors) = insert_then_parse b' s' g w k free in
      (
        insert-Inv b' g w free,
        rw (send_all-append s (free_name b g).1 (close_evicted (insert b' g).1)) mirrors,
        rw (send_all-append s (free_name b g).1 (close_evicted (insert b' g).1)) ready,
      )
  settle-Mirrors c b s msg (close_statement g name m) v h due quiet =
      (remove-Inv b g v, λ m. ground (arith, has-remove b g m, holds-close s g m, h m), tt)
  settle-Mirrors c b s msg (replay_then body g m) v h due quiet =
      let (free, mirrors) = parse_then_insert b s g v h due in
      (
        insert-Inv b g v due,
        mirrors,
        (free, ground (arith, mirrors g, has-insert b g g v due, same_refl g)),
      )
