-- ===== src/Prepared/Faults.antt =====
-- Where a backend's cache and its server part ways (crates/havuz-pg/src/txn.rs).
use havuz.Base.{◌≡◌, refl, ap, ◌∙◌, true, false, Option, none, some, List, ◌∷◌, length, arith}
use havuz.Prepared.Wire.{Bytes, same, Message, ok, replace_cstring}
use havuz.Prepared.{
  BackendStatements, contains, has, insert, max_statements, redirect_to, PreparedStatement, replace,
  ClientStatements, parse,
}
use havuz.Prepared.Relay.{settle, settle_again}
use havuz.Prepared.Names.{same_refl, same_sym}
use havuz.Prepared.Cache.{Inv, Inserted, is_it, insert_lem, has-insert}
use havuz.Prepared.Mirror.{Server, Mirrors, send_all, arrive, settle-Mirrors, free_name_free}

replaced :
    (bind : Message) (g body : Bytes) (b : BackendStatements) (st : PreparedStatement)
    → st.global ≡ g
    → replace_cstring bind.body 1 g ≡ ok body
    → has b g ≡ true
    → redirect_to bind 1 b st ≡ ok (replace (record { tag = bind.tag; body = body }))
unfolding redirect_to
replaced bind g body b st e r known =
    let r' : replace_cstring bind.body 1 st.global ≡ ok body = rw e r in
    let k : has b st.global ≡ true = rw e known in rw (r', k, redirect_to) refl

full_evicts :
    (l : List Bytes) (n old : Bytes) (rest : List Bytes) (r : BackendStatements × Option Bytes)
    → Inserted l n r
    → l ≡ old ∷ rest
    → length l ≡ max_statements
    → r.1 ≡ some old
full_evicts l n old rest (c, none) (room, i) e full = absurd (omega (arith, room, full))
full_evicts l n old rest (c, some o) (tail, i, l_is, k) e full = ground (arith)

-- A `Parse` that the server refuses is remembered as if it had succeeded. Where cache and server
-- agree, and a client's `Parse` is settled and the server then answers it with an error, the cache
-- has the global name and the server does not hold it; so a later `Bind` to it on this backend, by
-- any client, is forwarded without the replay that it needs.
pub failed_parse_remembered :
    (P : Server) (c : ClientStatements) (b : BackendStatements) (s : P.State) (msg m : Message)
    (g body : Bytes) (bind : Message) (st : PreparedStatement)
    → Inv b
    → Mirrors P b s
    → st.global ≡ g
    → replace_cstring bind.body 1 g ≡ ok body
    → let (c', b', sent, out) = settle c b msg (parse g m) in
      (has b' g ≡ true)
      × (P.holds (send_all P s sent) g ≡ false)
      × (redirect_to bind 1 b' st ≡ ok (replace (record { tag = bind.tag; body = body })))
failed_parse_remembered P c b s msg m g body bind st v h e r =
    let (w, mirrors, free) = settle-Mirrors P c b s msg (parse g m) v h tt tt in
    let b' = (settle c b msg (parse g m)).1 in
    let s' = send_all P s (settle c b msg (parse g m)).2 in
    let known : has b' g ≡ true =
      ground (arith, mirrors g, P.holds-parse s' g g free, same_refl g) in
    (known, free, replaced bind g body b' st e r known)

oldest_held :
    (b : BackendStatements) (g old : Bytes) (rest : List Bytes)
    → Inv b
    → has b g ≡ false
    → b.order ≡ old ∷ rest
    → (has b old ≡ true) × (same g old ≡ false)
unfolding has contains
oldest_held b g old rest v lacks e =
    let l = v.agree ∙ e in
    let without_g : contains (old ∷ rest) g ≡ false = rw l at lacks in
    (rw l (ground (arith, same_refl old)), ground (arith, same_sym g old, without_g))

-- When an exchange is replayed on another backend, the statement that a full cache displaces for a
-- `Parse` is not closed. Where cache and server agree, the cache is full and lacks the name, the
-- server afterwards still holds the oldest name and the cache does not have it: a later replay of
-- that statement would be refused.
pub displaced_statement_leaks :
    (P : Server) (c : ClientStatements) (b : BackendStatements) (s : P.State) (msg m : Message)
    (g old : Bytes) (rest : List Bytes)
    → Inv b
    → Mirrors P b s
    → has b g ≡ false
    → b.order ≡ old ∷ rest
    → length b.order ≡ max_statements
    → let (c', b', sent, out) = settle_again c b msg (parse g m) in
      (has b' old ≡ false) × (P.holds (arrive P (send_all P s sent) msg (parse g m)) old ≡ true)
unfolding settle_again send_all
displaced_statement_leaks P c b s msg m g old rest v h lacks oldest full =
    let (held, other) = oldest_held b g old rest v lacks oldest in
    let evicted =
      full_evicts b.order g old rest (insert b g) (insert_lem b g v lacks) oldest full in
    rw (free_name_free b g lacks) (
      ground
          (arith, has-insert b g old v lacks, ap (λ e. is_it e old) evicted, same_refl old, other),
      ground (arith, P.holds-parse s g old (ground (arith, h g, lacks)), other, h old, held),
    )
