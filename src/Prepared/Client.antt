-- ===== src/Prepared/Client.antt =====
-- What a client's messages are rewritten to (crates/havuz-pg/src/prepared.rs,
-- crates/havuz-pg/src/txn.rs), and whole sessions of them on one backend.
use havuz.Base.{List, [], ◌∷◌}
use havuz.Prepared.Wire.{Bytes, Message, Checked, ok, err}
use havuz.Prepared.{BackendStatements, ClientStatements, Rewrite}
use havuz.Prepared.Relay.{rewrite_prepared, settle}
use havuz.Prepared.Cache.{Inv}
use havuz.Prepared.Mirror.{Server, Mirrors, send_all, arrive, IsDue, IsQuiet}

-- A checked rewrite asks only for replays that are due.
abbrev AllDue : BackendStatements → Checked Rewrite → Type 0
AllDue b (ok r) = IsDue b r
AllDue b (err e) = Unit {0}

module _ (P : Server) (digest : Bytes → Bytes) where
  -- One that is malformed or names an unknown statement is answered with an error and goes no
  -- further.
  unfoldable pub forward :
      BackendStatements × P.State
      → ClientStatements
      → Message
      → Checked Rewrite
      → BackendStatements × P.State
  unfolding settle
  forward w c msg (err e) = w
  forward (b, s) c msg (ok r) =
      let (c', b', sent, out) = settle c b msg r in (b', arrive P (send_all P s sent) msg r)

  -- A message of some client, with that client's statements, on a backend and its server.
  unfoldable pub handle :
      BackendStatements × P.State → ClientStatements × Message → BackendStatements × P.State
  unfolding rewrite_prepared forward
  handle (b, s) (c, msg) =
      let (c', checked) = rewrite_prepared digest c msg b in forward (b, s) c' msg checked

  unfoldable pub handle_all :
      BackendStatements × P.State → List (ClientStatements × Message) → BackendStatements × P.State
  handle_all w [] = w
  handle_all w (m ∷ ms) = handle_all (handle w m) ms

  abbrev IsQuietly : P.State → Message → Checked Rewrite → Type 0
  IsQuietly s msg (err e) = Unit {0}
  IsQuietly s msg (ok r) = IsQuiet P s msg r

  -- Along the run, no message that is forwarded as it came changes the names that the server holds.
  abbrev pub AllQuiet : BackendStatements × P.State → List (ClientStatements × Message) → Type 0
  AllQuiet w [] = Unit {0}
  AllQuiet w ((c, msg) ∷ ms) =
      IsQuietly w.1 msg (rewrite_prepared digest c msg w.0).1 × AllQuiet (handle w (c, msg)) ms

  abbrev IsSound : BackendStatements × P.State → Type 0
  IsSound (b, s) = Inv b × Mirrors P b s
