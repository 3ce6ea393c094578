-- ===== src/Prepared/Relay.antt =====
-- What a session does with a rewritten message (crates/havuz-pg/src/txn.rs): what it sends to the
-- backend out of band, and how the two caches change.
use havuz.Base.{Option, none, some, List, [], ◌∷◌, ◌++◌, if◌then◌else◌, ◌==◌}
use havuz.Prepared.Wire.{Bytes, Message, Checked, ok}
use havuz.Prepared.{
  BackendStatements, has, insert, remove, ClientStatements, forget, Rewrite, unchanged, replace,
  replay_then, parse, close_statement, on_parse, on_bind, on_describe_or_close,
}

-- Sent ahead of the client's message: a `Close`, or a `Parse` by its name and its body.
pub data Sent : Type 0 where
  closes : Bytes → Sent
  parses : Bytes → Bytes → Sent

-- `rewrite_prepared`.
unfoldable pub rewrite_prepared :
    (Bytes → Bytes)
    → ClientStatements
    → Message
    → BackendStatements
    → ClientStatements × Checked Rewrite
unfolding on_parse on_bind on_describe_or_close
rewrite_prepared digest c msg b =
    if msg.tag == 80
    then on_parse digest c msg
    else if msg.tag == 66
    then (c, on_bind c msg b)
    else if msg.tag == 68
    then (c, on_describe_or_close c msg b)
    else if msg.tag == 67
    then (c, on_describe_or_close c msg b)
    else (c, ok unchanged)

abbrev pub close_evicted : Option Bytes → List Sent
close_evicted none = []
close_evicted (some old) = closes old ∷ []

-- A name that is to be parsed anew is closed first.
unfoldable pub free_name : BackendStatements → Bytes → BackendStatements × List Sent
unfolding has remove
free_name b n = if has b n then (remove b n, closes n ∷ []) else (b, [])

-- The replies to the messages sent here are assumed to be no errors.
unfoldable pub settle :
    ClientStatements
    → BackendStatements
    → Message
    → Rewrite
    → ClientStatements × BackendStatements × List Sent × Message
unfolding free_name insert remove forget
settle c b msg unchanged = (c, b, [], msg)
settle c b msg (replace m) = (c, b, [], m)
settle c b msg (parse g m) =
    let (b', freed) = free_name b g in
    let (b'', evicted) = insert b' g in (c, b'', freed ++ close_evicted evicted, m)
settle c b msg (close_statement g name m) = (forget c name, remove b g, [], m)
settle c b msg (replay_then body g m) =
    let (b', evicted) = insert b g in (c, b', parses g body ∷ close_evicted evicted, m)

-- The same when a whole exchange is replayed on another backend, where a statement that the cache
-- displaces for a `Parse` is not closed.
unfoldable pub settle_again :
    ClientStatements
    → BackendStatements
    → Message
    → Rewrite
    → ClientStatements × BackendStatements × List Sent × Message
unfolding settle free_name insert
settle_again c b msg (parse g m) =
    let (b', freed) = free_name b g in let (b'', evicted) = insert b' g in (c, b'', freed, m)
settle_again c b msg other = settle c b msg other
