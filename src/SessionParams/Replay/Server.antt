-- ===== src/SessionParams/Replay/Server.antt =====
-- What a backend's parameters are after the statements of `delta` (crates/havuz-pg/src/params.rs,
-- crates/havuz-pg/src/txn.rs).
use havuz.Base.{Option, some, List}
use havuz.Chars.{Str}
use havuz.SessionParams.Replay.{ParamSync, applied}
use havuz.SessionParams.Replay.Sql.{SqlServer}
use havuz.SessionParams.Replay.Delta.{run_text}

module _ (P : SqlServer) where
  open P use {State, run, value, does_set}

  -- The server after the text, all of which an error in it rolls back.
  abbrev pub answered : State → List Str → Option ParamSync → State
  answered s statements (some applied) = run_text P s statements
  answered s statements outcome = s
