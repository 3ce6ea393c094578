-- ===== src/SessionParams/Replay.antt =====
-- crates/havuz-pg/src/params.rs: the statements that bring a backend in line with a client; and from
-- crates/havuz-pg/src/txn.rs the exchange that sends them.
pub mod Sql
pub mod Delta
pub mod Server
pub mod Settled
use havuz.Base.{
  ℕ, zero, suc, length, ◌≡◌, refl, sym, ap, ◌∙◌, Bool, true, false, ◌||◌, Option, none, some, List,
  [], ◌∷◌, ◌++◌, ◌==◌, if◌then◌else◌, Bool-cases, Option-cases, ◌⊎◌, inl, inr, arith,
}
use havuz.Text.{same, Bytes, until_nul}
use havuz.Chars.{Str, codes, from_utf8_lossy, utf8}
use havuz.Prepared.Names.{same_refl, same_sound, same_sym}
use havuz.Protocol.{Message}
use havuz.SessionParams.{is_parameter_name}
use havuz.SessionParams.Sorted.{Params, get, insert, remove, IsOrdered, Above, Above-absent}
use havuz.SessionParams.Client.{ClientParams}

abbrev pub reset_statement : Str → Str
reset_statement name = codes "RESET " ++ name

abbrev pub is_wanted : Option Str → Bool
is_wanted none = false
is_wanted (some statement) = true

-- The resets, in the order of the names.
unfoldable pub resets : Params → Params → List Str
unfolding get
resets desired [] = []
resets desired ((name, statement) ∷ more) =
    let rest = resets desired more in
    if is_wanted (get name desired) then rest else reset_statement name ∷ rest

abbrev pub has_already : Option Str → Str → Bool
has_already none statement = false
has_already (some applied) statement = same applied statement

unfoldable pub sets : Params → Params → List Str
unfolding get same
sets applied [] = []
sets applied ((name, statement) ∷ more) =
    let rest = sets applied more in
    if has_already (get name applied) statement then rest else statement ∷ rest

unfoldable pub delta : Params → Params → List Str
unfolding resets sets
delta desired applied = resets desired applied ++ sets applied desired

-- `join("; ")`.
unfoldable pub join : List Str → Str
join [] = []
join (s ∷ []) = s
join (s ∷ t ∷ more) = s ++ (codes "; " ++ join (t ∷ more))

unfoldable pub as_bytes : Str → Bytes
unfolding utf8
as_bytes [] = []
as_bytes (c ∷ cs) = utf8 c ++ as_bytes cs

-- The fields of an `ErrorResponse`: a letter and a text each, up to an empty one. Each takes two
-- bytes at least, so the length is fuel enough.
unfoldable pub error_fields : ℕ → Bytes → List (ℕ × Str)
unfolding until_nul from_utf8_lossy
error_fields zero bytes = []
error_fields (suc fuel) bytes = elim (until_nul bytes) [
  | none ↦ []
  | some (field, rest) ↦ elim field [
    | [] ↦ []
    | c ∷ cs ↦ (c, from_utf8_lossy cs) ∷ error_fields fuel rest
  ]
]

unfoldable pub message_field : List (ℕ × Str) → Str
message_field [] = codes "backend rejected the parameter"
message_field ((field, text) ∷ more) =
    let later = message_field more in if field == b'M' then text else later

-- What the replies to the batch say: none where the stream ends before `ReadyForQuery`, else the last
-- failure, if any.
unfoldable pub await_replies : Option Str → List Message → Option (Option Str)
unfolding error_fields message_field
await_replies failure [] = none
await_replies failure (reply ∷ more) =
    let next =
      if reply.tag == b'E'
      then some (message_field (error_fields (length reply.body) reply.body))
      else failure in
    let later = await_replies next more in if reply.tag == b'Z' then some failure else later

pub data ParamSync : Type 0 where
  unchanged applied : ParamSync
  refused : (detail sql : Str) → ParamSync

-- The message that is sent, and the outcome with the parameters then recorded for the backend; none
-- is an error of the stream.
pub record Sync : Type 0 where
  pub sent : Option Message
  pub outcome : Option ParamSync
  pub recorded : Params

abbrev pub went_well : Option ParamSync → Bool
went_well (some unchanged) = true
went_well (some applied) = true
went_well outcome = false

abbrev pub outcome_of : Option (Option Str) → Str → Option ParamSync
outcome_of none sql = none
outcome_of (some none) sql = some applied
outcome_of (some (some detail)) sql = some (refused detail sql)

abbrev pub recorded_after : Option (Option Str) → Params → Params → Params
recorded_after none before desired = before
recorded_after (some none) before desired = desired
recorded_after (some (some detail)) before desired = before

unfoldable pub batch_message : Str → Message
unfolding as_bytes
batch_message sql = record { tag = b'Q'; body = as_bytes sql ++ 0 ∷ [] }

unfoldable pub sync_batch : Params → Params → List Str → List Message → Sync
unfolding join batch_message await_replies
sync_batch desired before [] replies = record {
  sent = none;
  outcome = some unchanged;
  recorded = before;
}
sync_batch desired before (s ∷ more) replies = record {
  sent = some (batch_message (join (s ∷ more)));
  outcome = outcome_of (await_replies none replies) (join (s ∷ more));
  recorded = recorded_after (await_replies none replies) before desired;
}

-- `sync_params`, with the messages that the backend answers.
unfoldable pub sync_params : ClientParams → Params → List Message → Sync
unfolding delta sync_batch
sync_params c before replies = sync_batch c.desired before (delta c.desired before) replies
