-- ===== src/Lib.antt =====
-- Verification of havuz, a database connection pooler: the parts that decide which client uses
-- which connection, and when.
--
-- A client session asks the router for a target (a primary or a replica), takes a connection from
-- that target's pool, relays messages over it, folds what it sees into a session state, and gives
-- the connection back when that state says so. Every replica has a circuit breaker, which the
-- router asks and which the outcome of statements and of health probes moves.
--
--   file               code                                  what
--   Breaker.antt       crates/havuz-pool/src/breaker.rs      `CircuitBreaker`, each method as one
--                                                            step; Breaker/Interleaving.antt has
--                                                            `allows` by its atomic operations
--   Counters.antt      crates/havuz-pool/src/counters.rs     `Counters`, `PoolSnapshot`
--   Pool.antt          crates/havuz-pool/src/pool.rs         `Inner`, `Slot`, `PoolStatus`
--   Pool/Checkout.antt crates/havuz-pool/src/pool.rs         `Pool::acquire`, `Checkout`
--   Pool/Admin.antt    crates/havuz-pool/src/pool.rs         `pause`, `resume`, `drain`, `close`,
--                                                            `close_idle`, `reap`, the closing task
--   Pool/World.antt    crates/havuz-pool/src/pool.rs         any number of callers that interleave
--   Pool/Warmup.antt   crates/havuz-pool/src/pool.rs         `Pool::warmup`
--   Flow.antt          crates/havuz-proto/src/flow.rs        `SessionState`, `FlowEvent`
--   Prepared.antt      crates/havuz-pg/src/prepared.rs       `BackendStatements`, `ClientStatements`;
--                                                            Prepared/Wire.antt has the messages
--   Prepared/Relay.antt crates/havuz-pg/src/txn.rs           what a session does with a rewritten
--                                                            message
--   Protocol.antt      crates/havuz-pg/src/protocol.rs       `Message`, `ProtocolError`;
--                                                            Protocol/Startup.antt has
--                                                            `StartupPacket`
--   Lexer.antt         crates/havuz-pg/src/classify.rs       `split_statements`, `strip_literals`,
--                                                            `strip_leading_noise`, `leading_words`
--   Classify.antt      crates/havuz-pg/src/classify.rs       `classify`, `sql_pin_reason`,
--                                                            `route_intent`
--   SessionParams.antt crates/havuz-pg/src/params.rs         `classify_set`, `actions_for_sql`,
--                                                            `defeats_read_only`; its children
--                                                            Startup, Client and Replay have
--                                                            `ClientParams`, Replay and Relay also
--                                                            what crates/havuz-pg/src/txn.rs does
--   Pins.antt          crates/havuz-proto/src/pins.rs        `PinRegistry`
--   Cancel.antt        crates/havuz-pg/src/cancel.rs         `CancelRegistry`, `CancelScope`
--   Config.antt        crates/havuz-core/src/state.rs        `State::validate`; Config/Listeners.antt
--                                                            has `State::listeners`
--   Sessions.antt      crates/havuz-control/src/sessions.rs  `SessionRegistry`, `KickSignal`
--   Capture.antt       crates/havuz-control/src/trace.rs     `ResultCapture`
--   SessionRules.antt  crates/havuz-registry/src/session.rs  `SessionRules::classify`
--   Rewrite.antt       crates/havuz-jdbc/src/rewrite.rs      `to_jdbc`
--   Routing.antt       crates/havuz-pg/src/routing.rs        `Router`, `ReplicaState`,
--                                                            `SessionRouting`, `RoutingStats`
--   Routing/Health.antt crates/havuz-pg/src/health.rs        `ProbeResult`, `apply_to_replica`
--
-- Base holds the shared names, Boolean tests and machine words, Text the strings as bytes, Chars the
-- texts as characters with the operations of the standard library on them; each
-- component's Tests module holds runs at concrete inputs, and its other child modules hold proofs.
--
-- State and operations. A Rust method on shared state is a function from the old state to the new
-- one; the clock, the connector's answer and how a wait ended are arguments. Times and durations
-- are nanoseconds. A machine word is a number with its wrap-around written out (`add32`, `add64`,
-- `sub64`, `mul64`); a saturating operation of the code saturates here.
--
-- Concurrency. A pool's callers run on several threads. Pool/World.antt cuts `acquire` and the
-- return of a `Checkout` into the pieces between its await points and its locks: queueing for a
-- permit, being granted one or giving up, one round of the reuse loop, opening a connection, using
-- it, returning it, releasing the permit. A caller may be cancelled at either of its await points.
-- A `World` is a pool and the tasks that stand in it, `Step` any one piece, call of an operator,
-- pass of the reaper or action of the closing task, and `Reach` any number of these in any order. A
-- piece is one step although it has several relaxed atomic operations on counters. Within a piece the
-- gauges lag behind: `drain`, `close` and the reaper lower the gauge of idle connections after they
-- have released the lock of the queue. Nothing is said of what a reader of the gauges sees there, and
-- a snapshot takes what each of its loads returned, at its own moment, as an argument.
-- In `World` the check of the status and the push to the idle queue in `Drop` are one step as well;
-- Pool/Race.antt takes them apart. The methods of the router are one step each. The semaphore's
-- queue of waiters is not modelled: any waiting task may be granted a free permit, so what is shown
-- holds for every order.
--
-- Texts. A `&str` is the list of its characters. The loops of classify.rs walk bytes, but test ASCII
-- bytes only, so they step over characters alike; `strip_literals` pushes the bytes of a character one
-- by one, and so does its model. Both loops that know literals and comments repeat the same inner
-- loops; Lexer.antt has them once.
--
-- Fuel. `shed`, the loop of `close_idle`, has fuel, the length of the queue; each round removes one
-- slot, and Pool/Closing.antt shows that nothing is left over. `strip_leading_noise` and
-- `classify_set_body` have the length of the text, and Lexer/Noise.antt and SessionParams/Fuel.antt
-- show that it is enough; so has `error_fields`, each of whose fields takes two bytes. The reuse
-- loop is by structural recursion on the queue where `acquire` runs uninterrupted, and one step per
-- round elsewhere.
--
-- Not modelled. The builders of single backend messages, the store of traces and its spans, the
-- rest of the session loop, the rest of the configuration, secrets, the admin interface, the JDBC
-- family but for its placeholders and session rules, its Java agent, and the web front end. Ratios
-- in floating point (`fan_in`, `saturation`, `recycle_rate`, `replica_share`) and log lines are
-- left out. The table of database families is an argument of the check of a configuration. The
-- connector and the connection's protocol layer are parameters: what they answer is an argument of
-- the steps that ask them. The SHA-256 digest is a parameter of the names of prepared statements,
-- and the server of a backend is an interface (`Server` in Prepared/Mirror.antt) with the laws that
-- PostgreSQL documents for `Parse` and `Close`; for session parameters it
-- is `SqlServer` in SessionParams/Replay/Sql.antt, which runs whole texts, with the laws of `SET` and
-- `RESET`.
pub mod Base
pub mod Text
pub mod Protocol
pub mod Breaker
pub mod Chars
pub mod Lexer
pub mod SessionParams
pub mod Classify
pub mod Pins
pub mod Rewrite
pub mod Cancel
pub mod Config
pub mod Capture
pub mod Sessions
pub mod SessionRules
pub mod Counters
pub mod Pool
pub mod Flow
pub mod Routing
pub mod Prepared
