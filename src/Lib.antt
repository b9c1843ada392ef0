-- ===== src/Lib.antt =====
-- hakobackend is an HTTP gateway in Rust in front of document databases. A request passes the
-- authentication chain (with its cache of resolved tokens), the policy of its collection, and then
-- a handler that reads or writes documents; a write resolves field sentinels and dot paths, adds
-- time stamps, and may wait in memory to be merged with later ones. The login of the local issuer
-- has a lockout. This library models those parts of the core and proves what they promise.
--
-- The files and the sources they model, by paths from the repository's root:
--   Base    lists, options, results, Boolean equality, and `HashMap` as an association list
--           (`get`, `insert`, `remove`, `retain`, `extend`), whose order stands for the order of
--           iteration; `Unique` says that no key stands twice.
--   Text    the string functions of Rust that the code calls: `split`,
--           `split_once`, `strip_prefix`, `trim`, the order of strings.
--   Json    `serde_json::Value` with its object as a map in the order of its keys.
--   Policy  crates/hakobackend-policy/src/lib.rs: rules and their texts (Rule, Parse, RuleText),
--           `PolicyFile::find` (Resolve, Order, Precedence), and the verdict for a caller, with
--           the service key and the stripped fields (Decide, Access); `svc_allows` is in
--           crates/hakobackend-server/src/main.rs.
--   Guard   crates/hakobackend-server/src/loginguard.rs: `locked_secs`, `fail` and `clear`.
--   Atomics crates/hakobackend-core/src/atomics.rs: sentinels and `resolve_for_create` (Resolve,
--           Fast), `get_path`, `set_path`, `delete_path` and `apply_update` (Update, Paths,
--           Deletion, Outcome, Batch, Arrays), the stamps (Stamps).
--   Paths   crates/hakobackend-core/src/lib.rs: `parse_collection_path`, the name rules
--           (`valid_collection_path`, `valid_db_name`, `valid_doc_id`), `flat_table_name` and the
--           wire names of the filter operators.
--   TokenCache  crates/hakobackend-server/src/tokcache.rs: `get`, `put`, `remove` and `clear`
--           over the sixteen shards (Answers, Expiry), and the base64url decoder (Decode).
--   Coalesce    crates/hakobackend-server/src/coalesce.rs: `merge`, `overlay`, `eligible`, the
--           closure of `spawn_flusher` and `flush_due` (Memory, Exact, Runs, Drain, Reads, Gap).
--   Alias   crates/hakobackend-server/src/alias.rs: `parse_pattern`, `try_match`, `encode_into`
--           (Encoding) and `merge_query` (Authority).
--   Replay  crates/hakobackend-auth-local/src/dpop.rs: `ReplayCache::check` and the `iat` window of
--           `verify_proof`.
--   Query   crates/hakobackend-core/src/lib.rs, module `conformance`: `doc_matches`, `matches_cursor`
--           and `sort_and_limit` (Filters, Sorting, Keys, Paging).
--   Database    crates/hakobackend-core/src/lib.rs: `AppError` and the trait `Database`; Memory is
--           a driver that answers as `conformance` says, with the transactions of its `MemDb`, and
--           Keyed its stores. The operations of Sessions, Ttl and Handlers take any `Database`;
--           what is said of a store's documents (Atomic and Stored in Handlers, Rotation and
--           Revocation in Sessions, Counts and Sweep in Ttl) is said over this driver.
--   Sessions    crates/hakobackend-auth-local/src/lib.rs: `register`, `login` (Accounts),
--           `refresh_classified`, `logout` (Refresh).
--   Ttl     crates/hakobackend-core/src/ttl.rs: `TtlDb`, and `sweep_expired`
--           (Visible, Counts, Sweep).
--   Handlers    crates/hakobackend-server/src/main.rs: `write_doc`, `create`, `remove` and
--           `get_owned` (Writes), `run_ops` (Batch), with what they promise (Gates, Stored, Plan,
--           Gate, Atomic).
--   Endpoints   crates/hakobackend-server/src/main.rs: `auth_login`, `auth_refresh`, `auth_logout` and
--           `auth_register`, which join Sessions, Guard and TokenCache (Lockout); `resolve_token`
--           and `enforce_dpop` (Tokens, Proofs).
-- The runs and the concrete inputs stand in the modules named Tests.
--
-- State is passed explicitly, and an operation under a lock is one step. Clock readings are
-- arguments; instants and durations are nanoseconds without an upper bound, where the code's
-- would overflow only after centuries. A `u32` or `u64` keeps its wrap-around where the code
-- computes with it. The code has no recursion but along its data, so that no fuel is needed.
-- The flusher of the coalescer gives up its lock while a write runs: its steps are events that
-- interleave with PATCHes in any order.
--
-- A handler is one step: what other requests do between its calls of the database is left out.
--
-- What is not under the repository is a parameter: SHA-256, Argon2, the signature of tokens, the
-- JSON parser and printer, the operations on floats (a float is its bit pattern), and, for the
-- flusher, the `set` of a database, which has the laws of a merging set that may fail. The
-- `sort_by` of slices is a stable sort where the comparison is an order; elsewhere its result is
-- left open. Random texts are
-- arguments. A text is the list of its Unicode code points, and where the
-- code works on bytes (TokenCache, and `encode_into` in Alias) the list of its bytes.
--
-- Not modelled: the HTTP wiring and process start, the database drivers, the identity providers,
-- the realtime lanes, the file endpoints, and the reading of the configuration.
pub mod Base
pub mod Text
pub mod Json
pub mod Policy
pub mod Guard
pub mod Atomics
pub mod TokenCache
pub mod Coalesce
pub mod Paths
pub mod Alias
pub mod Replay
pub mod Query
pub mod Database
pub mod Sessions
pub mod Ttl
pub mod Handlers
pub mod Endpoints
