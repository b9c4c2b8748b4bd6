-- ===== src/Lib.antt =====
-- The PostgreSQL stores of lore-pg: advisory file locks, mutable references and immutable
-- fragments, which the plugin in overlay/pg.rs hands to the server. Each store takes a connection
-- from a pool and sends SQL statements; the immutable store also keeps payloads in an S3 bucket.
--
-- Common: names shared by all files; tests, lists, equality as an interface, and the 64-bit
-- columns with the casts `as i64`, `as u64` and `as u32`, whose wrap-around is written out. Family
-- has families of sessions by number, Decimal the decimal numbers of Rust.
--
-- Sql: what the stores use of tokio-postgres. `Table` is one table with a primary key, by the
-- statements that the code sends, with PostgreSQL's documented laws for them; every theorem holds
-- for any such table. `World` holds the committed rows, the rows of the open transaction, and the
-- fate of each coming request: answered, refused, or lost (it takes effect and its answer does not
-- arrive). After the listed fates all requests are answered. A method is a function from a world
-- to a result and a world. `Triple` has the rules by which the outcomes under all fates are
-- derived. A session is modelled alone between its BEGIN and its COMMIT, so that the branch for a
-- lock that another session removes between INSERT and SELECT is in the model and not reached; the
-- files named Sessions have the sessions that run at once. A transaction that is dropped leaves
-- the committed rows.
--
-- Locks: lore-pg/src/store/pg_lock_store.rs. Store has lock_resources (lock_one is a round of its
-- loop, on_existing the match on the owner), unlock_resources (unlock_owned and unlock_any are its
-- two loops), query_locks with its nine WHERE clauses, check_locks_status, and the reading of
-- rows. Canon has the sort and dedup of the resources over any total order, since the derived one
-- belongs to an upstream type. The clock's reading is an argument. LockOne, LockAll, Grants and
-- Acquire are about acquiring, Decide about which batches succeed, Unlock, UnlockOne, UnlockOwned
-- and Release about releasing, Sequence about two owners one after the other, Rows and Query about
-- reading. History has sequences of calls by any owners, Exclusion two owners with such a sequence
-- in between. Sessions has the transactions of lock_resources and unlock_resources that run at once,
-- by the rows that they have written and the keys that are left; an INSERT or DELETE of a row that
-- another open transaction has written waits. Orderly, Waits and Deadlock are about them.
--
-- Mutable: lore-pg/src/store/pg_mutable_store.rs. Store has the typed keys, load, store,
-- compare_and_swap and list. Hashes are byte strings; the lengths that the upstream types fix are
-- hypotheses where they matter. The upstream types are the record Upstream of Types. The advisory
-- lock of a swap is a request that changes no row. The stream of list is the list of the items for
-- a receiver that reads to the end. Keys is about typed keys, Register and Swap about the outcomes
-- of single methods, Listing about list, Races and Laws about two or three calls in a row. Abstract
-- has the store as its client sees it, a hash for each key, and the sequences of calls; Effects and
-- History are about them while all requests are answered, Failures, Loads and Faults whatever
-- becomes of the requests. Sessions has
-- the swaps that run at once, one request at a time, with the advisory lock by its number; Fresh,
-- Serial and Mixed are about them, Mixed with plain stores beside them.
--
-- Immutable: lore-pg/src/store/pg_immutable_store.rs. Index has the two tables, Payload the bucket
-- and the write of a payload with its rows, Store the trait's methods. The record Upstream of
-- Types has the flags, validations and conversions of the lore crates, Bucket the S3 operations
-- with their laws. Where the code runs two requests side by side (in load and get) the model runs
-- them in the order in which their errors count. The contexts of associations have the length of
-- an address's context. Fragments is about conversions, Writes about put, Reads about get, Copies
-- about copy. Replaced is about a put of a hash that another partition holds. Obliterate has
-- obliterate, whose tasks for the sub-fragments run one after the other; Erase, Shared and
-- Interrupted are about it. Keeps, Requests, Descend and Sweep say what its requests keep, whatever
-- becomes of them, which Others uses for other partitions, and Marks, Settle, Marking and Fuel for
-- the fuel that it needs. Sessions has obliterations of fragments without sub-fragments that run at
-- once, one request at a time; Marked and Exclusive are about the mark that keeps them apart,
-- Together about what they keep, Races about a put between two of their requests. Durable is about what every association rests on, with a child for each
-- method, and Calls for sequences of them.
--
-- Tls: lore-pg/src/tls.rs, with the certificate store, the client configuration and the pool of
-- the third-party crates as the record Tls, and the environment's LORE_PG_POOL_MAX_SIZE as an
-- argument. Pool is about make_pool.
--
-- Observe: lore-pg/src/aws_error.rs and the callback of lore-pg/src/lib.rs, over the kinds of
-- SdkError that the code tells apart, with its warnings as values. Labels is about it.
--
-- S3: lore-pg/src/s3.rs. Types has the requests and the SDK's client as the record Sdk, Client the
-- methods of S3Impl, each one request and its telemetry, Range the ranges of get_object against
-- what RFC 9110 obliges a service to.
--
-- Startup: the settings, from_config and ensure_schema of the three stores. A catalog holds the
-- relations of the database by name, with the documented behaviour of IF NOT EXISTS as laws. Types
-- has the settings and schemas, Build the methods; Relations and Schema are about them.
--
-- Plugin: overlay/pg.rs. The configurations are read from TOML as serde's derive does: absent
-- fields have their defaults, other fields are ignored. Configs and Defaults are about the
-- factories.
--
-- Examples: concrete tables, orders, identifiers and buckets that fulfil the interfaces, and each
-- result applied to them.
--
-- All loops of the modelled code go once through a list and are structural recursion. Only
-- obliterate, which calls itself on sub-fragments, is recursion on fuel: one unit for each level
-- of nesting, and its own error `out_of_fuel` below that. Each level sets a mark on one more row
-- before it goes on, so that the nesting is no deeper than the number of rows without a mark.
--
-- Not modelled: evict, compact, flush and verify of the immutable store, which do nothing, and
-- its constant answers (hold_for_command, isolates_partitions, query_scope, max_query_batch);
-- the builder methods of its settings; obliterations of fragments with sub-fragments that run
-- at once, whose requests Sessions leaves out; the texts of messages and the log, but for the
-- warnings of Observe; the HTTP client that from_config of the immutable store configures; the
-- Default of the two settings of one table; the histograms that the labels are recorded in.
mod Common
pub mod Sql
pub mod Locks
pub mod Mutable
pub mod Immutable
pub mod Tls
pub mod Observe
pub mod S3
pub mod Startup
pub mod Plugin
mod Examples
