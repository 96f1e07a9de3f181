-- ===== src/Lib.antt =====
-- Verification library of seadog, which leases, tracks and reaps disposable guests on one host.
--
-- The program. An unprivileged front-end (crates/seadog) leases an address and inserts a row for
-- each guest in a SQLite database, a privileged helper (crates/seadog-priv) creates and destroys
-- guests through the tool kento, and a sweep, run from a timer, from a watch loop and by the verbs,
-- compares the guests that kento lists with the rows, destroys those past their deadline, and
-- notifies the operator. All of them share the database. The rules are in crates/core; the helper
-- checks again whatever the front-end asks it for.
--
-- The files, by the source that they model:
-- - Prelude and its children: text as code points, native numbers and signed integers with the
--   arithmetic of `i64` in a release build (which wraps), `Ipv4Addr` text, results with `?`, and in
--   Prelude/Words the `str` functions that cut a text into words and lines.
-- - Core/Models, Core/Errors: crates/core/src/models.rs, the `Error` of crates/core/src/lib.rs, and
--   the `InstanceSignals` of crates/core/src/kento.rs. Core/Failure is an `anyhow` error over it.
-- - Core/Kento: the requests and the command lines of crates/core/src/kento.rs, with
--   Core/Kento/Parse the parsers of what kento prints, on the values of Core/Json, and
--   Core/Kento/Real the runs of kento; Core/Kento/Anchor, Core/Kento/Storable, Core/Kento/Quorum and
--   Core/Kento/Seen are about them. Core/Kento/Fake is the kento that the repository's tests drive.
-- - Core/AuthKeys: crates/core/src/authkeys.rs; Core/AuthKeys/Tokens and Core/AuthKeys/OneLine are
--   about the words of a key line and about the line that is written for an owner.
-- - Core/Config: crates/core/src/config.rs, from the parsed value on; Core/Config/Users is about
--   `validate` and the login users.
-- - Core/Validate: crates/core/src/validate.rs; Core/Validate/Names is about what is accepted.
-- - Core/Identity: crates/core/src/identity.rs; Core/Identity/Laws is about the verdicts.
-- - Core/Notify: crates/core/src/notify.rs; Core/Notify/Laws is about `decide`.
-- - Core/Action, Core/Sql, Core/Post: code that changes a state and can fail, the tables with
--   statements and transactions, and rules for postconditions and invariants of such code.
-- - Core/Rows, Core/Store: crates/core/src/store.rs, one function for each operation;
--   Core/Rows/Codec is about how an env is stored; Core/Store/Deadline, Core/Store/Prune, Core/Store/Alerts,
--   Core/Store/Status, Core/Store/Upsert, Core/Store/Lookup and Core/Store/Listing are about single
--   operations. Core/Tables and Core/Schema are its schema and the engine of its migrations,
--   Core/Schema/Stages and Core/Schema/Upgrade are about the files of earlier releases.
-- - Core/Alloc: crates/core/src/alloc.rs; Core/Alloc/Lowest is about the search, Core/Alloc/Leases
--   about the transaction, Core/Alloc/Stable about any number of processes that run the operations
--   of store and allocator in any order, and Core/Alloc/Exclusive, Core/Alloc/System and
--   Core/Alloc/Decoded about what such processes keep of the rows.
-- - Core/Reap: crates/core/src/reap.rs, with the state of a sweep in Core/Reap/Routing;
--   Core/Reap/Keeps, Core/Reap/Returned and Core/Reap/Sweeps carry an invariant through the control
--   flow of `sweep`, Core/Reap/Safety and Core/Reap/Herd are two of them, and Core/Reap/Alarm
--   and Core/Reap/Quorum are about a sweep whose list fails.
-- - Priv: crates/seadog-priv/src, the helper: Priv/Teardown (teardown.rs, and `parse_mode` of
--   main.rs), Priv/Provision (provision.rs), Priv/Sweep (sweep.rs), Priv/Watch (watch.rs) and
--   Priv/Owners (owners.rs), and Priv/Main (main.rs) in front of them, each with children for what
--   is proved about it.
-- - Front: crates/seadog/src, the front-end: Front/Context (verbs/mod.rs), Front/Elevate
--   (elevate.rs, with the run of the helper in Front/Elevate/Run), Front/Extend, Front/Ack and
--   Front/Destroy (verbs/extend.rs, ack.rs, destroy.rs); Front/Destroy/Owned is about `destroy` and
--   the helper's `teardown` together. Front/Mint, Front/Plan and Front/Create are verbs/create.rs;
--   Front/Create/Leased is about the tables that it leaves, and Front/Mint/Accepted about its MAC
--   at the helper. Front/Owner, Front/Base64 and Front/Fingerprint are owner.rs, Front/Listings the
--   verbs that only print, and Front/Host, Front/Login and Front/Main are main.rs, each with a
--   child for what is proved.
-- - Core/Tests, Priv/Tests, Front/Tests: runs on small inputs, and an instance of each result.
--
-- State. The database is the record `Db`: the rows of `envs` as they are stored, the notify states
-- and the heartbeat. A statement fails where the parameter `faults` says so, by the number of
-- statements run before, and then changes nothing; a transaction that fails anywhere is rolled
-- back. Because a statement or a transaction is one step, processes interleave between them and not
-- inside them, which is what SQLite's locks give. A sweep's state adds the teardowns called, the
-- notifications sent and the outcome. For the owners' verbs the state is the text of the key file,
-- and for `provision` the list of the requests that kento got.
--
-- A release's database file is the record `File` of Core/Tables, for the migrations alone; `Db` is
-- one that they have brought up to date. `Machine` of Priv/Main joins what the helper's verbs change.
--
-- Parameters. What `uuid` accepts, what kento lists, and what it answers to a teardown (by the
-- teardowns called before) or to a request are arguments; in Core/Kento/Real it is what a run of
-- the program comes to, by the runs before. The clock is the argument `now_unix`, as in the source;
-- in the watch loop, clock and kento are given by the turn. So are the answers of `store::open` and
-- of the lock, whether the key file can be read and written, and the path of the temporary key
-- file, and for `create` what is drawn, the guid, and what `humantime` reads. What the front-end
-- elevates to is an argument too; the record `Serves` of Front/Destroy/Owned says that it is the
-- helper's `teardown` on the flags of the request.
--
-- Fuel. `decimal` runs on fuel, one more than the number, which has no more digits than that. The
-- watch loop runs on the number of its turns, since without a bound it may go on for ever; one turn
-- more than its bound is enough. All other recursion is on the data.
--
-- The watcher. `ls`, `create` and `destroy` start it beside them. What it has done by the time that
-- the verb goes on is the argument `start` of Front/Main; that it goes on during the verb is not
-- modelled.
--
-- Not modelled: parsing of the YAML config, of JSON text and of the command lines, the push sinks
-- and the journal, and what child processes and locks do. Statements on one database by one process
-- are taken to be atomic, and a row that SQLite returns without an `ORDER BY` comes in table order.
pub mod Prelude
pub mod Core
pub mod Front
pub mod Priv
