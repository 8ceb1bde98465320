-- ===== src/Lib.antt =====
-- The core of plex-postgresql's shim (rust/plex-pg-core/src): a library that answers Plex's SQLite
-- calls from PostgreSQL. Modelled here are the parts that decide, without input or output of their
-- own, what is sent to the server and which connection is used.
--
-- Txn is pg_client/txn.rs. Plan has `plan`, which turns a transaction command and the stack of frames
-- into statements and a new stack; Server has a session as the parameter of everything that runs them
-- and, in `IsSession`, what PostgreSQL documents of those statements, refusals included, Stack the
-- well-formed stacks and what they stand for on the server. Commands, Refines and Brackets are about
-- `plan`. Registry has the process state (`Registry`, `pinned_conn`, `in_transaction`,
-- `forget_connection`, `forget_db`, `run`), with the mutex around each use left out;
-- Registry/Consistent and Registry/Run are about it. A stack is a list, newest frame first, where the
-- source has a vector with the newest last. A statement keeps its kind and its name; `text` prints it.
-- Classify is `classify_sql`, on the code points of a text, with Words, RoundTrip and Leading about
-- it.
--
-- StmtCache is pg_client_stmt_cache.rs: the table of prepared statements of one connection (`lookup`,
-- `add`, `clear`), of 512 places with linear probing and eviction of the least recently used entry.
-- Probe and FirstPass are about the two scans, Laws about a well-formed table, Evict, Fits, Add and
-- Lookup about `add` and `lookup`. Hashes and times are numbers; a time is below 2 ^ 63.
--
-- Pool is the connection pool of pg_client: Slot and Manager are pool_state.rs, TlsCache tls_cache.rs,
-- Registry pg_client_registry.rs, Path pool_lookup.rs and pool_acquire/pathing.rs, Acquire
-- pool_acquire/ with its phases. Host is what the pool does with connections, which lies with libpq: a
-- record of operations on an abstract state and, in `IsHost`, the laws that the pool relies on. An
-- acquire is run by one thread. No other thread runs between its steps, except while it sleeps before a
-- retry, where an arbitrary function changes the state. Pointers and thread ids are numbers, with 0 for
-- null and for nobody; times are seconds, and a difference of two is compared without subtracting.
--
-- Acquire/Spec says what a visit of a slot owes to the pool, Ready and Fill that the visits of the
-- phases pay it, Sound is the invariant of the pool, Reap and Spares are about the reaper, Sequence
-- and Total about the whole acquire, Exclusion about the connection that an attempt excludes. Release
-- is pool_runtime.rs, Child the rest of pool_state.rs, and Reach has the states that any order of the
-- operations reaches. Contention has the atomic steps of one slot in any order of its threads, with
-- the close of a handle in its two steps, a read and a plain store; whole operations are not
-- interleaved inside one another.
--
-- Placeholders is placeholders.rs, less the walk over the syntax tree: the tokens of a statement's
-- placeholders come as a list, in the order of the walk. ErrorClass is pg_client/error_class.rs and the
-- SQLSTATE tests of hash_sqlstate.rs, on the parts of an error.
--
-- Loops over slots and places are structural recursion on the number of rounds, which is the bound of
-- the source's loop. Phase 6 calls the acquire again, so that `acquire_on` recurses on fuel: one more
-- than the configured delays is enough, as each attempt uses up one of them.
--
-- QueryCache is pg_query_cache.rs, the query results that a thread keeps for a second: Key the keys,
-- the module itself the entries with `lookup`, `invalidate` and `release`, Store
-- `rust_query_cache_store`. Steps has sequences of calls; Held and Overwrite are about a result that
-- is read, Unique and Kept about the form of the cache, Scan, Reclaimable and Oldest about the choice
-- of a slot, Stored about finding what was stored. A counter of 32 bits is kept in two's complement,
-- and an allocation succeeds.
--
-- Preprocess is keywords/preprocess.rs, rewrites of SQL text before it is parsed. Split has the split
-- into statements and into items, Scan the loops that know of quotes, comments and brackets, Limit the
-- rewrite of UPDATE and DELETE with a LIMIT, with slices that are checked, Statements the rewrites of
-- whole statements, Pragma those of PRAGMA, Virtual those of virtual tables, Operators those that go
-- over a text, Quotes quoted names and the statements on an index. A loop over positions runs on the
-- length of the text as fuel; a round advances, and Scan/Fuel has the loop without fuel (`Rounds`) and
-- says that it comes to an end within it. The source counts bytes and tests for ASCII only, so that
-- characters are counted here; a slice of six bytes of a PRAGMA is noted in Pragma.
--
-- Helpers is db_interpose_helpers/pure_helpers.rs, tests on paths and names and the form of bytes that
-- PostgreSQL reads: Guide is about the schema of a program guide, Hex about the bytes, Library about the
-- tests for the library's files.
--
-- Not modelled: the translator, whose syntax trees are those of the sqlparser crate, the C entry points
-- with their buffers, and the platform code. Logging is left out of every definition.
pub mod Prelude
pub mod Txn
pub mod StmtCache
pub mod Pool
pub mod Placeholders
pub mod ErrorClass
pub mod QueryCache
pub mod Preprocess
pub mod Helpers
