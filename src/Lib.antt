-- ===== src/Lib.antt =====
-- erigon-db: typed access to the database of an Erigon node.
--
-- The program has two layers. kv (src/kv) wraps libmdbx: tables with typed keys and values,
-- transactions, cursors and iterators. erigon (src/erigon) declares Erigon's tables, the codecs of
-- their keys and values, and the typed reads and writes, which open a table, encode the key, call
-- libmdbx, and decode what comes back. The state of the program is that of libmdbx.
--
-- Which file models what:
--   Prelude              numbers, lists, big-endian digits and the order of byte strings
--   Outcome              Result with panics, and the error types
--   Crates               the crates that the code calls: bytes::Buf, ethereum_types, arrayvec,
--                        roaring, tiny_keccak, fastrlp, serde_cbor and libmdbx, each a record of calls
--                        with their documented behaviour as laws. Derive and Strings say what fastrlp's
--                        derive macro, its Vec and its strings do. Crates/Stand has concrete
--                        instances of all but tiny_keccak and serde_cbor
--   Utils                src/erigon/utils: find_gte, take_u64_rlp, bytes_to_u64
--   Kv/Traits, Values    src/kv/traits.rs and src/kv/tables.rs: TableObject and the basic codecs
--   Kv/Env, Tx           src/kv/mod.rs: MdbxEnv, EnvFlags and MdbxTx
--   Kv/Cursor, Walk      src/kv/mod.rs: MdbxCursor, Walker and DupWalker
--   Macros               src/erigon/macros.rs: tuple_key!, the sizes of tuples, bytes_wrapper! and
--                        cbor_wrapper!
--   Models/Keys          src/erigon/models/mod.rs and log.rs: the table keys
--   Models/Senders       src/erigon/models/mod.rs: the codec of Vec<Address>
--   Models/Account       src/erigon/models/account.rs
--   Models/Transaction   src/erigon/models/transaction.rs; Codec/Fields has the fields of the structs in
--                        the order of their codecs, Signing what the signing hashes cover, Ethers the
--                        conversion to ethers types
--   Models/Block         src/erigon/models/block.rs, Body the stored bodies, and TotalDifficulty
--   Models/Log           src/erigon/models/log.rs: receipts and logs
--   Db                   src/erigon/mod.rs and tables.rs: the environment, tables, reads, writes and
--                        history; MemDb is the test of src/lib.rs
--   Db/Spec              what seven of the tables promise: maps of typed values, the commands that
--                        update them, the transactions that commands and reads reach, where a
--                        sequence of commands that fails stops, and in Session the transactions
--                        that are committed one after the other
--   Db/Reads/BlockTxs    a block's transactions, from its stored body to the walk over their table
--   Db/History           Timeline is a past: an initial value and the blocks that changed it. Shards is
--                        how the history tables cut the blocks of the changes into bitmaps. Past and
--                        PastAccounts say when a database holds a past
--   Examples             the theorems at concrete inputs
--
-- How the code is written here. A byte string is a list of numbers, a U256 the number that it stands
-- for, an H256 or Address its bytes. A function that can fail or panic returns an `Outcome`. A `&mut
-- &[u8]` comes back with the value that was read. A method on a transaction takes it and returns it
-- beside the result, as does a method on a cursor. `none` of an interface call is a panic of the
-- crate. Arithmetic that overflows follows `Profile`: a panic in a debug build, else a wrap.
--
-- The codecs that a derive macro generates for a struct are parameters: TxItems for the three kinds of
-- transactions and for access tuples, BodyItem for block bodies, HashEncoders for what the hashes cover,
-- and LogItems of serde for receipts and logs. Theorems on the first three assume what fastrlp
-- documents of its macro, `Derives`: a list of the fields in their order, which the model spells out.
--
-- An environment is a value, which a commit returns with what it then stores. What a transaction does
-- that is dropped without a commit is not modelled.
--
-- Bounds. Block numbers, incarnations and indices are below 2 ^ 64 and a U256 below 2 ^ 256 where a
-- theorem says so. No definition needs fuel: loops are recursion on the list or on the number of
-- rounds that the source computes first; `collect` runs an iterator for a given number of calls.
--
-- Not modelled: the newtypes TableHandle and Erigon around a database and a transaction of mdbx, which
-- are that database and transaction here; Display texts and integer conversions; src/txgen.rs, a
-- client of a test network; the test test_live of src/lib.rs, which reads a database outside the
-- repository.
pub mod Prelude
pub mod Outcome
pub mod Crates
pub mod Utils
pub mod Kv
pub mod Macros
pub mod Models
pub mod Db
pub mod Examples
