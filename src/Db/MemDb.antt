-- ===== src/Db/MemDb.antt =====
-- lib.rs: the test `test_mem_db`, from the opening of an environment to the comparison at its end.
use erigon_db.Prelude.{
  ◌-◌, ◌^◌, ◌≡◌, refl, true, false, ◌++◌, replicate, bytes_eq, bytes_eq_self, if◌then◌else◌,
}
use erigon_db.Prelude.Digits.{be_bytes}
use erigon_db.Outcome
use erigon_db.Outcome.{Result, ok, panic, or_panic, unwrap}
use erigon_db.Crates.{MdbxCrate, TxLaws, FixedHashCrate, H256, read_write_durable}
use erigon_db.Kv.Env.{rw_mode, open_env, with_mode, is_writeable}
use erigon_db.Kv.Env
use erigon_db.Kv.Tx.{Action, lift, ◌>>=◌}
use erigon_db.Db.Access.Laws.{flags_of}
use erigon_db.Db.Env.{env_open, begin_rw}
use erigon_db.Db.Reads.{read_head_header_hash}
use erigon_db.Db.Writes.{write_head_header_hash}
use erigon_db.Db.Writes.Laws.{read-write_head_header_hash}
use erigon_db.Db.Tables

-- `H256::from_low_u64_be(u64::MAX)`
abbrev pub top_hash : H256
top_hash = replicate 24 0 ++ be_bytes 8 (2 ^ 64 - 1)

-- `assert_eq!`
abbrev pub assert_eq : H256 → H256 → Result (Unit {0})
assert_eq a b = if bytes_eq a b then ok tt else panic

module _ ⦃m : MdbxCrate⦄ ⦃f : FixedHashCrate⦄ where
  unfoldable pub write_and_check : Action (Unit {0})
  write_and_check = do
    _ ← write_head_header_hash top_hash
    found ← read_head_header_hash rw_mode
    res ← lift (or_panic found)
    lift (assert_eq res top_hash)

  -- An environment that cannot be opened is a panic (`expect`).
  unfoldable pub test_mem_db : m.FilePath → Result (Unit {0})
  test_mem_db path =
      Outcome.◌>>=◌ (unwrap (env_open rw_mode path))
        λ env. Outcome.◌>>=◌ (begin_rw env) λ db. (write_and_check db).0

  write_and_check_passes :
      (laws : TxLaws m) (tx : m.Transaction)
      → laws.can_open tx "LastHeader" (flags_of rw_mode Tables.last_header) ≡ true
      → (write_head_header_hash top_hash tx).0 ≡ ok tt
      → (write_and_check tx).0 ≡ ok tt
  unfolding write_and_check
  write_and_check_passes laws tx can done = rw (
    done,
    read-write_head_header_hash laws top_hash tx (unfold be_bytes in refl) can done,
    bytes_eq_self top_hash,
  )

  -- Where mdbx opens the environment for durable writes, with room for 50 tables and with the flags of
  -- Erigon, begins a transaction, opens the table and stores the hash, the test passes: what is read
  -- is what was written.
  pub test_mem_db_passes :
      (laws : TxLaws m) (path : m.FilePath) (env : m.Environment) (tx : m.Transaction)
      → m.open_env path 50 (record {
        mode = read_write_durable;
        no_sub_dir = false;
        exclusive = false;
        accede = true;
        no_rdahead = true;
        no_meminit = false;
        coalesce = true;
        liforeclaim = false;
      })
        ≡ ok env
      → m.begin_rw_txn env ≡ ok tx
      → laws.can_open tx "LastHeader" (flags_of rw_mode Tables.last_header) ≡ true
      → (write_head_header_hash top_hash tx).0 ≡ ok tt
      → test_mem_db path ≡ ok tt
  unfolding test_mem_db env_open open_env with_mode is_writeable begin_rw Env.begin_rw
  test_mem_db_passes laws path env tx opened begun can done =
      rw (opened, begun) (write_and_check_passes laws tx can done)
