-- ===== src/Db/Env.antt =====
-- erigon/mod.rs: environments with the configuration of Erigon, and transactions on them.
use erigon_db.Prelude.{ℕ, true, false}
use erigon_db.Outcome.{Result}
use erigon_db.Crates.{MdbxCrate}
use erigon_db.Kv.Env
use erigon_db.Kv.Env.{Access, ro_mode, rw_mode, MdbxEnv, EnvFlags, open_env}

abbrev pub num_tables : ℕ
num_tables = 50

abbrev pub env_flags : EnvFlags
env_flags = record {
  no_rdahead = true;
  coalesce = true;
  accede = true;
  no_sub_dir = false;
  exclusive = false;
  no_meminit = false;
  liforeclaim = false;
}

module _ ⦃m : MdbxCrate⦄ where
  unfoldable pub env_open : (mode : Access) → m.FilePath → Result (MdbxEnv mode)
  env_open mode path = open_env mode path num_tables env_flags

  -- `Erigon::begin` and `begin_rw`: the wrapper `Erigon` is its transaction.
  unfoldable pub begin : MdbxEnv ro_mode → Result m.Transaction
  begin env = Env.begin env

  unfoldable pub begin_rw : MdbxEnv rw_mode → Result m.Transaction
  begin_rw env = Env.begin_rw env
