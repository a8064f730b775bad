-- ===== src/Kv/Env.antt =====
-- kv/mod.rs: environments and the modes that they are opened in.
use erigon_db.Prelude.{ℕ, Bool, true, false, if◌then◌else◌}
use erigon_db.Outcome.{mdbx, Result, ok, ◌>>=◌, map_err}
use erigon_db.Crates.{MdbxCrate, EnvironmentFlags, Mode, read_only, read_write_durable}

-- The marker types `RO` and `RW`.
pub data Access : Type 0 where
  ro_mode rw_mode : Access

unfoldable pub is_writeable : Access → Bool
is_writeable ro_mode = false
is_writeable rw_mode = true

pub record EnvFlags : Type 0 where
  pub no_rdahead : Bool
  pub coalesce : Bool
  pub accede : Bool
  pub no_sub_dir : Bool
  pub exclusive : Bool
  pub no_meminit : Bool
  pub liforeclaim : Bool

unfoldable pub with_mode : EnvFlags → Mode → EnvironmentFlags
with_mode f mode = record {
  mode = mode;
  no_sub_dir = f.no_sub_dir;
  exclusive = f.exclusive;
  accede = f.accede;
  no_rdahead = f.no_rdahead;
  no_meminit = f.no_meminit;
  coalesce = f.coalesce;
  liforeclaim = f.liforeclaim;
}

module _ ⦃m : MdbxCrate⦄ where
  -- An environment with the mode that it was opened in.
  pub record MdbxEnv (mode : Access) : Type 0 where
    pub inner : m.Environment

  unfoldable pub open_env : (mode : Access) → m.FilePath → ℕ → EnvFlags → Result (MdbxEnv mode)
  unfolding is_writeable with_mode
  open_env access path num_tables flags =
      let mode = if is_writeable access then read_write_durable else read_only in
      map_err mdbx (m.open_env path num_tables (with_mode flags mode)) >>= λ env.
      ok (record { inner = env })

  unfoldable pub begin_ro : {mode : Access} → MdbxEnv mode → Result m.Transaction
  begin_ro env = map_err mdbx (m.begin_ro_txn env.inner)

  -- The same of an environment that was opened for reading.
  unfoldable pub begin : MdbxEnv ro_mode → Result m.Transaction
  begin env = map_err mdbx (m.begin_ro_txn env.inner)

  unfoldable pub begin_rw : MdbxEnv rw_mode → Result m.Transaction
  begin_rw env = map_err mdbx (m.begin_rw_txn env.inner)
