-- ===== src/Examples/Session.antt =====
-- Two write transactions on a store in memory, and a reader after them.
use erigon_db.Prelude.{◌≡◌, refl, arith, List, [], ◌∷◌, ◌++◌}
use erigon_db.Outcome.{Error, Outcome, ok, traverse}
use erigon_db.Crates.Stand.{uint, fixed_hash, array_vec}
use erigon_db.Crates.Stand.Rlp.{simple_rlp}
use erigon_db.Crates.Stand.Derive.{vectors}
use erigon_db.Crates.Stand.Store.{Log, mdbx, tx_laws, env_laws}
use erigon_db.Kv.Env
use erigon_db.Kv.Env.{Access, ro_mode, rw_mode}
use erigon_db.Kv.Tx
use erigon_db.Kv.Tx.{pure, ◌>>=◌}
use erigon_db.Kv.Values.{h256_type, uint_type}
use erigon_db.Models.Keys.{HeaderKey, u64_key}
use erigon_db.Db.Access.{write}
use erigon_db.Db.Env.{begin, begin_rw}
use erigon_db.Db.Reads.{read_body_for_storage}
use erigon_db.Db.Writes.{write_header_number}
use erigon_db.Db.Spec.{Command, set_number, IsHeaderKey, apply_all, perform, perform_all}
use erigon_db.Db.Spec.Refinement.{Refines}
use erigon_db.Db.Spec.Session.{
  without_system_txs, Sessions, opened, committed, Stores, reader_sees_commits,
}
use erigon_db.Examples.Store.{slot_two}
use erigon_db.Examples.Chain.{body_codec, derived_body}
use erigon_db.Examples.Encodings.{debug}
use erigon_db.Examples.Spec.{nothing, empty-Refines, commands, commands-IsCommand, commands_done}

abbrev later : List Command
later = set_number slot_two 6 ∷ []

abbrev first_log : Log
first_log = (perform_all commands []).1

abbrev second_log : Log
second_log = (perform_all later first_log).1

begun_Refines :
    (access : Access) (tx : Log)
    → ◌≡◌ {A = Outcome Error Log} (ok []) (ok tx)
    → Refines tx_laws access tx nothing
begun_Refines access tx e = let p : tx ≡ [] = cc in rw p (empty-Refines access)

empty-Stores : Stores tx_laws env_laws [] nothing
unfolding begin begin_rw Env.begin Env.begin_rw
empty-Stores = record {
  readable = (refl, (refl, (refl, (refl, (refl, (refl, (refl, tt)))))));
  writeable = (refl, (refl, (refl, (refl, (refl, (refl, (refl, tt)))))));
  reader = λ tx e. begun_Refines ro_mode tx e;
  writer = λ tx e. begun_Refines rw_mode tx e;
}

committed_twice : Sessions tx_laws env_laws [] (commands ++ later) second_log
unfolding begin_rw Env.begin_rw Tx.commit
committed_twice =
    committed later first_log
      (committed commands [] opened refl commands-IsCommand commands_done refl) refl
      ((refl, omega arith), tt)
      (unfold perform_all perform write_header_number write Tx.open_db Tx.put u64_key uint_type
          h256_type in
        refl)
      refl

reader_sees_commits_example :
    Refines tx_laws ro_mode second_log (apply_all (commands ++ later) nothing)
    × ((k : HeaderKey)
        → IsHeaderKey k
        → (read_body_for_storage ro_mode k second_log).0
          ≡ traverse without_system_txs ((apply_all (commands ++ later) nothing).body k))
reader_sees_commits_example =
    reader_sees_commits tx_laws env_laws derived_body [] second_log (commands ++ later) nothing
      second_log empty-Stores committed_twice (unfold begin Env.begin in refl)
