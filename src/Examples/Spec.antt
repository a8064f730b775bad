-- ===== src/Examples/Spec.antt =====
-- Sequences of typed writes and reads on a store in memory.
use erigon_db.Prelude.{refl, arith, none, List, [], ◌∷◌, ◌≡◌, All}
use erigon_db.Outcome.{ok}
use erigon_db.Prelude.Digits.{be_bytes, strip_zeros}
use erigon_db.Crates.Stand.{uint, fixed_hash, array_vec}
use erigon_db.Crates.Stand.Store.{Log, mdbx, tx_laws}
use erigon_db.Kv.Env.{Access, ro_mode, rw_mode}
use erigon_db.Models.Keys.RoundTrip.{header_key-Fits}
use erigon_db.Crates.Stand.Rlp.{simple_rlp}
use erigon_db.Crates.Stand.Derive.{vectors}
use erigon_db.Examples.Chain.{body, body_codec, body-IsBody, derived_body}
use erigon_db.Examples.Encodings.{sample, sample-IsBlockHeader, debug}
use erigon_db.Kv.Tx
use erigon_db.Kv.Tx.{pure, ◌>>=◌}
use erigon_db.Kv.Values.{h256_type, address_type, uint_type, extend}
use erigon_db.Macros.{tuple_key2}
use erigon_db.Models.Block.{rlp_header, fee_length, rlp_table_value}
use erigon_db.Models.Block.Body.{IsShortHeader}
use erigon_db.Models.Keys.{u64_key, header_key}
use erigon_db.Db.Access.{read, write, cursor}
use erigon_db.Db.Reads.{
  read_head_header_hash, read_head_block_hash, read_incarnation, read_header_number,
  read_transaction_block_number, read_header,
}
use erigon_db.Db.Writes.{
  write_head_header_hash, write_incarnation, write_header_number, write_header,
  write_body_for_storage,
}
use erigon_db.Db.Spec.{
  Spec, Command, set_head_header, set_incarnation, set_number, set_header, set_body, apply_all,
  perform, perform_all, IsCommand,
}
use erigon_db.Db.Spec.Refinement.{Refines}
use erigon_db.Db.Spec.Commands.{perform_all-Refines}
use erigon_db.Db.Spec.Reach.{applied, here, did_write, did_read, made_cursor, Reach-Refines}
use erigon_db.Db.Tables
use erigon_db.Examples.Store.{owner, slot_two, slot_four}

abbrev pub nothing : Spec
nothing = record {
  head_header = none;
  head_block = none;
  incarnation = λ a. none;
  number = λ h. none;
  block_of_tx = λ h. none;
  header = λ k. none;
  body = λ k. none;
}

pub empty-Refines : (access : Access) → Refines tx_laws access [] nothing
unfolding read_head_header_hash read_head_block_hash read_incarnation read_header_number
    read_transaction_block_number read_header read Tx.open_db Tx.get u64_key uint_type address_type
    h256_type
empty-Refines access = record {
  opened = (refl, (refl, (refl, (refl, (refl, (refl, (refl, tt)))))));
  head_header = refl;
  head_block = refl;
  incarnation = λ a v. refl;
  number = λ h v. refl;
  block_of_tx = λ h v. refl;
  header = λ k v. rw ((header_key-Fits.trip k v).1) refl;
  body = λ k v. rw ((header_key-Fits.trip k v).1) refl;
}

abbrev pub commands : List Command
commands =
    set_number slot_two 3
    ∷ set_head_header slot_two
    ∷ set_incarnation owner 1
    ∷ set_number slot_four 4
    ∷ set_body (7, slot_two) body
    ∷ set_header (7, slot_two) sample
    ∷ set_number slot_two 5
    ∷ []

sample-IsShortHeader : IsShortHeader sample
unfolding rlp_header fee_length strip_zeros be_bytes
sample-IsShortHeader = (sample-IsBlockHeader, omega arith)

pub commands-IsCommand : All IsCommand commands
commands-IsCommand = (
  (refl, omega arith),
  (
    refl,
    (
      (refl, omega arith),
      (
        (refl, omega arith),
        (
          ((omega arith, refl), body-IsBody),
          (((omega arith, refl), sample-IsShortHeader), ((refl, omega arith), tt)),
        ),
      ),
    ),
  ),
)

pub commands_done : (perform_all commands []).0 ≡ ok tt
unfolding perform_all perform write_head_header_hash write_incarnation write_header_number
    write_header write_body_for_storage header_key tuple_key2 extend rlp_table_value be_bytes write
    Tx.open_db Tx.put u64_key uint_type address_type h256_type
commands_done = refl

perform_all-Refines_example :
    Refines tx_laws rw_mode (perform_all commands []).1 (apply_all commands nothing)
perform_all-Refines_example =
    perform_all-Refines tx_laws derived_body commands [] nothing commands-IsCommand
      (empty-Refines rw_mode) commands_done

abbrev written : Log
written = (perform (set_number slot_two 3) []).1

Reach-Refines_example :
    Refines tx_laws rw_mode
      (cursor ro_mode Tables.last_block (read rw_mode Tables.canonical_header 5 written).1).1
      (applied (set_number slot_two 3 ∷ []) nothing)
Reach-Refines_example =
    Reach-Refines tx_laws derived_body []
      (cursor ro_mode Tables.last_block (read rw_mode Tables.canonical_header 5 written).1).1
      (set_number slot_two 3 ∷ []) nothing (empty-Refines rw_mode)
      (made_cursor ro_mode Tables.last_block
        (did_read rw_mode Tables.canonical_header 5 (be_bytes 8 5)
          (did_write (set_number slot_two 3) here (refl, omega arith)
            (unfold perform write_header_number write Tx.open_db Tx.put u64_key uint_type
                h256_type in
              refl))
          refl (unfold u64_key uint_type in refl))
        refl)
