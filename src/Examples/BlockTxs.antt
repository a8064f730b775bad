-- ===== src/Examples/BlockTxs.antt =====
-- A block of two transactions in a store in memory.
use erigon_db.Prelude.{ℕ, ◌≡◌, refl, arith, some, List, [], ◌∷◌, ◌++◌, map, bytes_eq}
use erigon_db.Prelude.Digits.{be_bytes, strip_zeros, be_value_from}
use erigon_db.Outcome.{ok}
use erigon_db.Crates.Stand.{buf, fixed_hash, array_vec}
use erigon_db.Crates.Stand.Rlp.{simple_rlp}
use erigon_db.Crates.Stand.Derive.{vectors}
use erigon_db.Crates.Stand.Store.{Log, Position, mdbx, tx_laws, cursor_laws, scan_laws}
use erigon_db.Kv.Env.{ro_mode}
use erigon_db.Kv.Tx
use erigon_db.Kv.Walk.{next_entry, Walker, collect}
use erigon_db.Kv.Values.{h256_type, uint_type, extend}
use erigon_db.Macros.{tuple_key2}
use erigon_db.Models.Keys.{u64_key, header_key}
use erigon_db.Models.Block.{BodyForStorage, rlp_table_value, block_header_item}
use erigon_db.Models.Block.Body.{body_fields}
use erigon_db.Models.Transaction.Defs.{Transaction, legacy, access_list}
use erigon_db.Db.Access.{read}
use erigon_db.Db.Reads.{read_body_for_storage, walk_txs_canonical}
use erigon_db.Db.Reads.BlockTxs.{tx_entry, numbered, Around, block_transactions}
use erigon_db.Db.Tables
use erigon_db.Examples.Store.{slot_two, in_table}
use erigon_db.Examples.Chain.{body_codec}
use erigon_db.Examples.Encodings.{debug}
use erigon_db.Examples.Transactions.{
  old_tx, listed_tx, tx_items, derived_laws, listed_tx-IsTransaction, old_tx-IsTransaction,
}

abbrev txs : List Transaction
txs = access_list listed_tx ∷ legacy old_tx ∷ []

abbrev stored_body : BodyForStorage
stored_body = record { base_tx_id = 10; tx_amount = 4; uncles = [] }

-- The transaction with the id 9 is of an earlier block.
abbrev block : Log
block =
    in_table "BlockTransaction"
      (map tx_entry ((9, legacy old_tx) ∷ (11, access_list listed_tx) ∷ (12, legacy old_tx) ∷ []))
    ++ in_table "BlockBody" ((be_bytes 8 7 ++ slot_two, body_codec.item.encode stored_body) ∷ [])

body_there : (read ro_mode Tables.block_body (7, slot_two) block).0 ≡ ok (some stored_body)
unfolding read Tx.open_db Tx.get header_key tuple_key2 u64_key uint_type h256_type extend
    rlp_table_value body_fields block_header_item be_bytes strip_zeros be_value_from bytes_eq
body_there = refl

ids : Around 11 txs (scan_laws.scan block "BlockTransaction")
ids = record {
  front = (9, legacy old_tx) ∷ [];
  back = [];
  split = refl;
  below = (omega arith, tt);
  front_valid = ((omega arith, old_tx-IsTransaction), tt);
  txs_valid = (listed_tx-IsTransaction, (old_tx-IsTransaction, tt));
  back_valid = tt;
  small = omega arith;
}

block_transactions_example :
    (found : BodyForStorage) × (w : Walker Position (ℕ × Transaction)) × ((read_body_for_storage
        ro_mode
        (7, slot_two)
        block).0
      ≡ ok (some found))
    × ((walk_txs_canonical ro_mode (some found.base_tx_id) block).0 ≡ ok w)
    × (collect (next_entry Tables.block_transaction u64_key.decode) found.tx_amount w
        ≡ map ok (numbered found.base_tx_id txs))
block_transactions_example =
    block_transactions tx_laws cursor_laws scan_laws derived_laws ro_mode (7, slot_two) stored_body
      txs block body_there refl refl ids
