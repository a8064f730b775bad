-- ===== src/Examples/Transactions.antt =====
-- Transactions at concrete inputs, with the codecs that the laws of the derive macro describe.
use erigon_db.Prelude.{◌≡◌, refl, [], ◌∷◌, ◌++◌, replicate, arith}
use erigon_db.Prelude.Digits.{be_bytes, strip_zeros}
use erigon_db.Outcome.{DecodeError, ok, err}
use erigon_db.Crates.Rlp.{RlpItem}
use erigon_db.Crates.Stand.{buf, fixed_hash}
use erigon_db.Crates.Stand.Rlp.{simple_rlp, bytes_item}
use erigon_db.Crates.Stand.Derive.{struct_item, vec_item, struct_item-Derives, vectors}
use erigon_db.Crates.Stand.Strings.{strings}
use erigon_db.Models.Transaction.Action.{call, create, action_item, action_length, encode_action}
use erigon_db.Models.Transaction.Defs.{AccessTuple, LegacyTx, AccessListTx, legacy, access_list}
use erigon_db.Models.Transaction.Codec.{TxItems, decode_transaction, encode_transaction}
use erigon_db.Models.Transaction.Codec.Fields.{
  tuple_fields, legacy_fields, legacy_fields_with, access_list_fields, dynamic_fee_fields,
  DerivesTxs, IsLegacyTx,
}
use erigon_db.Models.Transaction.Codec.Stored.{stored, IsTransaction, stored_round_trip}
use erigon_db.Models.Transaction.Codec.Mismatch.{encoding_not_read_back}
use erigon_db.Models.Block.Difficulty.{u256_wrapper_item}

abbrev pub old_tx : LegacyTx
old_tx = record {
  nonce = 5;
  gas_price = 7;
  gas = 21000;
  to = call (replicate 20 9);
  value = 1;
  input = 1 ∷ 2 ∷ [];
  v = 37;
  r = 2;
  s = 3;
}

-- Its recipient is created, and it names one slot of one account.
abbrev pub listed_tx : AccessListTx
listed_tx = record {
  chain_id = 1;
  nonce = 5;
  gas_price = 7;
  gas = 0;
  to = create;
  value = 1;
  input = [];
  access_list = record { address = replicate 20 9; slots = replicate 32 4 ∷ [] } ∷ [];
  v = 0;
  r = 2;
  s = 3;
}

abbrev pub tuple_codec : RlpItem AccessTuple
tuple_codec = struct_item (tuple_fields (vec_item bytes_item))

instance abbrev pub tx_items : TxItems
tx_items = record {
  tuple_item = tuple_codec;
  legacy_item = struct_item legacy_fields;
  access_list_item = struct_item (access_list_fields (vec_item tuple_codec));
  dynamic_fee_item = struct_item (dynamic_fee_fields (vec_item tuple_codec));
}

pub derived_laws : DerivesTxs
derived_laws = record {
  tuple = struct_item-Derives (tuple_fields (vec_item bytes_item));
  legacy = struct_item-Derives legacy_fields;
  access_list = struct_item-Derives (access_list_fields (vec_item tuple_codec));
  dynamic_fee = struct_item-Derives (dynamic_fee_fields (vec_item tuple_codec));
}

pub listed_tx-IsTransaction : IsTransaction (access_list listed_tx)
unfolding access_list_fields tuple_fields action_item action_length encode_action strip_zeros
    be_bytes
listed_tx-IsTransaction = (
  record {
    chain_id = omega arith;
    nonce = omega arith;
    gas_price = omega arith;
    gas = omega arith;
    to = tt;
    value = omega arith;
    input = omega arith;
    access_list = (
      ((record { address = refl; slots = ((refl, tt), omega arith) }, omega arith), tt),
      omega arith,
    );
    v = omega arith;
    r = omega arith;
    s = omega arith;
  },
  omega arith,
  omega arith,
)

old_tx-IsLegacyTx : IsLegacyTx old_tx
old_tx-IsLegacyTx = record {
  nonce = omega arith;
  gas_price = omega arith;
  gas = omega arith;
  to = refl;
  value = omega arith;
  input = omega arith;
  v = omega arith;
  r = omega arith;
  s = omega arith;
}

pub old_tx-IsTransaction : IsTransaction (legacy old_tx)
unfolding legacy_fields_with action_item encode_action strip_zeros be_bytes
old_tx-IsTransaction = (old_tx-IsLegacyTx, omega arith)

stored_round_trip_example :
    decode_transaction (stored (access_list listed_tx) ++ 9 ∷ [])
    ≡ ok (access_list listed_tx, 9 ∷ [])
stored_round_trip_example =
    stored_round_trip derived_laws (access_list listed_tx) (9 ∷ []) listed_tx-IsTransaction

encoding_not_read_back_example :
    (e : DecodeError) × (decode_transaction (encode_transaction (legacy old_tx) ++ []) ≡ err e)
unfolding legacy_fields legacy_fields_with action_item action_length u256_wrapper_item strip_zeros
    be_bytes
encoding_not_read_back_example =
    encoding_not_read_back derived_laws (legacy old_tx) [] (old_tx-IsLegacyTx, omega arith)
