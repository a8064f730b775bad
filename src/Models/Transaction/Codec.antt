-- ===== src/Models/Transaction/Codec.antt =====
-- `Decodable` and `Encodable` of `Transaction`, and its table value.
pub mod Laws
pub mod Fields
pub mod Derived
mod Refused
pub mod Stored
pub mod Mismatch
use erigon_db.Prelude.{ℕ, List, [], ◌∷◌, leb, ◌==◌, if◌then◌else◌}
use erigon_db.Outcome.{
  DecodeError, custom, rlp, Outcome, ok, err, panic, ◌>>=◌, or_panic, map_ok, map_err,
}
use erigon_db.Crates.{BufCrate, RlpCrate, RlpItem}
use erigon_db.Kv.Traits.{TableObject}
use erigon_db.Models.Transaction.Defs.{
  AccessTuple, LegacyTx, AccessListTx, DynamicFeeTx, Transaction, legacy, access_list, dynamic_fee,
  access_list_type, dynamic_fee_type,
}

-- The codecs of `AccessTuple` and of the three structs, which `derive(RlpEncodable, RlpDecodable)`
-- generates.
pub record TxItems : Type 0 where
  pub tuple_item : RlpItem AccessTuple
  pub legacy_item : RlpItem LegacyTx
  pub access_list_item : RlpItem AccessListTx
  pub dynamic_fee_item : RlpItem DynamicFeeTx

-- `buf[0]`, which panics on an empty slice.
abbrev pub first_byte : {E : Type 0} → List ℕ → Outcome E ℕ
first_byte [] = panic
first_byte (b ∷ bs) = ok b

module _ ⦃b : BufCrate⦄ ⦃r : RlpCrate⦄ ⦃t : TxItems⦄ where
  -- The transaction comes back with the slice behind it.
  unfoldable pub decode_typed : ℕ → List ℕ → Outcome DecodeError (Transaction × List ℕ)
  decode_typed ty buf =
      if ty == access_list_type
      then map_ok (λ p. (access_list p.0, p.1)) (t.access_list_item.decode buf)
      else if ty == dynamic_fee_type
      then map_ok (λ p. (dynamic_fee p.0, p.1)) (t.dynamic_fee_item.decode buf)
      else err (custom "Unknown transaction type")

  unfoldable pub decode_envelope : List ℕ → Outcome DecodeError (Transaction × List ℕ)
  unfolding decode_typed
  decode_envelope buf = do
    (header, buf1) ← r.decode_header buf
    (ty, buf2) ← or_panic (b.get_u8 buf1)
    decode_typed ty buf2

  unfoldable pub decode_transaction : List ℕ → Outcome DecodeError (Transaction × List ℕ)
  decode_transaction buf = do
    first ← first_byte buf
    if leb 0xc0 first
        then map_ok (λ p. (legacy p.0, p.1)) (t.legacy_item.decode buf)
        else do decode_envelope buf

  unfoldable pub encode_transaction : Transaction → List ℕ
  encode_transaction (legacy tx) = t.legacy_item.encode tx
  encode_transaction (access_list tx) = t.access_list_item.encode tx
  encode_transaction (dynamic_fee tx) = t.dynamic_fee_item.encode tx

  -- `rlp_table_value!(Transaction)`: bytes behind the item are ignored.
  unfoldable pub transaction_object : TableObject Transaction
  unfolding decode_transaction encode_transaction
  transaction_object = record {
    encode = λ tx. ok (encode_transaction tx);
    decode = λ bytes. map_ok (λ p. p.0) (map_err rlp (decode_transaction bytes));
  }
