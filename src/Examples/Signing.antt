-- ===== src/Examples/Signing.antt =====
-- Two signed forms of one legacy transaction hash alike and have one content.
use erigon_db.Prelude.{◌≡◌, ◌≢◌, ◌⊎◌, refl, ap, sym, ◌∙◌, arith, some}
use erigon_db.Prelude.Digits.{be_bytes, strip_zeros}
use erigon_db.Outcome.{ok, map_ok}
use erigon_db.Crates.Stand.{uint, buf, fixed_hash}
use erigon_db.Crates.Stand.Rlp.{simple_rlp}
use erigon_db.Crates.Stand.Derive.{struct_item, vectors}
use erigon_db.Models.Keys.{keccak256}
use erigon_db.Models.Transaction.Action.{action_item, encode_action}
use erigon_db.Models.Transaction.ChainId.{derive_chain_id, unpack}
use erigon_db.Models.Transaction.Defs.{Transaction, legacy, HashEncoders}
use erigon_db.Models.Transaction.Defs.Hash.{hash, unsigned_legacy}
use erigon_db.Models.Transaction.Signing.{
  Content, legacy_content, content, sign_bytes, hash-content, legacy_hash_fields,
  chain_id_hash_fields, access_list_hash_fields, dynamic_fee_hash_fields, HashLaws,
}
use erigon_db.Models.Transaction.Signing.Binds.{IsContent, signing_hash_binds}
use erigon_db.Examples.Ethers.{first_bytes}
use erigon_db.Examples.Transactions.{tuple_codec, tx_items, derived_laws, old_tx}

instance abbrev hash_encoders : HashEncoders
hash_encoders = record {
  encode_legacy = (struct_item legacy_hash_fields).encode;
  encode_with_chain_id = (struct_item chain_id_hash_fields).encode;
  encode_access_list = (struct_item (access_list_hash_fields (vectors.vec tuple_codec))).encode;
  encode_dynamic_fee = (struct_item (dynamic_fee_hash_fields (vectors.vec tuple_codec))).encode;
}

hash_laws : HashLaws
hash_laws = record {
  legacy = record { encode_lem = λ a. refl };
  with_chain_id = record { encode_lem = λ a. refl };
  access_list = record { encode_lem = λ a. refl };
  dynamic_fee = record { encode_lem = λ a. refl };
}

-- Signatures of the chain 1, with both parities.
abbrev even : Transaction
even = legacy old_tx

abbrev odd : Transaction
odd = legacy (record old_tx { v = 38; r = 8; s = 9 })

abbrev signed_content : Content
signed_content = legacy_content (unsigned_legacy old_tx) (some 1)

even_signs : content even ≡ ok signed_content
unfolding content derive_chain_id unpack
even_signs = refl

odd_signs : content odd ≡ ok signed_content
unfolding content derive_chain_id unpack
odd_signs = refl

signed_content-IsContent : IsContent signed_content
unfolding chain_id_hash_fields legacy_hash_fields action_item encode_action strip_zeros be_bytes
signed_content-IsContent = (
  record {
    nonce = omega arith;
    gas_price = omega arith;
    gas = omega arith;
    to = refl;
    value = omega arith;
    input = omega arith;
  },
  omega arith,
  omega arith,
)

same_hash : hash even ≡ hash odd
same_hash =
    let same : content even ≡ content odd = even_signs ∙ sym odd_signs in
    hash-content even ∙ ap (map_ok (λ x. keccak256 (sign_bytes x))) same ∙ sym (hash-content odd)

signing_hash_binds_example :
    (signed_content ≡ signed_content)
    ⊎ ((sign_bytes signed_content ≢ sign_bytes signed_content)
        × (keccak256 (sign_bytes signed_content) ≡ keccak256 (sign_bytes signed_content)))
signing_hash_binds_example =
    signing_hash_binds derived_laws hash_laws even odd signed_content signed_content even_signs
      odd_signs signed_content-IsContent signed_content-IsContent same_hash
