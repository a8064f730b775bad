-- ===== src/Examples/Chain.antt =====
-- Headers, bodies, canonical hashes and slots of a store in memory.
use erigon_db.Prelude.{ℕ, ◌≡◌, refl, arith, some, List, [], ◌∷◌, ◌++◌, replicate, bytes_eq, true}
use erigon_db.Prelude.Digits.{be_bytes, be_value_from, strip_zeros}
use erigon_db.Prelude.Lex.{lex_ltb}
use erigon_db.Outcome.{ok}
use erigon_db.Crates.Stand.{buf, uint, fixed_hash, array_vec}
use erigon_db.Crates.Stand.Rlp.{simple_rlp}
use erigon_db.Crates.Stand.Store.{Log, Position, mdbx, cursor_laws, tx_laws, scan_laws}
use erigon_db.Kv.Env.{ro_mode, rw_mode}
use erigon_db.Kv.Tx
use erigon_db.Kv.Walk.{next_value, Walker, collect}
use erigon_db.Kv.Values.{h256_type, slot_object, uint_type, u256_type, extend}
use erigon_db.Macros.{tuple_key2}
use erigon_db.Models.Keys.{u64_key, header_key}
use erigon_db.Models.Block.{
  BodyForStorage, rlp_header, fee_length, rlp_table_value, block_header_item, block_header_length,
}
use erigon_db.Models.Block.Body.{body_fields, IsBody}
use erigon_db.Crates.Derive.{Derives}
use erigon_db.Crates.Stand.Derive.{struct_item, struct_item-Derives, vectors}
use erigon_db.Db.Access.{read, write}
use erigon_db.Db.Reads.{
  read_header, read_body_for_storage, read_header_number, read_canonical_hash, is_canonical_hash,
  walk_storage,
}
use erigon_db.Db.Reads.Canonical.{canonical_unique}
use erigon_db.Db.Reads.Slots.{walk_storage-slots}
use erigon_db.Db.Writes.{write_header, write_body_for_storage}
use erigon_db.Db.Writes.Blocks.{read-write_header, read-write_body}
use erigon_db.Db.Tables
use erigon_db.Outcome.{panic}
use erigon_db.Crates.Stand.Store.{lookup}
use erigon_db.Crates.Stand.{buf}
use erigon_db.Models.Account.{default}
use erigon_db.Db.Writes.{write_account}
use erigon_db.Db.Writes.Accounts.{write_account-panics}
use erigon_db.Examples.Store.{owner, slot_two, slot_four, in_table, slots}
use erigon_db.Examples.Encodings.{sample, sample-IsBlockHeader, debug}

-- A body with one uncle.
abbrev pub body : BodyForStorage
body = record { base_tx_id = 10; tx_amount = 5; uncles = sample ∷ [] }

instance abbrev pub body_codec : Tables.BodyItem
body_codec = record { item = struct_item body_fields }

pub derived_body : Derives body_codec.item body_fields
derived_body = struct_item-Derives body_fields

pub body-IsBody : IsBody body
unfolding body_fields block_header_item block_header_length rlp_header fee_length strip_zeros
    be_bytes
body-IsBody = record {
  base_tx_id = omega arith;
  tx_amount = omega arith;
  uncles = ((sample-IsBlockHeader, omega arith), tt);
  short = omega arith;
}

read-write_header_example :
    (read_header rw_mode (7, slot_two) (write_header (7, slot_two) sample []).1).0
    ≡ ok (some sample)
read-write_header_example =
    read-write_header tx_laws (7, slot_two) sample [] (omega arith) refl sample-IsBlockHeader
      (unfold rlp_header fee_length strip_zeros be_bytes in omega arith) refl
      (unfold write_header write Tx.open_db Tx.put header_key tuple_key2 u64_key uint_type h256_type
          extend rlp_table_value be_bytes in
        refl)

read-write_body_example :
    (read_body_for_storage rw_mode (7, slot_two) (write_body_for_storage (7, slot_two) body []).1).0
    ≡ ok (some (record { base_tx_id = 11; tx_amount = 3; uncles = sample ∷ [] }))
read-write_body_example =
    read-write_body tx_laws derived_body (7, slot_two) body [] (omega arith) refl body-IsBody
      (omega arith) refl
      (unfold write_body_for_storage write Tx.open_db Tx.put header_key tuple_key2 u64_key uint_type
          h256_type extend rlp_table_value be_bytes in
        refl)

-- Block 4 has the canonical hash `slot_two`.
abbrev chain : Log
chain =
    in_table "HeaderNumber" ((slot_two, be_bytes 8 4) ∷ [])
    ++ in_table "CanonicalHeader" ((be_bytes 8 4, slot_two) ∷ [])

chain_accepts : (is_canonical_hash ro_mode slot_two chain).0 ≡ ok true
unfolding is_canonical_hash read_header_number read_canonical_hash read Tx.open_db Tx.get u64_key
    uint_type h256_type be_bytes be_value_from bytes_eq
chain_accepts = refl

canonical_unique_example :
    (slot_two ≡ slot_two)
    × (n : ℕ) × ((read_header_number ro_mode slot_two chain).0 ≡ ok (some n))
    × ((read_canonical_hash ro_mode n chain).0 ≡ ok (some slot_two))
canonical_unique_example =
    canonical_unique tx_laws ro_mode chain refl refl slot_two slot_two chain_accepts chain_accepts
      refl

walk_storage-slots_example :
    (w : Walker Position (List ℕ × ℕ)) × ((walk_storage ro_mode owner 1
        (some (replicate 32 3))
        (in_table "PlainState" slots)).0
      ≡ ok w)
    × (collect (next_value Tables.storage) 5 w ≡ ok (slot_four, 5) ∷ [])
walk_storage-slots_example =
    walk_storage-slots tx_laws cursor_laws scan_laws ro_mode owner 1 (some (replicate 32 3))
      ((slot_two, 9) ∷ (slot_four, 5) ∷ []) [] (slot_four, 5) 5 (in_table "PlainState" slots) refl
      refl refl
      (unfold bytes_eq be_bytes slot_object h256_type u256_type extend strip_zeros in
        (refl, refl, omega arith, (refl, refl, omega arith, tt)))
      (unfold lex_ltb in refl)

write_account-panics_example :
    ((write_account owner default chain).0 ≡ panic)
    × (lookup (write_account owner default chain).1 "HeaderNumber" slot_two
        ≡ lookup chain "HeaderNumber" slot_two)
write_account-panics_example =
    write_account-panics tx_laws owner default chain "HeaderNumber" slot_two refl
