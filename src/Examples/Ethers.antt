-- ===== src/Examples/Ethers.antt =====
-- Two signed forms of one transaction, converted to ethers.
use erigon_db.Prelude.{ℕ, suc, ◌≡◌, refl, ap, arith, some, List, [], ◌∷◌, ◌++◌, length, replicate}
use erigon_db.Outcome.{ok}
use erigon_db.Crates.{KeccakCrate}
use erigon_db.Crates.Stand.{uint}
use erigon_db.Crates.Stand.Rlp.{number_item}
use erigon_db.Models.Transaction.Action.{create}
use erigon_db.Models.Transaction.Defs.{LegacyTx, legacy, HashEncoders}
use erigon_db.Models.Transaction.Ethers.{EthersTx, to_ethers, to_ethers_same_hash}

-- The first bytes that the hasher was fed stand in for a digest.
abbrev pub overwrite : List ℕ → List ℕ → List ℕ
overwrite h [] = []
overwrite [] (b ∷ out) = b ∷ out
overwrite (x ∷ h) (b ∷ out) = x ∷ overwrite h out

pub length-overwrite : (h out : List ℕ) → length (overwrite h out) ≡ length out
length-overwrite h [] = refl
length-overwrite [] (b ∷ out) = refl
length-overwrite (x ∷ h) (b ∷ out) = ap suc (length-overwrite h out)

instance abbrev pub first_bytes : KeccakCrate
first_bytes = record {
  Hasher = List ℕ;
  v256 = [];
  update = λ h bs. h ++ bs;
  finalize = overwrite;
  length-finalize = length-overwrite;
}

instance abbrev nonces : HashEncoders
nonces = record {
  encode_legacy = λ tx. (number_item 8).encode tx.nonce;
  encode_with_chain_id =
      λ tx. (number_item 8).encode tx.unsigned.nonce ++ (number_item 32).encode tx.chain_id;
  encode_access_list = λ tx. (number_item 8).encode tx.nonce;
  encode_dynamic_fee = λ tx. (number_item 8).encode tx.nonce;
}

abbrev signed : LegacyTx
signed = record {
  nonce = 3;
  gas_price = 5;
  gas = 21000;
  to = create;
  value = 1;
  input = [];
  v = 27;
  r = 0;
  s = 0;
}

to_ethers_same_hash_example :
    (a : EthersTx) × (b : EthersTx) × (to_ethers
        (record { msg = legacy (record signed { v = 37; r = 6; s = 8 }); signer = replicate 20 1 })
      ≡ ok a)
    × (to_ethers (record {
      msg = legacy (record signed { v = 38; r = 7; s = 9 });
      signer = replicate 20 2;
    })
        ≡ ok b)
    × (a.chain_id ≡ some 1)
    × (b.chain_id ≡ some 1)
    × (a.v ≡ 0)
    × (b.v ≡ 1)
    × (a.hash ≡ b.hash)
to_ethers_same_hash_example =
    to_ethers_same_hash signed 1 0 1 6 8 7 9 (replicate 20 1) (replicate 20 2) (omega arith)
      (omega arith) (omega arith)
