-- ===== src/Examples/Models.antt =====
-- Accounts, sender lists and chain ids at concrete inputs.
use erigon_db.Prelude.{ℕ, ◌≡◌, refl, arith, none, some, List, [], ◌∷◌, ◌++◌, length, replicate}
use erigon_db.Outcome.{ok, err, panic, message}
use erigon_db.Prelude.Digits.{be_value_from}
use erigon_db.Crates.Stand.{buf, uint, fixed_hash, array_vec}
use erigon_db.Kv.Traits.{RoundTrip}
use erigon_db.Models.Account.{Account, decode_account, account_cs_val}
use erigon_db.Models.Account.Format.{Fields, format, account, IsWellFormed, decode-format}
use erigon_db.Models.Account.Accepted.{StoresAccount, decode_account_accepts}
use erigon_db.Crates.{zero_hash}
use erigon_db.Models.Account.Stored.{stored, decode-stored}
use erigon_db.Models.Account.Malformed.{decode_account_header_only, account_cs_val_lem}
use erigon_db.Models.Senders.{senders_object, decode_senders}
use erigon_db.Models.Senders.RoundTrip.{
  senders_round_trip, decode_senders_uneven, decode_senders_total,
}
use erigon_db.Models.Transaction.ChainId.{derive_chain_id, derive_v, derive_packed}

abbrev rich : Account
rich = record { nonce = 3; incarnation = 1; balance = 1000; codehash = replicate 32 9 }

abbrev rich_fields : Fields
rich_fields = record {
  nonce = some (3 ∷ []);
  balance = some (3 ∷ 232 ∷ []);
  incarnation = none;
  codehash = some (replicate 32 9);
}

rich_fields-IsWellFormed : IsWellFormed rich_fields
rich_fields-IsWellFormed = record {
  nonce_fits = omega arith;
  balance_fits = omega arith;
  incarnation_fits = tt;
  codehash_fits = λ bs e. ground arith;
}

decode-stored_example : decode_account (format (stored rich)) ≡ ok rich
decode-stored_example = decode-stored rich (record {
  nonce_range = omega arith;
  incarnation_range = omega arith;
  balance_range = omega arith;
  codehash_length = refl;
})

decode-format_example : decode_account (format rich_fields ++ 1 ∷ []) ≡ ok (account rich_fields)
decode-format_example = decode-format rich_fields (1 ∷ []) rich_fields-IsWellFormed

-- Nonce 5, balance 256, with a bit that no field has, and a byte behind the record.
abbrev small : Account
small = record { nonce = 5; incarnation = 0; balance = 256; codehash = zero_hash }

abbrev small_bytes : List ℕ
small_bytes = 19 ∷ 1 ∷ 5 ∷ 2 ∷ 1 ∷ 0 ∷ 7 ∷ []

decode_account_accepts_example :
    (decode_account small_bytes ≡ ok small → StoresAccount small_bytes small)
    × (StoresAccount small_bytes small → decode_account small_bytes ≡ ok small)
decode_account_accepts_example = decode_account_accepts small_bytes small

small_decodes : decode_account small_bytes ≡ ok small
unfolding be_value_from
small_decodes = (decode_account_accepts small_bytes small).1 (record {
  fields = record {
    nonce = some (5 ∷ []);
    balance = some (1 ∷ 0 ∷ []);
    incarnation = none;
    codehash = none;
  };
  rest = 7 ∷ [];
  nonce_bit = refl;
  balance_bit = refl;
  incarnation_bit = refl;
  codehash_bit = refl;
  well_formed = record {
    nonce_fits = omega arith;
    balance_fits = omega arith;
    incarnation_fits = tt;
    codehash_fits = λ bs e. ground arith;
  };
  is_buf = refl;
  is_account = refl;
})

decode_account_header_only_example : decode_account (2 ∷ []) ≡ panic
decode_account_header_only_example = decode_account_header_only 2

account_cs_val_lem_example :
    account_cs_val.decode (replicate 20 7 ++ format rich_fields)
    ≡ ok (replicate 20 7, account rich_fields)
account_cs_val_lem_example =
    account_cs_val_lem (replicate 20 7) rich_fields refl rich_fields-IsWellFormed

senders_round_trip_example :
    RoundTrip senders_object (replicate 20 7 ∷ replicate 20 8 ∷ []) (λ n. n ≡ 40)
senders_round_trip_example =
    senders_round_trip (replicate 20 7 ∷ replicate 20 8 ∷ []) (refl, (refl, tt))

decode_senders_uneven_example :
    decode_senders (replicate 21 7) ≡ err (message "Slice len should be divisible by 20")
decode_senders_uneven_example = decode_senders_uneven (replicate 21 7) (λ e. omega arith)

decode_senders_total_example :
    (out : List (List ℕ)) × (decode_senders (replicate 40 7) ≡ ok out) × (length out ≡ 2)
decode_senders_total_example = decode_senders_total (replicate 40 7) refl

derive_packed_example : (derive_chain_id 38 ≡ ok (some 1)) × (derive_v 38 ≡ ok 1)
derive_packed_example = derive_packed 1 1 (omega arith) (omega arith)
