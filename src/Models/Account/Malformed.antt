-- ===== src/Models/Account/Malformed.antt =====
-- Account records that the decoder refuses, and those that make it panic.
use erigon_db.Prelude.{
  ℕ, ◌+◌, ◌<◌, ◌≡◌, ◌≢◌, false, Option, some, List, [], ◌∷◌, ◌++◌, length, arith, if◌then◌else◌,
  leb, length-append, leb→le, Bool-cases, inl, inr, sym, append-nil, ap, ◌∙◌,
}
use erigon_db.Outcome.{rlp, input_too_short, message, too_long, ok, err, panic}
use erigon_db.Crates.{BufCrate, UintCrate, FixedHashCrate, ArrayVecCrate, Address, IsAddress}
use erigon_db.Utils.Numbers.{take_u64_rlp_lem}
use erigon_db.Kv.Values.{address_type}
use erigon_db.Kv.Values.RoundTrip.{address_decodes}
use erigon_db.Macros.Tuples.{tuple_key2-decode_append}
use erigon_db.Macros.Canonical.{decode_tuple2_lengths}
use erigon_db.Models.Account.{
  default, has, read_balance, read_codehash, read_fields, decode_account, account_type,
  account_cs_val,
}
use erigon_db.Models.Account.Format.{
  Fields, IsWellFormed, AtMost, flag, field, flags, number_read, balance_read, account, format,
  decode-format,
}

module _ ⦃b : BufCrate⦄ ⦃u : UintCrate⦄ ⦃f : FixedHashCrate⦄ where
  -- A code hash of another length than 32 is refused, whatever stands before and after it.
  pub decode_account_codehash_length :
      (nonce balance incarnation : Option (List ℕ)) (len : ℕ) (rest : List ℕ)
      → AtMost 8 nonce
      → AtMost 32 balance
      → AtMost 8 incarnation
      → len ≢ 32
      → decode_account (
          (flag 1 nonce + flag 2 balance + flag 4 incarnation + 8)
          ∷ (field nonce ++ (field balance ++ (field incarnation ++ (len ∷ rest)))))
        ≡ err (message "codehash should be 32 bytes long")
  unfolding decode_account read_fields read_codehash
  decode_account_codehash_length nonce balance incarnation len rest hn hb hi ne =
      let (f1, f2, f4, f8) = flags nonce balance incarnation (some []) in
      rw
        (
          b.get_u8-cons _ _,
          f1,
          f2,
          f4,
          f8,
          number_read nonce _ hn,
          balance_read balance _ hb,
          number_read incarnation _ hi,
          b.get_u8-cons len rest,
        )
        (ground arith)

  -- A record that ends behind its first byte: a missing nonce or incarnation is an error, a missing
  -- balance or code hash a panic.
  pub decode_account_header_only :
      (fs : ℕ)
      → decode_account (fs ∷ []) ≡ (
          if has fs 1
          then err (rlp input_too_short)
          else if has fs 2
          then panic
          else if has fs 4
          then err (rlp input_too_short)
          else if has fs 8
          then panic
          else ok default)
  unfolding decode_account read_fields read_balance read_codehash
  decode_account_header_only fs =
      rw (b.get_u8-cons fs []) (ground (arith, take_u64_rlp_lem [], b.get_u8-nil))

  -- A change set value is refused, though its account is well formed, where that takes more than the
  -- 80 bytes of an `Account` in memory; otherwise it decodes to its address and account.
  pub account_cs_val_lem :
      ⦃v : ArrayVecCrate⦄ (a : Address) (r : Fields)
      → IsAddress a
      → IsWellFormed r
      → account_cs_val.decode (a ++ format r) ≡ (
          if leb (length (format r)) 80
          then ok (a, account r)
          else err (too_long 100 (20 + length (format r))))
  unfolding account_cs_val account_type address_type
  account_cs_val_lem a r ha h = elim (Bool-cases (leb (length (format r)) 80)) [
    | inl small ↦ rw small (
        tuple_key2-decode_append address_type account_type a (account r) a (format r)
          (address_decodes a ha) record_decodes width (leb→le _ _ small))
    | inr large ↦
        rw (large, ← n)
          ((decode_tuple2_lengths address_type account_type (a ++ format r)).0
            (omega (arith, n, longer large)))
  ]
    where
      n : length (a ++ format r) ≡ 20 + length (format r)
      n = length-append a (format r) ∙ omega arith

      width : length a ≡ address_type.size_of
      width = ha

      longer : leb (length (format r)) 80 ≡ false → 80 < length (format r)
      longer e = ground arith

      record_decodes : account_type.decode (format r) ≡ ok (account r)
      record_decodes = ap decode_account (sym (append-nil (format r))) ∙ decode-format r [] h
