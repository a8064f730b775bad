-- ===== src/Models/Account.antt =====
-- erigon/models/account.rs: accounts and their storage format.
pub mod Format
pub mod Malformed
pub mod Slim
pub mod Stored
pub mod Accepted
use erigon_db.Prelude.{ℕ, List, [], ltb, bit_and, Bool, ◌==◌, not, if◌then◌else◌}
use erigon_db.Outcome.{rlp, message, Result, ok, err, panic, ◌>>=◌, or_panic, map_err}
use erigon_db.Crates.{BufCrate, UintCrate, FixedHashCrate, ArrayVecCrate, H256, Address, zero_hash}
use erigon_db.Utils.{keccak_length, take_u64_rlp, slice_to, is_empty}
use erigon_db.Kv.Traits.{TableType}
use erigon_db.Kv.Values.{address_type}
use erigon_db.Macros.{tuple_key2}
use erigon_db.Models.Keys.{Incarnation}

pub record Account : Type 0 where
  pub nonce : ℕ
  pub incarnation : Incarnation
  pub balance : ℕ
  pub codehash : H256

-- `Account::default()`, and `Account::new()`.
abbrev pub default : Account
default = record { nonce = 0; incarnation = 0; balance = 0; codehash = zero_hash }

-- `fieldset & mask > 0`
abbrev pub has : ℕ → ℕ → Bool
has fieldset mask = ltb 0 (bit_and fieldset mask)

module _ ⦃b : BufCrate⦄ ⦃u : UintCrate⦄ where
  -- A length byte and a big-endian number; `From<&[u8]> for U256` is `from_big_endian`.
  unfoldable pub read_balance : List ℕ → Result (ℕ × List ℕ)
  read_balance buf = do
    (bal_len, buf1) ← or_panic (b.get_u8 buf)
    s ← slice_to bal_len buf1
    balance ← or_panic (u.from_big_endian s)
    buf2 ← or_panic (b.advance bal_len buf1)
    ok (balance, buf2)

module _ ⦃b : BufCrate⦄ ⦃f : FixedHashCrate⦄ where
  unfoldable pub read_codehash : List ℕ → Result (H256 × List ℕ)
  read_codehash buf = do
    (len, buf1) ← or_panic (b.get_u8 buf)
    if not (len == keccak_length) then err (message "codehash should be 32 bytes long") else do
      s ← slice_to keccak_length buf1
      codehash ← or_panic (f.from_slice keccak_length s)
      buf2 ← or_panic (b.advance keccak_length buf1)
      ok (codehash, buf2)

module _ ⦃b : BufCrate⦄ ⦃u : UintCrate⦄ ⦃f : FixedHashCrate⦄ where
  -- The four fields, each read if its bit is set.
  unfoldable pub read_fields : ℕ → List ℕ → Result Account
  read_fields fieldset buf = do
    (nonce, buf1) ← (if has fieldset 1 then map_err rlp (take_u64_rlp buf) else ok (0, buf))
    (balance, buf2) ← (if has fieldset 2 then read_balance buf1 else ok (0, buf1))
    (incarnation, buf3) ← (if has fieldset 4 then map_err rlp (take_u64_rlp buf2) else ok (0, buf2))
    (codehash, buf4) ← (if has fieldset 8 then read_codehash buf3 else ok (zero_hash, buf3))
    ok (record { nonce = nonce; incarnation = incarnation; balance = balance; codehash = codehash })

  unfoldable pub decode_account : List ℕ → Result Account
  decode_account buf =
      if is_empty buf
      then ok default
      else do (fieldset, buf1) ← or_panic (b.get_u8 buf); read_fields fieldset buf1

  -- Accounts cannot be encoded (`unreachable!`). In memory an account takes 8 + 8 + 32 + 32 bytes.
  unfoldable pub account_type : TableType Account
  unfolding decode_account
  account_type = record {
    object = record { encode = λ a. panic; decode = decode_account };
    size_of = 80;
    align_of = 8;
  }

  -- `AccountCSVal`: an address and the account that it had.
  unfoldable pub account_cs_val : ⦃v : ArrayVecCrate⦄ → TableType (Address × Account)
  account_cs_val = tuple_key2 address_type account_type

abbrev pub set_nonce : Account → ℕ → Account
set_nonce a nonce = record a { nonce = nonce }

abbrev pub set_incarnation : Account → Incarnation → Account
set_incarnation a inc = record a { incarnation = inc }

abbrev pub set_balance : Account → ℕ → Account
set_balance a bal = record a { balance = bal }

abbrev pub set_codehash : Account → H256 → Account
set_codehash a hash = record a { codehash = hash }
