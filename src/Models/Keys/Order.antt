-- ===== src/Models/Keys/Order.antt =====
-- The order of the encoded keys, by which the database sorts and seeks.
use erigon_db.Prelude.{
  ℕ, ◌≡◌, refl, sym, ◌∙◌, List, [], ◌++◌, arith, ◌&&◌, ◌||◌, ltb, leb, ◌==◌, bytes_eq_self,
  append-nil,
}
use erigon_db.Prelude.Digits.{be_bytes, length-be_bytes}
use erigon_db.Prelude.Lex.{
  lex_ltb, lex_leb, lex_ltb-append, lex_ltb_irrefl, lex_ltb-nil, lex_ltb-be_bytes,
  bytes_eq-be_bytes,
}
use erigon_db.Outcome.{Result, ok}
use erigon_db.Crates.{FixedHashCrate, ArrayVecCrate, H256, Address, IsH256, IsAddress}
use erigon_db.Kv.Values.{h256_type, address_type}
use erigon_db.Macros.Tuples.{tuple_key2-append}
use erigon_db.Models.Keys.{BlockNumber, header_key, account_hist_key, u64_key}
use erigon_db.Models.Keys.RoundTrip.{IsU64}

u64_key-bytes : (n : ℕ) → u64_key.encode n ≡ ok (be_bytes 8 n)
unfolding u64_key
u64_key-bytes n = refl

module _ ⦃f : FixedHashCrate⦄ ⦃v : ArrayVecCrate⦄ where
  -- The bytes of a header key: block number, then hash.
  pub header_key-bytes :
      (n : BlockNumber) (h : H256) → IsH256 h → header_key.encode (n, h) ≡ ok (be_bytes 8 n ++ h)
  unfolding header_key u64_key h256_type
  header_key-bytes n h v =
      tuple_key2-append _ _ n h _ h refl refl (omega (arith, length-be_bytes 8 n))

  pub account_hist_key-bytes :
      (a : Address) (n : BlockNumber)
      → IsAddress a
      → account_hist_key.encode (a, n) ≡ ok (a ++ be_bytes 8 n)
  unfolding account_hist_key u64_key address_type
  account_hist_key-bytes a n v =
      tuple_key2-append _ _ a n a _ refl refl (omega (arith, length-be_bytes 8 n))

ok-injective : {x y : List ℕ} → ◌≡◌ {A = Result (List ℕ)} (ok x) (ok y) → x ≡ y
ok-injective e = cc

-- Two equal widths in front are compared as numbers.
pub front_order :
    (n m : BlockNumber) (h k : List ℕ)
    → IsU64 n
    → IsU64 m
    → lex_ltb (be_bytes 8 n ++ h) (be_bytes 8 m ++ k) ≡ (ltb n m || (n == m && lex_ltb h k))
front_order n m h k vn vm =
    lex_ltb-append (be_bytes 8 n) (be_bytes 8 m) h k
      (length-be_bytes 8 n ∙ sym (length-be_bytes 8 m))
    ∙ rw (
      lex_ltb-be_bytes 8 n m (omega arith) (omega arith),
      bytes_eq-be_bytes 8 n m (omega arith) (omega arith),
    )

module _ ⦃f : FixedHashCrate⦄ ⦃v : ArrayVecCrate⦄ where
  -- Encoded header keys lie in the order of their block numbers, those of one block in the order of
  -- their hashes.
  pub header_keys_order :
      (n m : BlockNumber) (h k : H256) (x y : List ℕ)
      → IsU64 n
      → IsU64 m
      → IsH256 h
      → IsH256 k
      → header_key.encode (n, h) ≡ ok x
      → header_key.encode (m, k) ≡ ok y
      → lex_ltb x y ≡ (ltb n m || (n == m && lex_ltb h k))
  header_keys_order n m h k x y vn vm vh vk ex ey =
      rw
        (
          ok-injective (sym ex ∙ header_key-bytes n h vh),
          ok-injective (sym ey ∙ header_key-bytes m k vk),
        )
        (front_order n m h k vn vm)

  -- The encoded block number `n`, which is the seek key of the header tables, is at most an encoded
  -- header key exactly where `n` is at most that key's block number.
  pub seek_key_order :
      (n m : BlockNumber) (k : H256) (x y : List ℕ)
      → IsU64 n
      → IsU64 m
      → IsH256 k
      → u64_key.encode n ≡ ok x
      → header_key.encode (m, k) ≡ ok y
      → lex_leb x y ≡ leb n m
  seek_key_order n m k x y vn vm vk ex ey =
      rw
        (
          ok-injective (sym ex ∙ u64_key-bytes n),
          ok-injective (sym ey ∙ header_key-bytes m k vk),
          ← append-nil (be_bytes 8 n),
          front_order m n k [] vm vn,
          lex_ltb-nil k,
        )
        (ground arith)

  -- The history shards of one account lie in the order of their block numbers.
  pub shards_order :
      (a : Address) (n m : BlockNumber) (x y : List ℕ)
      → IsAddress a
      → IsU64 n
      → IsU64 m
      → account_hist_key.encode (a, n) ≡ ok x
      → account_hist_key.encode (a, m) ≡ ok y
      → lex_ltb x y ≡ ltb n m
  shards_order a n m x y va vn vm ex ey =
      rw
        (
          ok-injective (sym ex ∙ account_hist_key-bytes a n va),
          ok-injective (sym ey ∙ account_hist_key-bytes a m va),
        )
        (lex_ltb-append a a (be_bytes 8 n) (be_bytes 8 m) refl
          ∙ rw (
            lex_ltb_irrefl a,
            bytes_eq_self a,
            lex_ltb-be_bytes 8 n m (omega arith) (omega arith),
          ))
