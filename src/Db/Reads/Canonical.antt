-- ===== src/Db/Reads/Canonical.antt =====
-- Which hashes `is_canonical_hash` accepts.
use erigon_db.Prelude.{
  ◌≡◌, ℕ, List, ap, refl, ◌∙◌, sym, Option, none, some, Bool, true, false, ◌&&◌, not, bytes_eq,
  bytes_eq→eq,
}
use erigon_db.Prelude.Digits.{be_bytes}
use erigon_db.Outcome.{Result, ok, err, panic, traverse, ok_or, message, ◌>>=◌}
use erigon_db.Crates.{MdbxCrate, TxLaws, FixedHashCrate, H256, zero_hash}
use erigon_db.Kv.Env.{Access}
use erigon_db.Kv.Values.{h256_type}
use erigon_db.Models.Keys.{BlockNumber}
use erigon_db.Db.Access.{read}
use erigon_db.Db.Access.Laws.{flags_of, read-value, read-keeps}
use erigon_db.Db.Reads.{read_header_number, read_canonical_hash, is_canonical_hash}
use erigon_db.Db.Reads.Laws.{h256-bytes}
use erigon_db.Db.History.Accounts.{u64-bytes, continue_value, bind_value}
use erigon_db.Db.Tables

ok_injective : {x y : Bool} → ◌≡◌ {A = Result Bool} (ok x) (ok y) → x ≡ y
ok_injective e = cc

some_number : {x y : ℕ} → ◌≡◌ {A = Result (Option ℕ)} (ok (some x)) (ok (some y)) → x ≡ y
some_number e = cc

some_hash : {x y : H256} → ◌≡◌ {A = Result (Option H256)} (ok (some x)) (ok (some y)) → x ≡ y
some_hash e = cc

both : (a b : Bool) → (a && b) ≡ true → b ≡ true
both true b h = h
both false b h = cc

-- The decision, by the canonical hash that was found.
abbrev accepts : H256 → Result (Option H256) → Result Bool
accepts h found = do
  o ← found
  canon ← ok_or o (message "No value")
  ok (not (bytes_eq canon zero_hash) && bytes_eq canon h)

accepts-true : (h : H256) (r : Result (Option H256)) → accepts h r ≡ ok true → r ≡ ok (some h)
accepts-true h (ok (some c)) e =
    ap (λ x. ok (some x))
      (bytes_eq→eq c h (both (not (bytes_eq c zero_hash)) (bytes_eq c h) (ok_injective e)))
accepts-true h (ok none) e = cc
accepts-true h (err x) e = cc
accepts-true h panic e = cc

-- The decision, by the number that was found for the hash.
abbrev decides :
    H256 → Result (Option BlockNumber) → (BlockNumber → Result (Option H256)) → Result Bool
decides h found canonical = do o ← found; n ← ok_or o (message "No value"); accepts h (canonical n)

decides-true :
    (h : H256) (r : Result (Option BlockNumber)) (canonical : BlockNumber → Result (Option H256))
    → decides h r canonical ≡ ok true
    → (n : BlockNumber) × (r ≡ ok (some n)) × (canonical n ≡ ok (some h))
decides-true h (ok (some n)) canonical e = (n, refl, accepts-true h (canonical n) e)
decides-true h (ok none) canonical e = cc
decides-true h (err x) canonical e = cc
decides-true h panic canonical e = cc

module _ ⦃m : MdbxCrate⦄ ⦃f : FixedHashCrate⦄ (laws : TxLaws m) (access : Access)
    (tx : m.Transaction)
    (can : laws.can_open tx "HeaderNumber" (flags_of access Tables.header_number) ≡ true)
    (can' : laws.can_open tx "CanonicalHeader" (flags_of access Tables.canonical_header)
      ≡ true) where
  -- The canonical hash of a number.
  abbrev canonical : BlockNumber → Result (Option H256)
  canonical n = traverse h256_type.decode (laws.value tx "CanonicalHeader" (be_bytes 8 n))

  canonical_hash_value :
      (tx' : m.Transaction) (n : BlockNumber)
      → laws.can_open tx' "CanonicalHeader" (flags_of access Tables.canonical_header) ≡ true
      → ((k : List ℕ) → laws.value tx' "CanonicalHeader" k ≡ laws.value tx "CanonicalHeader" k)
      → (read_canonical_hash access n tx').0 ≡ canonical n
  unfolding read_canonical_hash
  canonical_hash_value tx' n opened values =
      read-value laws access Tables.canonical_header n (be_bytes 8 n) tx' opened (u64-bytes n)
      ∙ rw (values (be_bytes 8 n))

  is_canonical_hash-decides :
      (h : H256)
      → (is_canonical_hash access h tx).0 ≡ decides h (read_header_number access h tx).0 canonical
  unfolding is_canonical_hash read_header_number
  is_canonical_hash-decides h =
      let (values, opens) = read-keeps laws access Tables.header_number h h tx can (h256-bytes h) in
      bind_value (read access Tables.header_number h) _ _ _ tx refl (λ found.
        continue_value (ok_or found (message "No value")) _ _ _ (λ n.
          bind_value (read_canonical_hash access n) _ _ _ _
            (canonical_hash_value _ n (opens "CanonicalHeader" _ can') (values "CanonicalHeader"))
            (λ o. continue_value (ok_or o (message "No value")) _ _ _ (λ c. refl))))

  -- Of the hashes of one block number `is_canonical_hash` accepts at most one, and that is what
  -- `read_canonical_hash` returns for the number, where both tables can be opened.
  pub canonical_unique :
      (h h' : H256)
      → (is_canonical_hash access h tx).0 ≡ ok true
      → (is_canonical_hash access h' tx).0 ≡ ok true
      → (read_header_number access h tx).0 ≡ (read_header_number access h' tx).0
      → (h ≡ h')
        × (n : BlockNumber) × ((read_header_number access h tx).0 ≡ ok (some n))
        × ((read_canonical_hash access n tx).0 ≡ ok (some h))
  canonical_unique h h' e e' same =
      let (n, number, hash) = decides-true h _ canonical (sym (is_canonical_hash-decides h) ∙ e) in
      let (n', number', hash') =
        decides-true h' _ canonical (sym (is_canonical_hash-decides h') ∙ e') in
      let one : n ≡ n' = some_number (sym number ∙ same ∙ number') in
      (
        some_hash (sym hash ∙ ap canonical one ∙ hash'),
        n,
        number,
        canonical_hash_value tx n can' (λ k. refl) ∙ hash,
      )
