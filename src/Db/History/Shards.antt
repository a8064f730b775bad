-- ===== src/Db/History/Shards.antt =====
-- The history of one account or slot is a list of shards: bitmaps of the blocks that changed it, each
-- under the last block that it covers, the last one under the greatest block number.
use erigon_db.Prelude.{
  ℕ, ◌-◌, ◌^◌, ◌≤◌, ◌<◌, ◌≡◌, ◌∙◌, ◌⊎◌, inl, inr, Option, none, some, true, List, [], ◌∷◌, ◌++◌,
  append-nil, map, arith, All, ltb, ltb→lt, ltb-eq-false, Bool-cases, bytes_eq_self, refl,
}
use erigon_db.Prelude.Digits.{be_bytes}
use erigon_db.Prelude.Lex.{lex_ltb, lex_ltb-append, lex_ltb_irrefl, lex_ltb-be_bytes}
use erigon_db.Crates.{RoaringCrate, Entry}
use erigon_db.Crates.Mdbx.{from_key}
use erigon_db.Models.Keys.{BlockNumber}
use erigon_db.Models.Keys.RoundTrip.{IsU64}
use erigon_db.Utils.Bitmap.{Elem, IsLeastGte, All-weaken}

abbrev pub last_shard : BlockNumber
last_shard = 2 ^ 64 - 1

-- Keys with one prefix lie in the order of the numbers behind it.
pub prefix_order :
    (front : List ℕ) (n m : BlockNumber)
    → IsU64 n
    → IsU64 m
    → lex_ltb (front ++ be_bytes 8 n) (front ++ be_bytes 8 m) ≡ ltb n m
prefix_order front n m vn vm =
    lex_ltb-append front front (be_bytes 8 n) (be_bytes 8 m) refl
    ∙ rw (
      lex_ltb_irrefl front,
      bytes_eq_self front,
      lex_ltb-be_bytes 8 n m (omega arith) (omega arith),
    )

-- Entries below a key do not matter to it.
pub from_key-skip :
    (k : List ℕ) (front es : List Entry)
    → All (λ e. lex_ltb e.0 k ≡ true) front
    → from_key k (front ++ es) ≡ from_key k es
unfolding from_key
from_key-skip k [] es h = refl
from_key-skip k (e ∷ front) es h = rw (h.0) (from_key-skip k front es h.1)

Elem-append : (k : ℕ) (xs ys : List ℕ) → Elem k xs ⊎ Elem k ys → Elem k (xs ++ ys)
Elem-append k [] ys (inl e) = elim e [ ]
Elem-append k [] ys (inr e) = e
Elem-append k (x ∷ xs) ys (inl (inl e)) = inl e
Elem-append k (x ∷ xs) ys (inl (inr e)) = inr (Elem-append k xs ys (inl e))
Elem-append k (x ∷ xs) ys (inr e) = inr (Elem-append k xs ys (inr e))

All-append : (P : ℕ → Type 0) (xs ys : List ℕ) → All P xs → All P ys → All P (xs ++ ys)
All-append P [] ys hx hy = hy
All-append P (x ∷ xs) ys hx hy = (hx.0, All-append P xs ys hx.1 hy)

All-Elem : (P : ℕ → Type 0) (k : ℕ) (xs : List ℕ) → All P xs → Elem k xs → P k
All-Elem P k [] h e = elim e [ ]
All-Elem P k (x ∷ xs) h (inl e) = rw e h.0
All-Elem P k (x ∷ xs) h (inr e) = All-Elem P k xs h.1 e

-- Members below `n` in front do not change the least member from `n` on.
IsLeastGte-skip :
    (n : ℕ) (xs ys : List ℕ) (o : Option ℕ)
    → All (λ y. y < n) xs
    → IsLeastGte n ys o
    → IsLeastGte n (xs ++ ys) o
IsLeastGte-skip n xs ys none h l = All-append _ xs ys h l
IsLeastGte-skip n xs ys (some k) h l = (
  Elem-append k xs ys (inr l.0),
  l.1,
  All-append _ xs ys (All-weaken _ _ xs (λ x lt ge. absurd (omega arith)) h) l.2,
)

-- Nor do greater members behind one that is at least `n`.
IsLeastGte-front :
    (n u : ℕ) (xs ys : List ℕ) (o : Option ℕ)
    → Elem u xs
    → n ≤ u
    → All (λ y. u < y) ys
    → IsLeastGte n xs o
    → IsLeastGte n (xs ++ ys) o
IsLeastGte-front n u xs ys none e ge above l =
    let lt : u < n = All-Elem (λ y. y < n) u xs l e in absurd (omega arith)
IsLeastGte-front n u xs ys (some k) e ge above l =
    let le : n ≤ u → k ≤ u = All-Elem (λ y. n ≤ y → k ≤ y) u xs l.2 e in
    (
      Elem-append k xs ys (inl l.0),
      l.1,
      All-append _ xs ys l.2 (All-weaken _ _ ys (λ y gt _. omega (arith, le ge)) above),
    )

module _ ⦃r : RoaringCrate⦄ where
  pub record Shard : Type 0 where
    pub upper : BlockNumber
    pub blocks : r.Treemap

  abbrev pub all_blocks : List Shard → List BlockNumber
  all_blocks [] = []
  all_blocks (s ∷ shards) = r.members s.blocks ++ all_blocks shards

  -- A shard but the last stands under its greatest block, which the later shards lie above.
  abbrev pub AreShards : List Shard → Type 0
  AreShards [] = ⊥
  AreShards (s ∷ []) = s.upper ≡ last_shard
  AreShards (s ∷ t ∷ shards) =
      Elem s.upper (r.members s.blocks)
      × All (λ y. y ≤ s.upper) (r.members s.blocks)
      × (s.upper < last_shard)
      × All (λ y. s.upper < y) (all_blocks (t ∷ shards))
      × AreShards (t ∷ shards)

  -- The entry of a shard in the history of what `front` names.
  abbrev pub shard_entry : List ℕ → Shard → Entry
  shard_entry front s = (front ++ be_bytes 8 s.upper, r.serialize s.blocks)

  -- A history table holds these shards for `front`, between entries below and others.
  pub record HoldsShards (entries : List Entry) (front : List ℕ) (shards : List Shard)
      : Type 0 where
    pub before : List Entry
    pub behind : List Entry
    pub split : entries ≡ before ++ (map (shard_entry front) shards ++ behind)
    pub below :
        (n : BlockNumber) → IsU64 n → All (λ e. lex_ltb e.0 (front ++ be_bytes 8 n) ≡ true) before
    pub are_shards : AreShards shards

  -- The seek finds the shard whose least block from `n` on is that of the whole history.
  abbrev pub Found : List Entry → List ℕ → List Shard → BlockNumber → Type 0
  Found entries front shards n =
      (s : Shard) × (es : List Entry) × IsU64 s.upper
      × (from_key (front ++ be_bytes 8 n) entries ≡ shard_entry front s ∷ es)
      × ((o : Option ℕ) → IsLeastGte n (r.members s.blocks) o → IsLeastGte n (all_blocks shards) o)

  seek_shards :
      (front : List ℕ) (shards : List Shard) (behind : List Entry) (n : BlockNumber)
      → IsU64 n
      → AreShards shards
      → Found (map (shard_entry front) shards ++ behind) front shards n
  unfolding from_key
  seek_shards front [] behind n v h = absurd h
  seek_shards front (s ∷ []) behind n v h = (
    s,
    behind,
    omega (arith, h),
    rw (prefix_order front s.upper n (omega arith) v, ltb-eq-false s.upper n (omega arith)),
    λ o l. rw append-nil l,
  )
  seek_shards front (s ∷ t ∷ shards) behind n v h = elim (Bool-cases (ltb s.upper n)) [
    | inl lower ↦
        let (s', es, hu, found, least) = seek_shards front (t ∷ shards) behind n v h.4 in
        (
          s',
          es,
          hu,
          rw (prefix_order front s.upper n (omega (arith, h.2)) v, lower) found,
          λ o l.
              IsLeastGte-skip n (r.members s.blocks) _ o
                (All-weaken _ _ (r.members s.blocks) (λ y le. omega (arith, ltb→lt _ _ lower)) h.1)
                (least o l),
        )
    | inr upper ↦ (
      s,
      map (shard_entry front) (t ∷ shards) ++ behind,
      omega (arith, h.2),
      rw (prefix_order front s.upper n (omega (arith, h.2)) v, upper),
      λ o l. IsLeastGte-front n s.upper (r.members s.blocks) _ o h.0 (ground arith) h.3 l,
    )
  ]

  pub HoldsShards-Found :
      (entries : List Entry) (front : List ℕ) (shards : List Shard) (n : BlockNumber)
      → HoldsShards entries front shards
      → IsU64 n
      → Found entries front shards n
  HoldsShards-Found entries front shards n h v =
      let (s, es, hu, found, least) = seek_shards front shards h.behind n v h.are_shards in
      (
        s,
        es,
        hu,
        rw h.split (from_key-skip (front ++ be_bytes 8 n) h.before _ (h.below n v) ∙ found),
        least,
      )
