-- ===== src/Models/Senders/RoundTrip.antt =====
-- Sender lists round trip, and decode exactly from multiples of 20 bytes.
use erigon_db.Prelude.{
  ℕ, zero, suc, ◌+◌, ◌-◌, ◌*◌, ◌/◌, ◌%◌, ◌≤◌, ◌≡◌, ◌≢◌, refl, sym, ap, ◌∙◌, List, [], ◌∷◌, ◌++◌,
  length, take, drop, All, arith, append-nil, append_assoc, length-append, take-append, drop-append,
  le→leb, leb, true, length-take, length-drop,
}
use erigon_db.Outcome.{message, ok, err}
use erigon_db.Crates.{FixedHashCrate, Address, IsAddress}
use erigon_db.Kv.Traits.{RoundTrip}
use erigon_db.Kv.Values.{address_type}
use erigon_db.Kv.Values.RoundTrip.{address_decodes}
use erigon_db.Models.Senders.{slice_range, encode_from, decode_from, decode_senders, senders_object}

abbrev concat : List Address → List ℕ
concat [] = []
concat (a ∷ addrs) = a ++ concat addrs

length-concat :
    (addrs : List Address) → All IsAddress addrs → length (concat addrs) ≡ length addrs * 20
length-concat [] h = refl
length-concat (a ∷ addrs) h =
    length-append a (concat addrs) ∙ omega (arith, length-concat addrs h.1, h.0)

slice_middle :
    (front mid back : List ℕ) (lo : ℕ)
    → length front ≡ lo
    → length mid ≡ 20
    → slice_range lo (lo + 20) (front ++ (mid ++ back)) ≡ ok mid
unfolding slice_range
slice_middle front mid back lo hf hm =
    rw (enough, drop-append front (mid ++ back) lo hf, width) (ap ok (take-append mid back 20 hm))
  where
    enough : leb (lo + 20) (length (front ++ (mid ++ back))) ≡ true
    enough = le→leb _ _ (rw (length-append, length-append) (omega arith))

    width : lo + 20 - lo ≡ 20
    width = omega arith

module _ ⦃f : FixedHashCrate⦄ where
  encode_from-concat :
      (v : List ℕ) (addrs : List Address) → encode_from v addrs ≡ ok (v ++ concat addrs)
  unfolding encode_from address_type
  encode_from-concat v [] = ap ok (sym (append-nil v))
  encode_from-concat v (a ∷ addrs) =
      encode_from-concat (v ++ a) addrs ∙ ap ok (append_assoc v a (concat addrs))

  decode_from-concat :
      (addrs : List Address) (front : List ℕ) (i : ℕ) (v : List Address)
      → All IsAddress addrs
      → length front ≡ i * 20
      → decode_from (length addrs) i (front ++ concat addrs) v ≡ ok (v ++ addrs)
  unfolding decode_from
  decode_from-concat [] front i v h e = ap ok (sym (append-nil v))
  decode_from-concat (a ∷ addrs) front i v h e =
      rw (slice_middle front a (concat addrs) (i * 20) e h.0, address_decodes a h.0)
        (rw (← append_assoc front a (concat addrs)) (
          decode_from-concat addrs (front ++ a) (i + 1) (v ++ a ∷ []) h.1 grown
          ∙ ap ok (append_assoc v (a ∷ []) addrs)))
    where
      grown : length (front ++ a) ≡ (i + 1) * 20
      grown = length-append front a ∙ omega (arith, h.0)

  -- A list of senders is encoded in 20 bytes for each, and decodes to itself.
  pub senders_round_trip :
      (addrs : List Address)
      → All IsAddress addrs
      → RoundTrip senders_object addrs (λ n. n ≡ length addrs * 20)
  unfolding senders_object
  senders_round_trip addrs h =
      (concat addrs, encode_from-concat [] addrs, decoded, length-concat addrs h)
    where
      rounds : length (concat addrs) / 20 ≡ length addrs
      rounds = omega (arith, length-concat addrs h)

      divides : length (concat addrs) % 20 ≡ 0
      divides = omega (arith, length-concat addrs h)

      decoded : decode_senders (concat addrs) ≡ ok addrs
      decoded = rw (divides, rounds) (decode_from-concat addrs [] 0 [] h refl)

  -- Other lengths are refused.
  pub decode_senders_uneven :
      (b : List ℕ)
      → length b % 20 ≢ 0
      → decode_senders b ≡ err (message "Slice len should be divisible by 20")
  unfolding decode_senders
  decode_senders_uneven b h = ground arith

  slice_within :
      (lo : ℕ) (b : List ℕ)
      → lo + 20 ≤ length b
      → (s : List ℕ) × (slice_range lo (lo + 20) b ≡ ok s) × IsAddress s
  unfolding slice_range
  slice_within lo b h = (
    take (lo + 20 - lo) (drop lo b),
    rw (le→leb _ _ h),
    omega (arith, length-take {0} (lo + 20 - lo) (drop lo b), length-drop {0} lo b),
  )

  decode_from_total :
      (rounds i : ℕ) (b : List ℕ) (v : List Address)
      → (i + rounds) * 20 ≤ length b
      → (out : List Address) × (decode_from rounds i b v ≡ ok out)
        × (length out ≡ length v + rounds)
  unfolding decode_from
  decode_from_total zero i b v h = (v, refl, omega arith)
  decode_from_total (suc rounds) i b v h =
      let (s, e, l) = slice_within (i * 20) b (omega arith) in
      let (out, e', l') = decode_from_total rounds (i + 1) b (v ++ s ∷ []) (omega arith) in
      (out, rw (e, address_decodes s l) e', omega (arith, l', length-append v (s ∷ [])))

  -- Bytes whose length is a multiple of 20 decode to one address for each 20 of them, with no panic.
  pub decode_senders_total :
      (b : List ℕ)
      → length b % 20 ≡ 0
      → (out : List Address) × (decode_senders b ≡ ok out) × (length out ≡ length b / 20)
  unfolding decode_senders
  decode_senders_total b h =
      let (out, e, l) = decode_from_total (length b / 20) 0 b [] (omega arith) in
      (out, rw h e, omega (arith, l))
