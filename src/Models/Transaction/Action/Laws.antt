-- ===== src/Models/Transaction/Action/Laws.antt =====
-- What the codec of `TxAction` does on every value and every input.
use erigon_db.Prelude.{
  ℕ, ◌≡◌, refl, ◌∙◌, none, some, Option, List, [], ◌∷◌, ◌++◌, length, take, drop, leb, ◌==◌, arith,
  take-append, drop-append, length-append, length-take, le→leb, leb→le, if◌then◌else◌, Bool-cases,
  inl, inr, true, sym, take-append-drop,
}
use erigon_db.Outcome.{DecodeError, input_too_short, unexpected_length, Outcome, ok, err}
use erigon_db.Crates.{BufCrate, FixedHashCrate, RlpCrate, IsRlp, Address, IsAddress}
use erigon_db.Models.Transaction.Action.{
  TxAction, call, create, to_option, from_option, encode_action, action_length, decode_call,
  decode_action, action_item,
}

-- `TxAction` and `Option<Address>` convert to each other without loss.
pub to_option-from_option :
    ((o : Option Address) → to_option (from_option o) ≡ o)
    × ((t : TxAction) → from_option (to_option t) ≡ t)
unfolding to_option from_option
to_option-from_option =
    (elim [ none ↦ refl | some a ↦ refl ], elim [ call a ↦ refl | create ↦ refl ])

-- What an input stands for: 0x80 is a creation, 0x94 a call of the address in the next 20 bytes.
abbrev pub action_of : List ℕ → Outcome DecodeError (TxAction × List ℕ)
action_of [] = err input_too_short
action_of (code ∷ bs) =
    if code == 0x80
    then ok (create, bs)
    else if code == 0x94
    then (if leb 20 (length bs) then ok (call (take 20 bs), drop 20 bs) else err input_too_short)
    else err unexpected_length

abbrev pub IsAction : TxAction → Type 0
IsAction (call a) = IsAddress a
IsAction create = Unit {0}

module _ ⦃r : RlpCrate⦄ ⦃b : BufCrate⦄ ⦃f : FixedHashCrate⦄ where
  decode_call-eq :
      (bs : List ℕ)
      → decode_call bs
        ≡ (if leb 20 (length bs) then ok (call (take 20 bs), drop 20 bs) else err input_too_short)
  unfolding decode_call
  decode_call-eq bs = elim (Bool-cases (leb 20 (length bs))) [
    | inl fits ↦ rw (
      fits,
      b.advance_within 20 bs (leb→le _ _ fits),
      f.from_slice_fits 20 (take 20 bs) (omega (arith, length-take {0} 20 bs, leb→le _ _ fits)),
    )
    | inr short ↦ rw short
  ]

  -- The decoder gives what the input stands for, on every input; in particular it does not panic.
  pub decode_action_lem : (buf : List ℕ) → decode_action buf ≡ action_of buf
  unfolding decode_action
  decode_action_lem [] = refl
  decode_action_lem (code ∷ bs) =
      rw (b.get_u8-cons code bs, r.empty_string_code_lem) (ground (arith, decode_call-eq bs))

  decode_encode :
      (t : TxAction) (rest : List ℕ)
      → IsAction t
      → action_of (encode_action t ++ rest) ≡ ok (t, rest)
  unfolding encode_action
  decode_encode create rest v = rw r.empty_string_code_lem
  decode_encode (call a) rest v = rw (
    r.encode_header_short 20 (omega arith),
    enough,
    take-append a rest 20 v,
    drop-append a rest 20 v,
  )
    where
      enough : leb 20 (length (a ++ rest)) ≡ true
      enough = le→leb _ _ (rw length-append (omega arith))

  -- A recipient decodes from its encoding, whatever follows, and `length` tells how long that is.
  pub action_item-IsRlp : IsRlp action_item IsAction
  unfolding action_item
  action_item-IsRlp = record {
    decode-encode =
        λ t rest v. decode_action_lem (encode_action t ++ rest) ∙ decode_encode t rest v;
    rlp_length_lem = lengths;
  }
    where
      lengths : (t : TxAction) → IsAction t → action_length t ≡ length (encode_action t)
      lengths create v = unfold encode_action in refl
      lengths (call a) v =
          rw (r.encode_header_short 20 (omega arith)) (unfold encode_action in omega arith)

  pub encode_create : encode_action create ≡ 0x80 ∷ []
  unfolding encode_action
  encode_create = rw r.empty_string_code_lem

  pub encode_call : (a : Address) → encode_action (call a) ≡ 0x94 ∷ a
  unfolding encode_action
  encode_call a = rw (r.encode_header_short 20 (omega arith))

  -- Only an encoding of a recipient decodes to it.
  pub decode_action-IsCanonical :
      (buf rest : List ℕ) (t : TxAction)
      → decode_action buf ≡ ok (t, rest)
      → buf ≡ encode_action t ++ rest
  decode_action-IsCanonical buf rest t e = canonical buf rest t (sym (decode_action_lem buf) ∙ e)
    where
      canonical :
          (bs rest : List ℕ) (t : TxAction)
          → action_of bs ≡ ok (t, rest)
          → bs ≡ encode_action t ++ rest
      canonical [] rest t e = cc
      canonical (code ∷ bs) rest create e = rw encode_create (ground arith)
      canonical (code ∷ bs) rest (call a) e =
          rw (encode_call a) (ground (arith, take-append-drop 20 bs))
