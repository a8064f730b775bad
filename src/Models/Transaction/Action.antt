-- ===== src/Models/Transaction/Action.antt =====
-- The recipient of a transaction: the 21 bytes of an address, or one byte for a new contract.
pub mod Laws
use erigon_db.Prelude.{
  ℕ, ◌+◌, Option, none, some, List, [], ◌∷◌, ◌++◌, ◌==◌, false, take, leb, length, if◌then◌else◌,
}
use erigon_db.Outcome.{
  DecodeError, input_too_short, unexpected_length, Outcome, ok, err, ◌>>=◌, or_panic, ok_or,
}
use erigon_db.Crates.{BufCrate, FixedHashCrate, RlpCrate, RlpItem, Address}
use erigon_db.Utils.{address_length, is_empty}

pub data TxAction : Type 0 where
  call : Address → TxAction
  create : TxAction

unfoldable pub to_option : TxAction → Option Address
to_option (call adr) = some adr
to_option create = none

unfoldable pub from_option : Option Address → TxAction
from_option (some adr) = call adr
from_option none = create

-- `buf.get(..n)`
abbrev pub get_to : ℕ → List ℕ → Option (List ℕ)
get_to n buf = if leb n (length buf) then some (take n buf) else none

module _ ⦃r : RlpCrate⦄ where
  unfoldable pub action_length : TxAction → ℕ
  action_length (call adr) = 1 + address_length
  action_length create = 1

  unfoldable pub encode_action : TxAction → List ℕ
  encode_action (call adr) =
      r.encode_header (record { list = false; payload_length = address_length }) ++ adr
  encode_action create = r.empty_string_code ∷ []

module _ ⦃r : RlpCrate⦄ ⦃b : BufCrate⦄ ⦃f : FixedHashCrate⦄ where
  -- The branch of the address code.
  unfoldable pub decode_call : List ℕ → Outcome DecodeError (TxAction × List ℕ)
  decode_call buf = do
    slice ← ok_or (get_to address_length buf) input_too_short
    buf' ← or_panic (b.advance address_length buf)
    adr ← or_panic (f.from_slice address_length slice)
    ok (call adr, buf')

  unfoldable pub decode_code : ℕ → List ℕ → Outcome DecodeError (TxAction × List ℕ)
  decode_code code buf =
      if code == r.empty_string_code
      then ok (create, buf)
      else if code == r.empty_string_code + address_length
      then decode_call buf
      else err unexpected_length

  unfoldable pub decode_action : List ℕ → Outcome DecodeError (TxAction × List ℕ)
  unfolding decode_code
  decode_action buf =
      if is_empty buf
      then err input_too_short
      else do (code, buf') ← or_panic (b.get_u8 buf); decode_code code buf'

  unfoldable pub action_item : RlpItem TxAction
  unfolding action_length encode_action decode_action
  action_item = record {
    encode = encode_action;
    rlp_length = action_length;
    decode = decode_action;
  }
