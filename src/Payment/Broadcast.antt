-- ===== src/Payment/Broadcast.antt =====
-- The broadcasters of app/services/payment.py. The chain is reached through JSON-RPC: a request's
-- reply may depend on all that was sent before, so the node is a state that each request changes.
pub mod Target
pub mod Mined
use bnb_agent_marketplace.Base.{
  ℕ, zero, suc, Bool, false, Option, none, some, List, [], ◌∷◌, ◌++◌, Text, codes, drop,
  chop_newline, fromhex, parse_int, strip_prefix, is_empty, ◌==◌, if◌then◌else◌,
}
use bnb_agent_marketplace.Base.Int.{ℤ, pos}
use bnb_agent_marketplace.Errors.{
  Error, Result, ok, err, broadcast_failed, type_error, value_error, overflow_error,
  attribute_error, or_raise,
}
use bnb_agent_marketplace.Exec.{Exec, lift, pure, catch, ◌>>=◌, ◌>>◌}
use bnb_agent_marketplace.Json.{Json, null, int, float, nan, infinite, bool, str, obj, get, has}
use bnb_agent_marketplace.Payment.Types.{Authorization, DecodedPayment, TokenConfig}

-- The parts of a transaction that `account.sign_transaction` is given.
pub record Transaction : Type 0 where
  pub to : Text
  pub value : ℕ
  pub calldata : Text
  pub nonce : ℤ
  pub gas_price : ℤ
  pub gas : ℤ
  pub chain_id : ℕ

pub data Request : Type 0 where
  get_transaction_count : Text → Request
  gas_price : Request
  estimate_gas : Text → Text → Text → Request
  send_raw_transaction : Text → Request
  get_transaction_receipt : Text → Request

-- A transport, status or decoding failure, or the JSON body of the response.
pub data Reply : Type 0 where
  unreachable : Reply
  body : Json → Reply

-- eth-account, eth-abi and the node behind the RPC URL. `none` stands for an exception.
pub record Chain (W : Type 0) : Type 0 where
  pub digit : ℕ → Option ℕ
  pub account_address : Text → Option Text
  pub abi_encode_transfer : Authorization → List ℕ → List ℕ → Option Text
  pub sign_transaction : Text → Transaction → Option Text
  pub request : Text → Request → W → Reply × W

-- `"error" in body`, and the exception for a body that is no object: `body.get` in the message.
unfoldable pub rpc_result : Reply → Result Json
unfolding has get
rpc_result unreachable = err broadcast_failed
rpc_result (body (obj fields)) =
    if has (codes "error") fields
    then err broadcast_failed
    else ok (elim (get (codes "result") fields) [ none ↦ null | some v ↦ v ])
rpc_result (body _) = err attribute_error

-- `_to_int`; a value that `int` refuses raises a `TypeError`, a `ValueError` or, for an infinite
-- float, an `OverflowError`.
unfoldable pub to_int : (ℕ → Option ℕ) → Json → Result ℤ
unfolding parse_int strip_prefix
to_int digit (int n) = ok n
to_int digit (bool b) = ok (pos (if b then 1 else 0))
to_int digit (float n _) = ok n
to_int digit nan = err value_error
to_int digit infinite = err overflow_error
to_int digit (str s) = elim (strip_prefix (codes "0x") s) [
  | some _ ↦ or_raise (parse_int digit 16 s) value_error
  | none ↦ or_raise (parse_int digit 10 s) value_error
]
to_int digit _ = err type_error

-- The handlers around the RPC calls of `broadcast`.
unfoldable pub as_broadcast_failed : Error → Error
as_broadcast_failed value_error = broadcast_failed
as_broadcast_failed type_error = broadcast_failed
as_broadcast_failed e = e

-- `bytes.fromhex(text[2:])`, on a text that the decoder has validated.
unfoldable pub bytes_of : Text → Option (List ℕ)
unfolding chop_newline fromhex
bytes_of s = fromhex (drop 2 (chop_newline s))

abbrev is_one : ℤ → Bool
is_one (pos n) = n == 1
is_one _ = false

-- `_to_int(status) != 1` is a reverted transaction.
unfoldable pub check_status : Result ℤ → Result (Unit {0})
check_status (ok n) = if is_one n then ok tt else err broadcast_failed
check_status (err e) = err e

-- The arguments of `sign_transaction`.
unfoldable pub transaction : DecodedPayment → Text → ℤ → ℤ → ℤ → Transaction
transaction decoded calldata nonce price gas = record {
  to = decoded.token;
  value = 0;
  calldata = calldata;
  nonce = nonce;
  gas_price = price;
  gas = gas;
  chain_id = decoded.chain_id;
}

-- `isinstance(tx_hash, str) and tx_hash.startswith("0x")`
unfoldable pub tx_hash_of : Json → Result Text
unfolding strip_prefix
tx_hash_of (str s) = elim (strip_prefix (codes "0x") s) [
  | none ↦ err broadcast_failed
  | some _ ↦ ok s
]
tx_hash_of _ = err broadcast_failed

module _ {W : Type 0} (chain : Chain W) where
  unfoldable pub rpc : Text → Request → Exec W Json
  unfolding rpc_result
  rpc url r w = let (reply, w') = chain.request url r w in (rpc_result reply, w')

  -- What a receipt says: `none` while there is none.
  unfoldable pub receipt_status : Json → Option (Result (Unit {0}))
  unfolding to_int get check_status
  receipt_status null = none
  receipt_status (obj fields) =
      let status : Json = elim (get (codes "status") fields) [ none ↦ int (pos 0) | some v ↦ v ] in
      some (check_status (to_int chain.digit status))
  receipt_status _ = some (err attribute_error)

  -- `_wait_for_receipt`, on the attempts left; the pause between two polls is not modelled.
  unfoldable pub wait_for_receipt : ℕ → Text → Text → Exec W (Unit {0})
  unfolding rpc receipt_status
  wait_for_receipt zero url tx_hash = lift (err broadcast_failed)
  wait_for_receipt (suc attempts) url tx_hash = do
    receipt ← rpc url (get_transaction_receipt tx_hash)
    elim (receipt_status receipt) [ none ↦ wait_for_receipt attempts url tx_hash | some r ↦ lift r ]

  -- `_transfer_with_authorization_calldata`
  unfoldable pub calldata_of : Authorization → Text → Option Text
  unfolding bytes_of
  calldata_of auth signature = elim (bytes_of auth.nonce) [
    | none ↦ none
    | some nonce ↦ elim (bytes_of signature) [
      | none ↦ none
      | some sig ↦ chain.abi_encode_transfer auth nonce sig
    ]
  ]

  -- The body of the `try` in `OnchainBroadcaster.broadcast` up to the hash of the transaction.
  unfoldable pub send : DecodedPayment → Text → Text → Text → Text → Exec W Text
  unfolding rpc to_int tx_hash_of transaction
  send decoded key address calldata url = do
    nonce ← rpc url (get_transaction_count address)
    price ← rpc url gas_price
    gas ← rpc url (estimate_gas address decoded.token calldata)
    nonce' ← lift (to_int chain.digit nonce)
    price' ← lift (to_int chain.digit price)
    gas' ← lift (to_int chain.digit gas)
    raw ← lift (
        or_raise (chain.sign_transaction key (transaction decoded calldata nonce' price' gas'))
          value_error)
    sent ← rpc url (send_raw_transaction raw)
    lift (tx_hash_of sent)

  -- All of that `try`.
  unfoldable pub settle : ℕ → DecodedPayment → Text → Text → Text → Text → Exec W Text
  settle attempts decoded key address calldata url = do
    tx_hash ← send decoded key address calldata url
    wait_for_receipt attempts url tx_hash
    pure tx_hash

  -- `OnchainBroadcaster.broadcast`: the key and the calldata are made before the `try`. Neither
  -- the token configuration nor the time is read.
  unfoldable pub broadcast : ℕ → DecodedPayment → TokenConfig → Text → Text → ℕ → Exec W Text
  broadcast attempts decoded token_cfg facilitator_key rpc_url now =
      if is_empty facilitator_key then lift (err broadcast_failed) else do
        address ← lift (or_raise (chain.account_address facilitator_key) value_error)
        calldata ← lift (or_raise (calldata_of decoded.authorization decoded.signature) value_error)
        catch as_broadcast_failed (settle attempts decoded facilitator_key address calldata rpc_url)

-- `OnchainBroadcaster.__init__`: `poll_attempts`
abbrev pub poll_attempts : ℕ
poll_attempts = 30

-- One recorded call of `FakeBroadcaster`.
pub record Call : Type 0 where
  pub decoded : DecodedPayment
  pub token_cfg : TokenConfig
  pub facilitator_key : Text
  pub rpc_url : Text
  pub now : ℕ

-- `FakeBroadcaster.broadcast`: it records the call and answers with its canned hash.
unfoldable pub fake_broadcast :
    Text → DecodedPayment → TokenConfig → Text → Text → ℕ → Exec (List Call) Text
fake_broadcast tx_hash decoded token_cfg facilitator_key rpc_url now calls = (
  ok tx_hash,
  calls
      ++ record {
        decoded = decoded;
        token_cfg = token_cfg;
        facilitator_key = facilitator_key;
        rpc_url = rpc_url;
        now = now;
      }
        ∷ [],
)
