-- ===== src/Payment/Types.antt =====
-- The value objects of app/services/payment.py, and what it takes from third-party packages.
use bnb_agent_marketplace.Base.{ℕ, Option, Text, codes}
use bnb_agent_marketplace.Json.{Json, Fields}

pub record TokenConfig : Type 0 where
  pub address : Text
  pub name : Text
  pub version : Text

-- The `authorization` dict, with its numbers parsed.
pub record Authorization : Type 0 where
  pub from : Text
  pub to : Text
  pub value : ℕ
  pub valid_after : ℕ
  pub valid_before : ℕ
  pub nonce : Text

-- `DecodedPayment` but for its field `fee`.
pub record Transfer : Type 0 where
  pub rail : Text
  pub payer : Text
  pub amount : ℕ
  pub token : Text
  pub chain_id : ℕ
  pub authorization : Authorization
  pub signature : Text
  pub raw : Fields

-- The fee of a fee is always `None`.
pub record DecodedPayment : Type 0 where
  pub transfer : Transfer
  pub open transfer use *
  pub fee : Option Transfer

abbrev pub eip3009_rail : Text
eip3009_rail = codes "eip3009"

abbrev pub max_timeout_seconds : ℕ
max_timeout_seconds = 480

abbrev pub default_timeout_seconds : ℕ
default_timeout_seconds = 300

abbrev pub zero_address : Text
zero_address = codes "0x0000000000000000000000000000000000000000"

-- The argument of `encode_typed_data`: the EIP-712 domain and the message.
pub record TypedData : Type 0 where
  pub name : Text
  pub version : Text
  pub chain_id : ℕ
  pub verifying_contract : Text
  pub message : Authorization

-- How base64, UTF-8 and JSON decoding of a header ends: with a value, with an error of the format,
-- with the plain `ValueError` for an integer of too many digits, or with a `RecursionError`.
pub data Loaded : Type 0 where
  value : Json → Loaded
  malformed too_long too_deep : Loaded

-- How `Account.recover_message` ends; `bad_input` is a `TypeError` or a `ValueError`.
pub data Recovered : Type 0 where
  signer : Text → Recovered
  bad_input uncaught : Recovered

-- What is not in the repository: Unicode's decimal digits (`\d`, `int`), the decoding of a header,
-- and eth-account. `encode_typed_data` gives `none` where it raises.
pub record Externals : Type 0 where
  pub digit : ℕ → Option ℕ
  pub load : Text → Loaded
  pub encode_typed_data : TypedData → Option Text
  pub recover_message : Text → Text → Recovered
