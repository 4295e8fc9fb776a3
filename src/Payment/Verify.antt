-- ===== src/Payment/Verify.antt =====
-- `_recover_signer` and `verify_payment` of app/services/payment.py.
pub mod Rules
use bnb_agent_marketplace.Base.{ℕ, not, ◌&&◌, none, some, Text, text_eq, lower, leb, ◌==◌}
use bnb_agent_marketplace.Errors.{
  Result, ok, err, wrong_chain, amount_mismatch, pay_to_mismatch, challenge_expired,
  signature_mismatch, value_error, ◌>>=◌, ◌>>◌, raise_if,
}
use bnb_agent_marketplace.Payment.Types.{
  TokenConfig, DecodedPayment, TypedData, Externals, signer, bad_input, uncaught, zero_address,
}

module _ (x : Externals) where
  abbrev typed_data : DecodedPayment → ℕ → TokenConfig → TypedData
  typed_data decoded chain_id token_cfg = record {
    name = token_cfg.name;
    version = token_cfg.version;
    chain_id = chain_id;
    verifying_contract = token_cfg.address;
    message = decoded.authorization;
  }

  -- Only the recovery stands in the `try`; the encoding does not.
  unfoldable pub recover_signer : DecodedPayment → ℕ → TokenConfig → Result Text
  recover_signer decoded chain_id token_cfg =
      elim (x.encode_typed_data (typed_data decoded chain_id token_cfg)) [
        | none ↦ err value_error
        | some message ↦ elim (x.recover_message message decoded.signature) [
          | signer s ↦ ok s
          | bad_input ↦ err signature_mismatch
          | uncaught ↦ err value_error
        ]
      ]

  unfoldable pub verify_payment :
      DecodedPayment → ℕ → TokenConfig → Text → ℕ → Text → ℕ → Result (Unit {0})
  verify_payment decoded chain_id token_cfg pay_to amount_wei payer now_ts = do
    raise_if (not (decoded.chain_id == chain_id)) wrong_chain
    raise_if
        (not (text_eq decoded.token zero_address)
          && not (text_eq (lower decoded.token) (lower token_cfg.address)))
        wrong_chain
    raise_if (not (decoded.amount == amount_wei)) amount_mismatch
    raise_if (not (text_eq (lower decoded.authorization.to) (lower pay_to))) pay_to_mismatch
    raise_if (leb decoded.authorization.valid_before now_ts) challenge_expired
    raise_if (leb now_ts decoded.authorization.valid_after) challenge_expired
    recovered ← recover_signer decoded chain_id token_cfg
    raise_if (not (text_eq (lower recovered) (lower payer))) signature_mismatch
