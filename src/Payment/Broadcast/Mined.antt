-- ===== src/Payment/Broadcast/Mined.antt =====
-- What a broadcast that returns a hash has seen.
use bnb_agent_marketplace.Errors.{Result-cases, ok}
use bnb_agent_marketplace.Base.{subst, Option-cases, Text, ℕ, zero, suc, ◌≡◌, inl, inr, some, arith}
use bnb_agent_marketplace.Json.{Json}
use bnb_agent_marketplace.Payment.Types.{DecodedPayment, TokenConfig}
use bnb_agent_marketplace.Payment.Broadcast.{
  Chain, get_transaction_receipt, rpc, send, calldata_of, receipt_status, wait_for_receipt, settle,
  broadcast,
}

module _ {W : Type 0} where
  -- A receipt of the transaction that says it succeeded, in some state of the node.
  abbrev pub IsMined : Chain W → Text → Text → Type 0
  IsMined chain url tx_hash =
      (w : W) × (receipt : Json) × ((rpc chain url (get_transaction_receipt tx_hash) w).0
        ≡ ok receipt)
      × (receipt_status chain receipt ≡ some (ok tt))

  module _ (chain : Chain W) (url tx_hash : Text) where
    wait-IsMined :
        (attempts : ℕ) (w : W)
        → (wait_for_receipt chain attempts url tx_hash w).0 ≡ ok tt
        → IsMined chain url tx_hash
    unfolding wait_for_receipt
    wait-IsMined zero w h = absurd (cc)
    wait-IsMined (suc attempts) w h =
        elim (Result-cases (rpc chain url (get_transaction_receipt tx_hash) w).0) [
          | inr (_, e) ↦ absurd (ground arith)
          | inl (receipt, e) ↦ elim (Option-cases (receipt_status chain receipt)) [
            | inl e' ↦
                wait-IsMined attempts (rpc chain url (get_transaction_receipt tx_hash) w).1
                  (ground arith)
            | inr (r, e') ↦ (w, receipt, e, ground arith)
          ]
        ]

  module _ (chain : Chain W) (attempts : ℕ) (decoded : DecodedPayment) (key url : Text)
      {tx_hash : Text} where
    settle-IsMined :
        (address calldata : Text) (w : W)
        → (settle chain attempts decoded key address calldata url w).0 ≡ ok tx_hash
        → IsMined chain url tx_hash
    settle-IsMined address calldata w h =
        elim (Result-cases (send chain decoded key address calldata url w).0) [
          | inr (_, e) ↦ absurd (unfold settle in ground arith)
          | inl (hash, e) ↦
              let w' = (send chain decoded key address calldata url w).1 in
              elim (Result-cases (wait_for_receipt chain attempts url hash w').0) [
                | inr (_, e') ↦ absurd (unfold settle in ground arith)
                | inl (_, e') ↦
                    let same : hash ≡ tx_hash = unfold settle in ground arith in
                    subst (λ t. IsMined chain url t) same
                      (wait-IsMined chain url hash attempts w' e')
              ]
        ]

    -- A broadcast that returns a hash has had a receipt for that hash from the node which says that the
    -- transaction succeeded.
    pub broadcast-IsMined :
        (token_cfg : TokenConfig) (now : ℕ) (w : W)
        → (broadcast chain attempts decoded token_cfg key url now w).0 ≡ ok tx_hash
        → IsMined chain url tx_hash
    broadcast-IsMined token_cfg now w h = elim (Option-cases (chain.account_address key)) [
      | inl e ↦ absurd (unfold broadcast in ground arith)
      | inr (address, e) ↦
          elim (Option-cases (calldata_of chain decoded.authorization decoded.signature)) [
            | inl e' ↦ absurd (unfold broadcast in ground arith)
            | inr (calldata, e') ↦
                settle-IsMined address calldata w (unfold broadcast in ground arith)
          ]
    ]
