-- ===== src/Payment/Broadcast/Target.antt =====
-- Which contract a settlement calls.
use bnb_agent_marketplace.Errors.{ok}
use bnb_agent_marketplace.Base.{Text, ℕ, ◌≡◌, refl, ◌≢◌, inl, some, text_eq_iff}
use bnb_agent_marketplace.Base.Int.{ℤ}
use bnb_agent_marketplace.Config.Rails.{zero_address-ne-token}
use bnb_agent_marketplace.Payment.Verify.{recover_signer}
use bnb_agent_marketplace.Config.{Rail, x402_rail_for}
use bnb_agent_marketplace.Payment.Types.{DecodedPayment, Externals, zero_address}
use bnb_agent_marketplace.Payment.Verify.Rules.{Terms, verify, verify-Meets, Meets-verify}
use bnb_agent_marketplace.Payment.Broadcast.{transaction}

-- The payment as it is decoded when the buyer leaves `accepted.asset` out.
abbrev pub without_asset : DecodedPayment → DecodedPayment
without_asset d = record d { transfer = record (d.transfer) { token = zero_address } }

-- If a payment is accepted, then so is the same payment without its asset, and the transaction that
-- settles that one goes to the zero address, where no rail has its token.
pub asset_left_out :
    (x : Externals) (d : DecodedPayment) (t : Terms)
    → verify x d t ≡ ok tt
    → (calldata : Text) (nonce price gas : ℤ) (chain_id : ℕ) {rail : Rail}
    → x402_rail_for chain_id ≡ some rail
    → (verify x (without_asset d) t ≡ ok tt)
      × ((transaction (without_asset d) calldata nonce price gas).to ≡ zero_address)
      × ((transaction (without_asset d) calldata nonce price gas).to ≢ rail.token_address)
unfolding transaction
asset_left_out x d t h calldata nonce price gas chain_id {rail} known =
    let m = verify-Meets x d t h in
    (
      Meets-verify x (without_asset d) t (record {
        chain = m.chain;
        token = inl refl;
        amount = m.amount;
        payee = m.payee;
        started = m.started;
        running = m.running;
        signature = (m.signature.0, unfold recover_signer in m.signature.1, m.signature.2);
      }),
      refl,
      λ e.
          cc (
            zero_address-ne-token chain_id known,
            (text_eq_iff zero_address rail.token_address).1 e,
          ),
    )
