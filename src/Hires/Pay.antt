-- ===== src/Hires/Pay.antt =====
-- `pay_hire` and `get_hire_status` of app/routers/hires.py. The broadcaster is the parameter that
-- FastAPI injects; it acts on a world of its own.
use bnb_agent_marketplace.Base.{
  or_else, Text, text_eq, ℕ, ◌/◌, not, Option, some, ltb, if◌then◌else◌, length,
}
use bnb_agent_marketplace.Errors.{
  ◌>>=◌, ◌>>◌, forbidden, not_found, challenge_expired, already_paid, broadcast_failed,
  payment_gateway_unconfigured, unknown_rail, agent_offer_unavailable, value_error, Error, Result,
  ok, err, raise_if, or_raise, library_error,
}
use bnb_agent_marketplace.Exec.{Exec}
use bnb_agent_marketplace.Config.{Settings, x402_payments_configured, x402_rail_for}
use bnb_agent_marketplace.Payment.Types.{TokenConfig, DecodedPayment, Externals}
use bnb_agent_marketplace.Payment.Envelope.{decode_envelope}
use bnb_agent_marketplace.Payment.Verify.{verify_payment}
use bnb_agent_marketplace.Hires.Types.{
  HiredAgent, HiredStatus, paid, failed, is_pending, Store, find_hire, put_hire, truthy,
}
use bnb_agent_marketplace.Hires.Create.{expired, chain_of, rail_config, microseconds}

-- The request's headers `X-PAYMENT` and `PAYMENT-SIGNATURE`.
pub record Headers : Type 0 where
  pub x_payment : Option Text
  pub payment_signature : Option Text

-- What the checks of `pay_hire` hand to the broadcast.
pub record Approved : Type 0 where
  pub hire : HiredAgent
  pub decoded : DecodedPayment
  pub token_cfg : TokenConfig
  pub rpc_url : Text

pub record PayOut : Type 0 where
  pub id : ℕ
  pub status : HiredStatus
  pub tx_hash : Option Text

-- `except (IndexError, ValueError)` and `except UnknownRail`
unfoldable pub to_unavailable : Error → Error
to_unavailable value_error = agent_offer_unavailable
to_unavailable unknown_rail = agent_offer_unavailable
to_unavailable e = e

module _ (x : Externals) (settings : Settings) where
  -- Chain, token and RPC of the hire's recorded network: the body of the `try`.
  unfoldable pub look_up_rail : Text → Result (ℕ × TokenConfig × Text)
  look_up_rail network = do
    chain ← chain_of x.digit network
    config ← rail_config chain
    rail ← or_raise (x402_rail_for config.0) unknown_rail
    ok (config.0, config.1, rail.rpc_url)

  unfoldable pub settlement_rail : Text → Result (ℕ × TokenConfig × Text)
  settlement_rail network = elim (look_up_rail network) [
    | ok r ↦ ok r
    | err e ↦ err (to_unavailable e)
  ]

  -- The hire of a pending payment, owned by the caller.
  unfoldable pub payable_hire : ℕ → Text → Store → Result HiredAgent
  payable_hire hire_id user s = do
    hire ← or_raise (find_hire hire_id s.hires) not_found
    raise_if (not (text_eq hire.address user)) forbidden
    raise_if (not (is_pending hire.status)) already_paid
    ok hire

  -- All of `pay_hire` up to the broadcast.
  unfoldable pub approve : ℕ → Headers → Text → ℕ → Store → Result Approved
  approve hire_id headers user now s = do
    hire ← payable_hire hire_id user s
    raise_if (not (x402_payments_configured settings)) payment_gateway_unconfigured
    raise_if (expired hire now) challenge_expired
    amount ← or_raise hire.amount challenge_expired
    pay_to ← or_raise (truthy hire.pay_to) challenge_expired
    network ← or_raise (truthy hire.network_agent) agent_offer_unavailable
    rail ← settlement_rail network
    decoded ← decode_envelope x (or_else (truthy headers.x_payment) headers.payment_signature)
    verify_payment x decoded rail.0 rail.1 pay_to amount user (now / microseconds)
    ok (record { hire = hire; decoded = decoded; token_cfg = rail.1; rpc_url = rail.2 })

  module _ {W : Type 0}
      (broadcast : DecodedPayment → TokenConfig → Text → Text → ℕ → Exec W Text) where
    -- The `try` around the broadcast and the two commits; any other exception commits nothing.
    unfoldable pub finish : Approved → ℕ → Store → Result Text → Result PayOut × Store
    unfolding put_hire
    finish a now s (ok tx_hash) =
        let hire = record a.hire { status = paid; tx_hash = some tx_hash; updated_at = now } in
        -- The column is a `String(66)`.
        if ltb 66 (length tx_hash) then (err library_error, s) else (
          ok (record { id = hire.id; status = hire.status; tx_hash = hire.tx_hash }),
          record s { hires = put_hire hire s.hires },
        )
    finish a now s (err broadcast_failed) =
        let hire = record a.hire { status = failed; updated_at = now } in
        (err broadcast_failed, record s { hires = put_hire hire s.hires })
    finish a now s (err e) = (err e, s)

    unfoldable pub pay_hire : ℕ → Headers → Text → ℕ → Store → W → Result PayOut × Store × W
    pay_hire hire_id headers user now s w = elim (approve hire_id headers user now s) [
      | err e ↦ (err e, s, w)
      | ok a ↦
          let (r, w') =
            broadcast a.decoded a.token_cfg settings.x402_facilitator_key a.rpc_url now w in
          let (out, s') = finish a now s r in (out, s', w')
    ]

-- `get_hire_status`
unfoldable pub get_hire_status : ℕ → Text → Store → Result HiredAgent
get_hire_status hire_id user s = do
  hire ← or_raise (find_hire hire_id s.hires) not_found
  raise_if (not (text_eq hire.address user)) forbidden
  ok hire
