-- ===== src/Hires/Escrow.antt =====
-- The three handlers of app/routers/escrow_hires.py, with the constraints of their schemas
-- (app/schemas/escrow.py). Numbers are natural: a negative one fails like zero.
use bnb_agent_marketplace.Base.{
  Text, text_eq, codes, lower, ℕ, ◌+◌, ◌/◌, length, ltb, ◌==◌, is_empty, parse_int, Bool, true,
  false, not, ◌||◌, Option, none, some, [], ◌∷◌, ◌++◌, leb, ◌^◌,
}
use bnb_agent_marketplace.Base.Int.{ℤ, pos}
use bnb_agent_marketplace.Errors.{
  ◌>>=◌, ◌>>◌, forbidden, not_found, conflict, already_paid, validation_error, upstream_unavailable,
  agent_offer_unavailable, value_error, Result, ok, err, raise_if, or_raise, library_error,
}
use bnb_agent_marketplace.Config.{Settings}
use bnb_agent_marketplace.Hires.Types.{
  HiredAgent, HiredStatus, pending, paid, is_pending, is_paid, AgentRow, Store, find_agent,
  find_hire, put_hire, truthy,
}
use bnb_agent_marketplace.Hires.Create.{microseconds}
use bnb_agent_marketplace.Hires.Jobs.{
  Abi, build_create_job_calldata, build_fund_calldata, build_approve_calldata,
}

abbrev pub erc8183_rail : Text
erc8183_rail = codes "erc8183"

-- `HireEscrowCreate`, `HireEscrowSubmit`.
pub record HireEscrowCreate : Type 0 where
  pub agent_id : Text
  pub task : Text
  pub budget_wei : ℕ

pub record HireEscrowSubmit : Type 0 where
  pub job_id : ℕ
  pub tx_hash : Text

pub record HireEscrowCall : Type 0 where
  pub to : Text
  pub data_hex : Text

pub record HireEscrowCreateOut : Type 0 where
  pub hire : HiredAgent
  pub approve : HireEscrowCall
  pub create_job : HireEscrowCall
  pub fund : HireEscrowCall
  pub job_expiry_unix : ℕ

unfoldable pub create_fields : HireEscrowCreate → Result (Unit {0})
create_fields p =
    raise_if (is_empty p.task || ltb 4096 (length p.task) || p.budget_wei == 0) validation_error

unfoldable pub submit_fields : HireEscrowSubmit → Result (Unit {0})
submit_fields p = raise_if (p.job_id == 0 || not (length p.tx_hash == 66)) validation_error

-- `_load_owned_hire`: addresses are compared in lower case.
unfoldable pub load_owned_hire : ℕ → Text → Store → Result HiredAgent
load_owned_hire hire_id user s = do
  hire ← or_raise (find_hire hire_id s.hires) not_found
  raise_if (not (text_eq (lower hire.address) (lower user))) forbidden
  ok hire

abbrev is_nonzero : ℤ → Bool
is_nonzero (pos n) = not (n == 0)
is_nonzero _ = true

-- `hire.job_id is not None and hire.job_id != payload.job_id`
abbrev pub other_job : Option ℕ → ℕ → Bool
other_job none j = false
other_job (some k) j = not (k == j)

-- `hire.status in (PENDING, PAID)`
abbrev pub is_open : HiredStatus → Bool
is_open st = is_pending st || is_paid st

unfoldable pub escrow_row : Settings → ℕ → Text → Text → HireEscrowCreate → ℕ → HiredAgent
escrow_row settings id address provider p now = record {
  id = id;
  address = address;
  agent_id = p.agent_id;
  status = pending;
  tx_hash = none;
  amount = none;
  token = none;
  rail = erc8183_rail;
  pay_to = none;
  challenge_expiry = none;
  amount_agent = none;
  pay_to_agent = none;
  asset_agent = none;
  network_agent = none;
  job_id = none;
  chain_id = some settings.erc8183_chain_id;
  provider_address = some provider;
  budget_wei = some p.budget_wei;
  updated_at = now;
}

module _ (abi : Abi) (settings : Settings) where
  -- The wallet of an agent that can act as the provider.
  unfoldable pub provider_of : AgentRow → Result Text
  provider_of agent = do
    wallet ← or_raise (truthy agent.agent_wallet) agent_offer_unavailable
    n ← or_raise (parse_int abi.digit 16 wallet) value_error
    raise_if (not (is_nonzero n)) agent_offer_unavailable
    ok wallet

  -- The calls to sign; `later` is the clock that the builder reads.
  unfoldable pub escrow_calls : Text → HireEscrowCreate → ℕ → ℕ → Result (Text × Text × Text)
  escrow_calls provider p expired_at later = do
    let router = settings.erc8183_router_address
    create_job_data ← build_create_job_calldata abi provider router expired_at p.task router later
    approve_data ← build_approve_calldata abi settings.erc8183_commerce_address p.budget_wei
    fund_data ← build_fund_calldata abi 1 p.budget_wei
    ok (approve_data, create_job_data, fund_data)

  -- The body of the handler up to the commit; what it raises leaves no row.
  unfoldable pub escrow_of : HireEscrowCreate → ℕ → ℕ → Store → Result (Text × Text × Text × Text)
  escrow_of p now later s = do
    create_fields p
    raise_if (not settings.erc8183_enabled) upstream_unavailable
    agent ← or_raise (find_agent p.agent_id s.agents) not_found
    provider ← provider_of agent
    -- The flush: `budget_wei` is a `Numeric(38, 0)`.
    raise_if (leb (10 ^ 38) p.budget_wei) library_error
    calls ←
        escrow_calls provider p (now / microseconds + settings.erc8183_job_expiry_seconds)
          (later / microseconds)
    ok (provider, calls.0, calls.1, calls.2)

  unfoldable pub create_escrow_hire :
      HireEscrowCreate → Text → ℕ → ℕ → Store → Result HireEscrowCreateOut × Store
  create_escrow_hire p user now later s = elim (escrow_of p now later s) [
    | err e ↦ (err e, s)
    | ok (provider, approve_data, create_job_data, fund_data) ↦
        let row = escrow_row settings s.next_id user provider p now in
        let out : HireEscrowCreateOut = record {
          hire = row;
          approve = record { to = settings.erc8183_u_token_address; data_hex = approve_data };
          create_job = record {
            to = settings.erc8183_commerce_address;
            data_hex = create_job_data;
          };
          fund = record { to = settings.erc8183_commerce_address; data_hex = fund_data };
          job_expiry_unix = now / microseconds + settings.erc8183_job_expiry_seconds;
        } in
        (ok out, record s { hires = s.hires ++ row ∷ []; next_id = s.next_id + 1 })
  ]

  -- The checks of `submit_escrow_hire`, with that of the database.
  unfoldable pub submittable : ℕ → HireEscrowSubmit → Text → Store → Result HiredAgent
  submittable hire_id p user s = do
    submit_fields p
    raise_if (not settings.erc8183_enabled) upstream_unavailable
    hire ← load_owned_hire hire_id user s
    raise_if (not (text_eq hire.rail erc8183_rail)) conflict
    raise_if (not (is_open hire.status)) already_paid
    raise_if (other_job hire.job_id p.job_id) conflict
    -- What the commit refuses: `job_id` is a `BigInteger`.
    raise_if (leb (2 ^ 63) p.job_id) library_error
    ok hire

  unfoldable pub submit_escrow_hire :
      ℕ → HireEscrowSubmit → Text → ℕ → Store → Result HiredAgent × Store
  submit_escrow_hire hire_id p user now s = elim (submittable hire_id p user s) [
    | err e ↦ (err e, s)
    | ok h ↦
        let hire = record h {
          job_id = some p.job_id;
          tx_hash = some p.tx_hash;
          status = paid;
          updated_at = now;
        } in
        (ok hire, record s { hires = put_hire hire s.hires })
  ]

unfoldable pub get_escrow_hire : ℕ → Text → Store → Result HiredAgent
unfolding load_owned_hire
get_escrow_hire hire_id user s = load_owned_hire hire_id user s
