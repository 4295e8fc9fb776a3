-- ===== src/Examples/Opening.antt =====
-- An escrow hire of the small world's agent is opened.
use bnb_agent_marketplace.Payment.Validators.{is_address}
use bnb_agent_marketplace.Hires.Jobs.{
  build_create_job_calldata, build_approve_calldata, build_fund_calldata,
}
use bnb_agent_marketplace.Hires.Types.{find_agent}
use bnb_agent_marketplace.Errors.{ok}
use bnb_agent_marketplace.Base.{codes, ◌≡◌, refl, parse_int, strip_prefix, chop_newline, all_hex}
use bnb_agent_marketplace.Hires.Escrow.{
  HireEscrowCreate, HireEscrowCreateOut, create_escrow_hire, escrow_row, escrow_of, create_fields,
  provider_of, escrow_calls,
}
use bnb_agent_marketplace.Hires.Opening.{IsOpened, create_escrow_hire-IsOpened}
use bnb_agent_marketplace.Examples.World.{alice, bob, router, settings, store, abi}

abbrev order : HireEscrowCreate
order = record { agent_id = codes "97:1"; task = codes "t"; budget_wei = 7 }

abbrev answer : HireEscrowCreateOut
answer = record {
  hire = escrow_row settings 3 alice bob order 50000000;
  approve = record { to = settings.erc8183_u_token_address; data_hex = codes "0x0000000001" };
  create_job = record { to = router; data_hex = codes "0x0000000001" };
  fund = record { to = router; data_hex = codes "0x0000000001" };
  job_expiry_unix = 3650;
}

open_runs : (create_escrow_hire abi settings order alice 50000000 50000001 store).0 ≡ ok answer
unfolding create_escrow_hire escrow_of create_fields find_agent provider_of parse_int escrow_calls
    build_create_job_calldata is_address strip_prefix chop_newline all_hex build_approve_calldata
    build_fund_calldata
open_runs = refl

create_escrow_hire-IsOpened_example :
    IsOpened abi settings order alice 50000000 50000001 store answer
create_escrow_hire-IsOpened_example =
    create_escrow_hire-IsOpened abi settings order alice 50000000 50000001 store open_runs
