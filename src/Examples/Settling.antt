-- ===== src/Examples/Settling.antt =====
-- A settlement of the small world's payment on a node that mines at once.
use bnb_agent_marketplace.Errors.{ok}
use bnb_agent_marketplace.Base.{codes, ◌≡◌, refl, some, none, text_eq}
use bnb_agent_marketplace.Base.Int.{pos}
use bnb_agent_marketplace.Json.{Json, str, int, obj, field, end}
use bnb_agent_marketplace.Payment.Types.{DecodedPayment, eip3009_rail}
use bnb_agent_marketplace.Payment.Broadcast.{
  Chain, Request, body, get_transaction_receipt, broadcast, poll_attempts, calldata_of, settle,
  send, wait_for_receipt,
}
use bnb_agent_marketplace.Payment.Broadcast.Mined.{IsMined, broadcast-IsMined}
use bnb_agent_marketplace.Examples.World.{
  alice, ascii_digit, authorization, settings, signature, testnet_token, testnet_rail,
}

abbrev result_of : Request → Json
result_of (get_transaction_receipt _) = obj (field (codes "status") (int (pos 1)) end)
result_of _ = str (codes "0x1")

abbrev chain : Chain (Unit {0})
chain = record {
  digit = ascii_digit;
  account_address = λ _. some alice;
  abi_encode_transfer = λ _ _ _. some (codes "0x2");
  sign_transaction = λ _ _. some (codes "0x3");
  request = λ _ r w. (body (obj (field (codes "result") (result_of r) end)), w);
}

abbrev payment : DecodedPayment
payment = record {
  transfer = record {
    rail = eip3009_rail;
    payer = alice;
    amount = 7;
    token = testnet_token.address;
    chain_id = 97;
    authorization = authorization;
    signature = signature;
    raw = end;
  };
  fee = none;
}

broadcast_runs :
    (broadcast chain poll_attempts payment testnet_token settings.x402_facilitator_key
      testnet_rail.rpc_url 0 tt).0
    ≡ ok (codes "0x1")
unfolding broadcast calldata_of settle send text_eq wait_for_receipt
broadcast_runs = refl

broadcast-IsMined_example : IsMined chain testnet_rail.rpc_url (codes "0x1")
broadcast-IsMined_example =
    broadcast-IsMined chain poll_attempts payment settings.x402_facilitator_key testnet_rail.rpc_url
      testnet_token 0 tt broadcast_runs
