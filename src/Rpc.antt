-- ===== src/Rpc.antt =====
-- app/services/rpc_client.py: requests to the nodes of two providers, with failover. Times are in
-- microseconds. What a request's parameters are plays no part.
pub mod Failover
use bnb_agent_marketplace.Base.{
  ℕ, ltb, leb, if◌then◌else◌, Text, codes, text_eq, is_empty, ◌+◌, ◌*◌, Bool, true, false, not,
  Option, none, some, List, [], ◌∷◌,
}

pub data Provider : Type 0 where
  chainstack alchemy : Provider

-- What the client keeps of one provider.
pub record ProviderState : Type 0 where
  pub usage : ℕ
  pub available : Bool
  pub consecutive_failures : ℕ
  pub cooldown_until : ℕ

pub record MultiRpcClient : Type 0 where
  pub of_chainstack : ProviderState
  pub of_alchemy : ProviderState
  pub primary : Provider
  pub fallback : Provider

-- `PROVIDER_COOLDOWN`, in microseconds.
abbrev pub provider_cooldown : ℕ
provider_cooldown = 60 * 1000000

abbrev pub failures_before_cooldown : ℕ
failures_before_cooldown = 3

unfoldable pub state_of : Provider → MultiRpcClient → ProviderState
state_of chainstack c = c.of_chainstack
state_of alchemy c = c.of_alchemy

unfoldable pub set_state : Provider → ProviderState → MultiRpcClient → MultiRpcClient
set_state chainstack s c = record c { of_chainstack = s }
set_state alchemy s c = record c { of_alchemy = s }

abbrev pub fresh_state : Bool → ProviderState
fresh_state available = record {
  usage = 0;
  available = available;
  consecutive_failures = 0;
  cooldown_until = 0;
}

-- `MultiRPCClient(chainstack_key, alchemy_key)`
unfoldable pub new_client : Text → Text → MultiRpcClient
new_client chainstack_key alchemy_key = record {
  of_chainstack = fresh_state (not (is_empty chainstack_key));
  of_alchemy = fresh_state (not (is_empty alchemy_key));
  primary = if is_empty chainstack_key then alchemy else chainstack;
  fallback = if is_empty chainstack_key then chainstack else alchemy;
}

-- `ALCHEMY_CU`
abbrev pub alchemy_cu : List (Text × ℕ)
alchemy_cu =
    (codes "eth_blockNumber", 10)
    ∷ (codes "eth_getBlockByNumber", 16)
    ∷ (codes "eth_getLogs", 75)
    ∷ (codes "eth_call", 26)
    ∷ (codes "eth_getBalance", 16)
    ∷ []

unfoldable pub cost_in : Text → List (Text × ℕ) → ℕ
unfolding text_eq
cost_in method [] = 10
cost_in method ((name, cu) ∷ costs) = if text_eq name method then cu else cost_in method costs

unfoldable pub estimate_cu : Text → ℕ
unfolding cost_in
estimate_cu method = cost_in method alchemy_cu

-- What a request adds to the usage.
unfoldable pub cost : Provider → Text → ℕ
unfolding estimate_cu
cost chainstack method = 1
cost alchemy method = estimate_cu method

-- `_is_provider_healthy`, at the time `now`.
unfoldable pub is_provider_healthy : ℕ → Provider → MultiRpcClient → Bool
unfolding state_of
is_provider_healthy now p c =
    let s = state_of p c in if s.available then not (ltb now s.cooldown_until) else false

unfoldable pub record_failure : ℕ → Provider → MultiRpcClient → MultiRpcClient
unfolding state_of set_state
record_failure now p c =
    let s = state_of p c in
    let n = s.consecutive_failures + 1 in
    set_state p
      (record s {
        consecutive_failures = n;
        cooldown_until =
            if leb failures_before_cooldown n then now + provider_cooldown else s.cooldown_until;
      })
      c

-- `_record_success` and the usage of the request.
unfoldable pub record_success : Text → Provider → MultiRpcClient → MultiRpcClient
unfolding state_of set_state cost
record_success method p c =
    let s = state_of p c in
    set_state p (record s { consecutive_failures = 0; usage = s.usage + cost p method }) c

-- What a request gives: data with a `result`, data with an `error`, other data, or an exception (of
-- the status, the connection, the decoding, or an `error` that is no object).
pub data RpcReply (R : Type 0) : Type 0 where
  result : R → RpcReply R
  rpc_error other_data failed : RpcReply R

-- The answer of a call, with the client and the world after it.
pub record Called (R W : Type 0) : Type 0 where
  pub answer : Option R
  pub client : MultiRpcClient
  pub world : W

module _ {R W : Type 0} (time : W → ℕ) (post : Provider → Text → W → RpcReply R × W) where
  -- `for provider in providers_to_try`
  unfoldable pub try_providers : List Provider → Text → MultiRpcClient → W → Called R W
  unfolding is_provider_healthy record_failure record_success
  try_providers [] method c w = record { answer = none; client = c; world = w }
  try_providers (p ∷ rest) method c w =
      let reply = post p method w in
      elim (is_provider_healthy (time w) p c) [
        | false ↦ try_providers rest method c w
        | true ↦ elim reply.0 [
          | result answer ↦ record {
            answer = some answer;
            client = record_success method p c;
            world = reply.1;
          }
          | rpc_error ↦ record { answer = none; client = c; world = reply.1 }
          | other_data ↦ try_providers rest method c reply.1
          | failed ↦ try_providers rest method (record_failure (time reply.1) p c) reply.1
        ]
      ]

  -- The primary, then the fallback; they differ in every client that is built.
  unfoldable pub rpc_call : Text → MultiRpcClient → W → Called R W
  unfolding try_providers
  rpc_call method c = try_providers (c.primary ∷ c.fallback ∷ []) method c
