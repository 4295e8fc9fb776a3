-- ===== src/Rpc/Failover.antt =====
-- The failover of the client.
use bnb_agent_marketplace.Base.{
  arith, ℕ, ◌+◌, ◌≤◌, ◌<◌, ◌≡◌, false, Bool-cases, is_some, Text, refl, inl, inr, true, none, List,
  [], ◌∷◌, ◌⊎◌, Bool, some, Option-cases,
}
use bnb_agent_marketplace.Rpc.{
  chainstack, alchemy, result, rpc_error, other_data, failed, MultiRpcClient, provider_cooldown,
  state_of, set_state, is_provider_healthy, record_failure, Provider, cost, record_success,
  try_providers, RpcReply, Called, rpc_call,
}

-- After a third failure in a row a provider is not healthy for 60 seconds, and whatever fails, the
-- other provider's state is as before.
pub third_failure :
    (now : ℕ) (p : Provider) (c : MultiRpcClient) (later : ℕ)
    → 2 ≤ (state_of p c).consecutive_failures
    → later < now + provider_cooldown
    → is_provider_healthy later p (record_failure now p c) ≡ false
unfolding is_provider_healthy record_failure state_of set_state
third_failure now chainstack c later twice soon = ground (arith, twice, soon)
third_failure now alchemy c later twice soon = ground (arith, twice, soon)

abbrev pub total_usage : MultiRpcClient → ℕ
total_usage c = c.of_chainstack.usage + c.of_alchemy.usage

record_failure-usage :
    (now : ℕ) (p : Provider) (c : MultiRpcClient)
    → total_usage (record_failure now p c) ≡ total_usage c
unfolding record_failure state_of set_state
record_failure-usage now chainstack c = refl
record_failure-usage now alchemy c = refl

record_success-usage :
    (method : Text) (p : Provider) (c : MultiRpcClient)
    → total_usage (record_success method p c) ≡ total_usage c + cost p method
unfolding record_success state_of set_state
record_success-usage method chainstack c = omega arith
record_success-usage method alchemy c = omega arith

abbrev Counted : {R W : Type 0} → Called R W → Text → MultiRpcClient → Type 0
Counted {R} {W} called method c =
    (called.answer ≡ none → total_usage called.client ≡ total_usage c)
    × (is_some called.answer ≡ true
        → (p : Provider) × (total_usage called.client ≡ total_usage c + cost p method))

RpcReply-cases :
    {R : Type 0} (reply : RpcReply R)
    → ((r : R) × (reply ≡ result r))
      ⊎ ((reply ≡ rpc_error) ⊎ ((reply ≡ other_data) ⊎ (reply ≡ failed)))
RpcReply-cases (result r) = inl (r, refl)
RpcReply-cases rpc_error = inr (inl refl)
RpcReply-cases other_data = inr (inr (inl refl))
RpcReply-cases failed = inr (inr (inr refl))

Counted-failure :
    {R W : Type 0} (called : Called R W) (method : Text) (now : ℕ) (p : Provider)
    (c : MultiRpcClient)
    → Counted called method (record_failure now p c)
    → Counted called method c
Counted-failure called method now p c h = rw (record_failure-usage now p c) at h

module _ {R W : Type 0} (time : W → ℕ) (post : Provider → Text → W → RpcReply R × W) where
  try_providers-usage :
      (ps : List Provider) (method : Text) (c : MultiRpcClient) (w : W)
      → Counted (try_providers time post ps method c w) method c
  unfolding try_providers
  try_providers-usage [] method c w = (λ e. refl, λ e. absurd (cc))
  try_providers-usage (p ∷ ps) method c w = elim (Bool-cases (is_provider_healthy (time w) p c)) [
    | inl healthy ↦ elim (RpcReply-cases (post p method w).0) [
      | inl (r, e) ↦
          rw (try_providers, healthy, e)
            ((λ h. absurd (cc)), (λ h. (p, record_success-usage method p c)))
      | inr (inl e) ↦ rw (try_providers, healthy, e) ((λ h. refl), (λ h. absurd (cc)))
      | inr (inr (inl e)) ↦
          rw (try_providers, healthy, e) (try_providers-usage ps method c (post p method w).1)
      | inr (inr (inr e)) ↦
          rw (try_providers, healthy, e)
            (Counted-failure
              (try_providers time post ps method (record_failure (time (post p method w).1) p c)
                (post p method w).1)
              method (time (post p method w).1) p c
              (try_providers-usage ps method (record_failure (time (post p method w).1) p c)
                (post p method w).1))
    ]
    | inr cooling ↦ rw (try_providers, cooling) (try_providers-usage ps method c w)
  ]

abbrev Keys : (Provider → Bool) → MultiRpcClient → Type 0
Keys available c = (p : Provider) → (state_of p c).available ≡ available p

record_failure-Keys :
    (available : Provider → Bool) (now : ℕ) (p : Provider) (c : MultiRpcClient)
    → Keys available c
    → Keys available (record_failure now p c)
unfolding record_failure state_of set_state
record_failure-Keys available now chainstack c k chainstack = k chainstack
record_failure-Keys available now chainstack c k alchemy = k alchemy
record_failure-Keys available now alchemy c k chainstack = k chainstack
record_failure-Keys available now alchemy c k alchemy = k alchemy

record_success-Keys :
    (available : Provider → Bool) (method : Text) (p : Provider) (c : MultiRpcClient)
    → Keys available c
    → Keys available (record_success method p c)
unfolding record_success state_of set_state
record_success-Keys available method chainstack c k chainstack = k chainstack
record_success-Keys available method chainstack c k alchemy = k alchemy
record_success-Keys available method alchemy c k chainstack = k chainstack
record_success-Keys available method alchemy c k alchemy = k alchemy

healthy-available :
    (available : Provider → Bool) (now : ℕ) (p : Provider) (c : MultiRpcClient)
    → Keys available c
    → is_provider_healthy now p c ≡ true
    → available p ≡ true
unfolding is_provider_healthy
healthy-available available now p c k h = ground (arith, k p, h)

module _ {R W : Type 0} (time : W → ℕ) (post : Provider → Text → W → RpcReply R × W) where
  abbrev Kept {ℓ} : (W → Type ℓ) → (Provider → Bool) → Called R W → Type ℓ
  Kept P available called = P called.world × Keys available called.client

  try_providers-keeps {ℓ} :
      (P : W → Type ℓ) (available : Provider → Bool)
      → ((p : Provider) (method : Text) (v : W) → available p ≡ true → P v → P (post p method v).1)
      → (ps : List Provider) (method : Text) (c : MultiRpcClient) (w : W) → Keys available c
      → P w
      → Kept P available (try_providers time post ps method c w)
  unfolding try_providers
  try_providers-keeps P available keep [] method c w keys k = (k, keys)
  try_providers-keeps P available keep (p ∷ ps) method c w keys k =
      elim (Bool-cases (is_provider_healthy (time w) p c)) [
        | inr cooling ↦
            rw (try_providers, cooling) (try_providers-keeps P available keep ps method c w keys k)
        | inl healthy ↦
            let next = (post p method w).1 in
            let kept : P next =
              keep p method w (healthy-available available (time w) p c keys healthy) k in
            let c' = record_failure (time next) p c in
            elim (RpcReply-cases (post p method w).0) [
              | inl (r, e) ↦
                  rw (try_providers, healthy, e)
                    (kept, record_success-Keys available method p c keys)
              | inr (inl e) ↦ rw (try_providers, healthy, e) (kept, keys)
              | inr (inr (inl e)) ↦
                  rw (try_providers, healthy, e)
                    (try_providers-keeps P available keep ps method c next keys kept)
              | inr (inr (inr e)) ↦
                  rw (try_providers, healthy, e)
                    (try_providers-keeps P available keep ps method c' next
                      (record_failure-Keys available (time next) p c keys) kept)
            ]
      ]

  -- A call either has no answer and charges nobody, or has one and charges the usage of one provider
  -- its cost.
  pub rpc_call-usage :
      (method : Text) (c : MultiRpcClient) (w : W)
      → (((rpc_call time post method c w).answer ≡ none)
          × (total_usage (rpc_call time post method c w).client ≡ total_usage c))
        ⊎ ((p : Provider) × (is_some (rpc_call time post method c w).answer ≡ true)
            × (total_usage (rpc_call time post method c w).client ≡ total_usage c + cost p method))
  unfolding rpc_call
  rpc_call-usage method c w =
      let counted = try_providers-usage time post (c.primary ∷ c.fallback ∷ []) method c w in
      elim (Option-cases (rpc_call time post method c w).answer) [
        | inl e ↦ inl (e, counted.0 e)
        | inr (r, e) ↦
            let there : is_some (rpc_call time post method c w).answer ≡ true = rw e refl in
            inr ((counted.1 there).0, there, (counted.1 there).1)
      ]

  -- A client that was built without a provider's key never asks that provider: whatever requests to
  -- the providers with a key keep true of the world is true after any number of calls, which keep the
  -- providers' availability.
  pub calls-keep {ℓ} :
      (P : W → Type ℓ) (available : Provider → Bool)
      → ((p : Provider) (method : Text) (v : W) → available p ≡ true → P v → P (post p method v).1)
      → (method : Text) (c : MultiRpcClient) (w : W) → Keys available c
      → P w
      → P (rpc_call time post method c w).world
        × Keys available (rpc_call time post method c w).client
  unfolding rpc_call
  calls-keep P available keep method c w =
      try_providers-keeps P available keep (c.primary ∷ c.fallback ∷ []) method c w

  -- Where the primary fails and the fallback is healthy, a call gives the fallback's result, counts
  -- the primary's failure and charges the fallback.
  pub failover :
      (method : Text) (c : MultiRpcClient) (w : W) (r : R)
      → is_provider_healthy (time w) c.primary c ≡ true
      → (post c.primary method w).0 ≡ failed
      → is_provider_healthy
          (time (post c.primary method w).1)
          c.fallback
          (record_failure (time (post c.primary method w).1) c.primary c)
        ≡ true
      → (post c.fallback method (post c.primary method w).1).0 ≡ result r
      → rpc_call time post method c w ≡ record {
        answer = some r;
        client =
            record_success method c.fallback
              (record_failure (time (post c.primary method w).1) c.primary c);
        world = (post c.fallback method (post c.primary method w).1).1;
      }
  unfolding rpc_call try_providers
  failover method c w r healthy e second reply =
      rw (rpc_call, try_providers, healthy, e, second, reply) refl
