-- ===== src/Hires/Types.antt =====
-- The rows that the hire routers read and write (app/db/models/hired_agent.py, the columns of
-- app/db/models/agent.py that they use), in one store. Times are in microseconds.
use bnb_agent_marketplace.Base.{
  ◌==◌, if◌then◌else◌, Text, text_eq, is_empty, ℕ, Bool, true, false, Option, none, some, List, [],
  ◌∷◌,
}

pub data HiredStatus : Type 0 where
  pending paid failed cancelled : HiredStatus

-- `status == HiredStatus.PENDING`
abbrev pub is_pending : HiredStatus → Bool
is_pending pending = true
is_pending _ = false

abbrev pub is_paid : HiredStatus → Bool
is_paid paid = true
is_paid _ = false

-- `amount` is in wei; `amount_agent` is a multiple of 10^18 in the database, and in wei here.
pub record HiredAgent : Type 0 where
  pub id : ℕ
  pub address : Text
  pub agent_id : Text
  pub status : HiredStatus
  pub tx_hash : Option Text
  pub amount : Option ℕ
  pub token : Option Text
  pub rail : Text
  pub pay_to : Option Text
  pub challenge_expiry : Option ℕ
  pub amount_agent : Option ℕ
  pub pay_to_agent : Option Text
  pub asset_agent : Option Text
  pub network_agent : Option Text
  pub job_id : Option ℕ
  pub chain_id : Option ℕ
  pub provider_address : Option Text
  pub budget_wei : Option ℕ
  pub updated_at : ℕ

pub record AgentRow : Type 0 where
  pub agent_id : Text
  pub agent_url : Option Text
  pub a2a_endpoint : Option Text
  pub agent_wallet : Option Text

-- `next_id` is the sequence behind the primary key; a key that a failed request used up counts as
-- unused.
pub record Store : Type 0 where
  pub agents : List AgentRow
  pub hires : List HiredAgent
  pub next_id : ℕ

-- `select(AgentCache).where(AgentCache.agent_id == agent_id)`
unfoldable pub find_agent : Text → List AgentRow → Option AgentRow
unfolding text_eq
find_agent k [] = none
find_agent k (a ∷ rest) = if text_eq a.agent_id k then some a else find_agent k rest

-- `db.get(HiredAgent, hire_id)`
unfoldable pub find_hire : ℕ → List HiredAgent → Option HiredAgent
find_hire k [] = none
find_hire k (h ∷ rest) = if h.id == k then some h else find_hire k rest

-- The row of `h.id` written back.
unfoldable pub put_hire : HiredAgent → List HiredAgent → List HiredAgent
put_hire h [] = []
put_hire h (x ∷ rest) = if x.id == h.id then h ∷ rest else x ∷ put_hire h rest

-- A truthy text: neither missing nor empty.
abbrev pub truthy : Option Text → Option Text
truthy none = none
truthy (some s) = if is_empty s then none else some s
