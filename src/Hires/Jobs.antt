-- ===== src/Hires/Jobs.antt =====
-- The calldata builders of app/services/altana_jobs.py. The encoder and the hash are eth-abi's and
-- eth-utils', so they are parameters.
use bnb_agent_marketplace.Base.{
  Text, codes, ℕ, ◌+◌, Option, List, [], ◌∷◌, ◌++◌, Bool, false, not, parse_int, leb, ◌==◌,
  is_empty,
}
use bnb_agent_marketplace.Base.Int.{ℤ, pos, negsuc}
use bnb_agent_marketplace.Errors.{◌>>=◌, ◌>>◌, value_error, Result, ok, raise_if, or_raise}
use bnb_agent_marketplace.Payment.Validators.{is_address}

pub data Argument : Type 0 where
  address_arg : Text → Argument
  uint256_arg : ℕ → Argument
  string_arg : Text → Argument
  bytes_arg : Text → Argument

-- `keccak(text=…)[:4].hex()`, `eth_abi.encode(…).hex()`, and Unicode's digits for `int`.
pub record Abi : Type 0 where
  pub selector : Text → Text
  pub encode : List Argument → Result Text
  pub digit : ℕ → Option ℕ

abbrev is_zero : ℤ → Bool
is_zero (pos n) = n == 0
is_zero (negsuc _) = false

module _ (abi : Abi) where
  -- `_check_address`
  unfoldable pub check_address : Text → Result (Unit {0})
  check_address value = do
    raise_if (not (is_address value)) value_error
    n ← or_raise (parse_int abi.digit 16 value) value_error
    raise_if (is_zero n) value_error

  -- A call: the selector of a signature, then the encoded arguments.
  abbrev call : Text → List Argument → Result Text
  call signature args = do
    encoded ← abi.encode args
    ok (codes "0x" ++ (abi.selector signature ++ encoded))

  unfoldable pub build_create_job_calldata : Text → Text → ℕ → Text → Text → ℕ → Result Text
  unfolding check_address
  build_create_job_calldata provider evaluator expired_at description hook now = do
    check_address provider
    check_address evaluator
    check_address hook
    raise_if (leb expired_at (now + 300)) value_error
    raise_if (is_empty description) value_error
    call (codes "createJob(address,address,uint256,string,address)") (
        address_arg provider
        ∷ address_arg evaluator
        ∷ uint256_arg expired_at
        ∷ string_arg description
        ∷ address_arg hook
        ∷ [])

  unfoldable pub build_fund_calldata : ℕ → ℕ → Result Text
  build_fund_calldata job_id expected_budget = do
    raise_if (job_id == 0) value_error
    raise_if (expected_budget == 0) value_error
    call (codes "fund(uint256,uint256,bytes)")
        (uint256_arg job_id ∷ uint256_arg expected_budget ∷ bytes_arg [] ∷ [])

  unfoldable pub build_approve_calldata : Text → ℕ → Result Text
  unfolding check_address
  build_approve_calldata spender amount = do
    check_address spender
    raise_if (amount == 0) value_error
    call (codes "approve(address,uint256)") (address_arg spender ∷ uint256_arg amount ∷ [])
