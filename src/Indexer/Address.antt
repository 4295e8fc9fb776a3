-- ===== src/Indexer/Address.antt =====
-- `_extract_addr`, `_canon_addr` and `_extract_token_id` of app/services/onchain_indexer.py.
use bnb_agent_marketplace.Base.{
  Text, codes, lower, strip, strip_prefix, length, drop, leb, ◌==◌, ℕ, ◌-◌, Bool, true, ◌&&◌, ◌||◌,
  Option, none, some, [], ◌∷◌, ◌++◌, if◌then◌else◌, parse_int,
}
use bnb_agent_marketplace.Base.Int.{pos, negsuc}
use bnb_agent_marketplace.Errors.{Result, ok, err, value_error}

-- `topic[-40:]`, behind `0x`. Topics come as texts from the JSON.
unfoldable pub extract_addr : Text → Text
extract_addr topic = codes "0x" ++ drop (length topic - 40) topic

-- `_HEX_CHARS`
unfoldable pub is_lower_hex : ℕ → Bool
is_lower_hex c = (leb b'0' c && leb c b'9') || (leb b'a' c && leb c b'f')

unfoldable pub all_lower_hex : Text → Bool
unfolding is_lower_hex
all_lower_hex [] = true
all_lower_hex (c ∷ s) = is_lower_hex c && all_lower_hex s

-- `s[2:]` where `s` starts with `0x`.
unfoldable pub without_prefix : Text → Text
unfolding strip_prefix
without_prefix s = elim (strip_prefix (codes "0x") s) [ none ↦ s | some body ↦ body ]

unfoldable pub canon_body : Text → Option Text
unfolding all_lower_hex
canon_body body =
    if length body == 40 && all_lower_hex body then some (codes "0x" ++ body) else none

unfoldable pub canon_addr : Option Text → Option Text
unfolding without_prefix canon_body strip lower
canon_addr none = none
canon_addr (some []) = none
canon_addr (some (c ∷ s)) = canon_body (without_prefix (lower (strip (c ∷ s))))

-- A JSON-RPC quantity, `int(text, 16)`. A negative one, which no node sends, is refused.
unfoldable pub quantity : (ℕ → Option ℕ) → Text → Result ℕ
unfolding parse_int
quantity digit s = elim (parse_int digit 16 s) [
  | none ↦ err value_error
  | some n ↦ elim n [ pos k ↦ ok k | negsuc _ ↦ err value_error ]
]
