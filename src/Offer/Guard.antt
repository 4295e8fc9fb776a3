-- ===== src/Offer/Guard.antt =====
-- `_validate_probe_url` of app/services/x402_client.py: the guard against requests to the server's
-- own network.
use bnb_agent_marketplace.Errors.{library_error, value_error, Result, ok, err}
use bnb_agent_marketplace.Base.{
  ℕ, Bool, true, false, not, ◌||◌, Option, none, some, List, [], ◌∷◌, Text, codes, text_eq, strip,
  is_empty, ◌==◌, if◌then◌else◌,
}

-- A parsed URL; `port` is `none` where it is not given.
pub record Url : Type 0 where
  pub scheme : Text
  pub host : Text
  pub port : Option ℕ

-- The properties of `ipaddress.ip_address(s)` that `_BLOCKED_IP` reads.
pub record Address : Type 0 where
  pub is_private : Bool
  pub is_loopback : Bool
  pub is_link_local : Bool
  pub is_reserved : Bool
  pub is_multicast : Bool
  pub is_unspecified : Bool

-- How `httpx.URL` ends; `invalid` is `httpx.InvalidURL`, which is neither a `ValueError` nor an
-- `httpx.HTTPError`.
pub data Parsed : Type 0 where
  parsed : Url → Parsed
  refused invalid : Parsed

-- `httpx.URL`, `ipaddress.ip_address` (`none` for a `ValueError`) and `socket.getaddrinfo` (`none` for an `OSError`), which gives the addresses.
pub record Net : Type 0 where
  pub parse_url : Text → Parsed
  pub ip_address : Text → Option Address
  pub getaddrinfo : Text → ℕ → Option (List Text)

unfoldable pub blocked_ip : Address → Bool
blocked_ip a =
    a.is_private || a.is_loopback || a.is_link_local || a.is_reserved || a.is_multicast
    || a.is_unspecified

-- `addr_str.split("%", 1)[0]`
unfoldable pub strip_zone : Text → Text
strip_zone [] = []
strip_zone (c ∷ s) = if c == b'%' then [] else c ∷ strip_zone s

-- `u.port or 443`
unfoldable pub port_or_443 : Option ℕ → ℕ
port_or_443 none = 443
port_or_443 (some p) = if p == 0 then 443 else p

module _ (net : Net) where
  unfoldable pub blocked : Text → Bool
  blocked s = elim (net.ip_address (strip_zone s)) [ none ↦ true | some a ↦ blocked_ip a ]

  unfoldable pub any_blocked : List Text → Bool
  any_blocked [] = false
  any_blocked (s ∷ rest) = blocked s || any_blocked rest

  -- No addresses, or one that is blocked, is a `ValueError`.
  unfoldable pub check_infos : Url → List Text → Result Url
  check_infos u [] = err value_error
  check_infos u (s ∷ rest) = if any_blocked (s ∷ rest) then err value_error else ok u

  -- A host name: all of what it resolves to.
  unfoldable pub validate_host : Url → Result Url
  validate_host u = elim (net.getaddrinfo u.host (port_or_443 u.port)) [
    | none ↦ err value_error
    | some infos ↦ check_infos u infos
  ]

  unfoldable pub validate_parsed : Url → Result Url
  validate_parsed u =
      if not (text_eq u.scheme (codes "http") || text_eq u.scheme (codes "https"))
        || is_empty u.host
      then err value_error
      else (elim (net.ip_address u.host) [
        | some _ ↦ if blocked u.host then err value_error else ok u
        | none ↦ validate_host u
      ])

  unfoldable pub validate_probe_url : Text → Result Url
  validate_probe_url url =
      if is_empty (strip url) then err value_error else (elim (net.parse_url url) [
        | parsed u ↦ validate_parsed u
        | refused ↦ err value_error
        | invalid ↦ err library_error
      ])
