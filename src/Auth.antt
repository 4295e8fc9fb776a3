-- ===== src/Auth.antt =====
-- app/services/auth.py and the handlers of app/routers/auth.py: the nonce of a sign-in, the session
-- cookie, and the CSRF token. Times are in microseconds; the hash, the cookie signer and the recovery of a signer are parameters.
pub mod Table
pub mod Signing
pub mod Session
use bnb_agent_marketplace.Base.{
  Text, text_eq, codes, lower, ℕ, ◌+◌, ◌*◌, length, take, ltb, leb, ◌==◌, is_empty, all_hex,
  strip_prefix, Bool, true, false, not, ◌&&◌, Option, none, some, List, [], ◌∷◌, ◌++◌,
  if◌then◌else◌,
}
use bnb_agent_marketplace.Errors.{
  ◌>>=◌, ◌>>◌, validation_error, auth_required, forbidden, type_error, library_error, Result, ok,
  err, raise_if, or_raise,
}
use bnb_agent_marketplace.Json.{Json, obj, str, field, end, as_str, get_value}
use bnb_agent_marketplace.Payment.Types.{Recovered, signer, bad_input, uncaught}
use Table.{find_by, merge_by}

-- The rows of app/db/models/auth_nonce.py and user.py.
pub record AuthNonce : Type 0 where
  pub address : Text
  pub nonce : Text
  pub used : Bool
  pub expires_at : ℕ

pub record User : Type 0 where
  pub address : Text
  pub last_seen_at : ℕ

pub record AuthStore : Type 0 where
  pub nonces : List AuthNonce
  pub users : List User

-- What is not in the repository: `Account.recover_message` of a personal message, the cookie
-- serializer with its secret (`none` is `BadSignature`), and the hex digest of the keyed hash.
pub record Wallet : Type 0 where
  pub recover_text : Text → Text → Recovered
  pub dumps : Json → Text
  pub loads : Text → Option Json
  pub hexdigest : Text → Text

abbrev pub nonce_ttl_seconds : ℕ
nonce_ttl_seconds = 600

abbrev pub csrf_token_hex_len : ℕ
csrf_token_hex_len = 32

abbrev pub sign_in_message_prefix : Text
sign_in_message_prefix = codes "Sign in to bnb_agent: "

abbrev pub nonce_address : AuthNonce → Text
nonce_address n = n.address

abbrev pub user_address : User → Text
user_address u = u.address

-- `_validate_address` of a text.
unfoldable pub normalised : Text → Result Text
normalised address = elim (strip_prefix (codes "0x") address) [
  | none ↦ err validation_error
  | some body ↦
      if length body == 40 && all_hex body
      then ok (codes "0x" ++ lower body)
      else err validation_error
]

unfoldable pub message_of : Text → Text
message_of nonce = sign_in_message_prefix ++ nonce

-- `issue_nonce`; `nonce` is the text that `secrets.token_hex` drew.
unfoldable pub issue_nonce : Text → Text → ℕ → AuthStore → Result (Text × Text) × AuthStore
unfolding message_of
issue_nonce address nonce now s = elim (normalised address) [
  | err e ↦ (err e, s)
  | ok addr ↦
      let row : AuthNonce = record {
        address = addr;
        nonce = nonce;
        used = false;
        expires_at = now + nonce_ttl_seconds * 1000000;
      } in
      (ok (nonce, message_of nonce), record s { nonces = merge_by nonce_address row s.nonces })
]

-- The row with both the address and the nonce.
unfoldable pub find_nonce : Text → Text → List AuthNonce → Option AuthNonce
find_nonce addr nonce l = elim (find_by nonce_address addr l) [
  | none ↦ none
  | some row ↦ if text_eq row.nonce nonce then some row else none
]

-- What a cookie that is signed says.
unfoldable pub address_in : Json → Result (Option Text)
address_in (obj d) = elim (as_str (get_value (codes "address") d)) [
  | none ↦ ok none
  | some a ↦ if length a == 42 then (do n ← normalised a; ok (some n)) else ok none
]
address_in _ = ok none

abbrev pub is_ascii : Text → Bool
is_ascii [] = true
is_ascii (c ∷ s) = ltb c 128 && is_ascii s

module _ (w : Wallet) where
  unfoldable pub recovered_address : Text → Text → Result Text
  recovered_address nonce signature = elim (w.recover_text (message_of nonce) signature) [
    | signer a ↦ ok (lower a)
    | bad_input ↦ err auth_required
    | uncaught ↦ err library_error
  ]

  -- All of `verify_signature` up to its writes.
  unfoldable pub usable_nonce : Text → Text → Text → ℕ → AuthStore → Result AuthNonce
  usable_nonce address signature nonce now s = do
    addr ← normalised address
    raise_if (is_empty signature) validation_error
    raise_if (is_empty nonce) validation_error
    recovered ← recovered_address nonce signature
    raise_if (not (text_eq recovered addr)) auth_required
    row ← or_raise (find_nonce addr nonce s.nonces) auth_required
    raise_if row.used auth_required
    raise_if (leb row.expires_at now) auth_required
    ok row

  unfoldable pub verify_signature : Text → Text → Text → ℕ → AuthStore → Result User × AuthStore
  verify_signature address signature nonce now s =
      elim (usable_nonce address signature nonce now s) [
        | err e ↦ (err e, s)
        | ok row ↦
            let user : User = record { address = row.address; last_seen_at = now } in
            (
              ok user,
              record s {
                nonces = merge_by nonce_address (record row { used = true }) s.nonces;
                users = merge_by user_address user s.users;
              },
            )
      ]

  unfoldable pub issue_session : User → Text
  issue_session user = w.dumps (obj (field (codes "address") (str user.address) end))

  unfoldable pub read_session : Option Text → Result (Option Text)
  read_session none = ok none
  read_session (some raw) =
      if is_empty raw
      then ok none
      else elim (w.loads raw) [ none ↦ ok none | some data_read ↦ address_in data_read ]

  unfoldable pub get_current_user : Option Text → AuthStore → Result User
  get_current_user cookie s = do
    read ← read_session cookie
    address ← or_raise read auth_required
    or_raise (find_by user_address address s.users) auth_required

  -- `post_verify`: the user and the cookie that is set.
  unfoldable pub post_verify : Text → Text → Text → ℕ → AuthStore → Result (User × Text) × AuthStore
  post_verify address signature nonce now s =
      let (r, s') = verify_signature address signature nonce now s in
      elim r [ err e ↦ (err e, s') | ok user ↦ (ok (user, issue_session user), s') ]

  unfoldable pub csrf_for : Option Text → Text
  csrf_for none = take csrf_token_hex_len (w.hexdigest [])
  csrf_for (some c) = take csrf_token_hex_len (w.hexdigest c)

  -- `hmac.compare_digest` takes only ASCII texts.
  unfoldable pub verify_csrf : Option Text → Option Text → Result Bool
  verify_csrf cookie none = ok false
  verify_csrf cookie (some token) =
      if is_empty token
      then ok false
      else if is_ascii token && is_ascii (csrf_for cookie)
      then ok (text_eq (csrf_for cookie) token)
      else err type_error

  unfoldable pub require_csrf : Option Text → Option Text → Result (Unit {0})
  require_csrf cookie token = do same ← verify_csrf cookie token; raise_if (not same) forbidden
