-- ===== src/Auth/Session.antt =====
-- Sessions and CSRF tokens.
use bnb_agent_marketplace.Errors.{Result-cases, ok, err, forbidden}
use bnb_agent_marketplace.Base.{
  Option-cases, Text, text_eq, codes, lower, lower_idem, lower_char, all_hex, is_hex, is_empty,
  strip_prefix, length, ℕ, ◌≡◌, refl, inl, inr, true, false, Option, some, [], ◌∷◌, ◌++◌, arith,
  if◌then◌else◌,
}
use bnb_agent_marketplace.Json.{Json, obj, str, field, end, get, get_value, as_str}
use bnb_agent_marketplace.Auth.{
  User, AuthStore, Wallet, user_address, normalised, verify_signature, issue_session, address_in,
  read_session, get_current_user, post_verify, csrf_for, verify_csrf, require_csrf, is_ascii,
}
use bnb_agent_marketplace.Auth.Signing.{verify_signature-IsSignedIn}
use bnb_agent_marketplace.Auth.Table.{find_by, find_by-merge_self}

length-lower : (s : Text) → length (lower s) ≡ length s
unfolding lower
length-lower [] = refl
length-lower (c ∷ s) = ground (arith, length-lower s)

is_hex-lower_char : (c : ℕ) → is_hex c ≡ true → is_hex (lower_char c) ≡ true
unfolding is_hex lower_char
is_hex-lower_char c h = ground arith

all_hex-lower : (s : Text) → all_hex s ≡ true → all_hex (lower s) ≡ true
unfolding all_hex lower
all_hex-lower [] h = refl
all_hex-lower (c ∷ s) h = ground (arith, all_hex-lower s, is_hex-lower_char c)

-- An address that normalisation returns has 42 characters and is its own normal form.
pub normalised-IsNormal :
    (a : Text) {n : Text} → normalised a ≡ ok n → (length n ≡ 42) × (normalised n ≡ ok n)
normalised-IsNormal a {n} h = elim (Option-cases (strip_prefix (codes "0x") a)) [
  | inl e ↦ absurd (unfold normalised in ground arith)
  | inr (body, e) ↦
      let form : n ≡ codes "0x" ++ lower body = unfold normalised in ground arith in
      let forty : length (lower body) ≡ 40 =
        unfold normalised in ground (arith, length-lower body) in
      let hex : all_hex (lower body) ≡ true =
        unfold normalised in ground (arith, all_hex-lower body) in
      rw form (
        omega (arith, forty),
        unfold normalised strip_prefix in ground (arith, forty, hex, lower_idem body),
      )
]

abbrev pub payload : User → Json
payload u = obj (field (codes "address") (str u.address) end)

-- The serializer reads what it has written, which is not the empty text.
module _ (w : Wallet) (signs : (u : User) → w.loads (w.dumps (payload u)) ≡ some (payload u))
    (nonempty : (u : User) → is_empty (w.dumps (payload u)) ≡ false) where
  read-payload :
      (u : User)
      → normalised u.address ≡ ok u.address
      → length u.address ≡ 42
      → address_in (payload u) ≡ ok (some u.address)
  unfolding address_in get get_value text_eq as_str
  read-payload u normal len = ground arith

  read-issued :
      (u : User)
      → normalised u.address ≡ ok u.address
      → length u.address ≡ 42
      → read_session w (some (issue_session w u)) ≡ ok (some u.address)
  unfolding read_session issue_session
  read-issued u normal len = ground (arith, read-payload u normal len, signs u, nonempty u)

  -- The cookie that a sign-in sets identifies the user that signed in, where the serializer reads what
  -- it wrote and writes no empty text.
  pub session_identifies :
      (address signature nonce : Text) (now : ℕ) (s : AuthStore) {user : User} {cookie : Text}
      → (post_verify w address signature nonce now s).0 ≡ ok (user, cookie)
      → get_current_user w (some cookie) (post_verify w address signature nonce now s).1 ≡ ok user
  session_identifies address signature nonce now s {user} {cookie} h =
      elim (Result-cases (verify_signature w address signature nonce now s).0) [
        | inr (_, e) ↦ absurd (unfold post_verify in ground arith)
        | inl (u, e) ↦
            let i = verify_signature-IsSignedIn w address signature nonce now s e in
            let c = i.checks in
            let normal = normalised-IsNormal address c.claimed in
            let same : u ≡ user = unfold post_verify in ground arith in
            let set : issue_session w u ≡ cookie = unfold post_verify in ground arith in
            let state : (post_verify w address signature nonce now s).1
                ≡ (verify_signature w address signature nonce now s).1 =
              unfold post_verify in ground arith in
            let mine : u.address ≡ c.addr = rw i.who c.key in
            let read = read-issued u (rw mine normal.1) (rw mine normal.0) in
            let there : find_by user_address u.address
                  (verify_signature w address signature nonce now s).1.users
                ≡ some u =
              rw i.seen (find_by-merge_self user_address u s.users refl) in
            rw (state, ← set, ← same) (unfold get_current_user in ground (arith, read, there))
      ]

not_empty : (t : Text) → is_empty t ≡ false → text_eq t [] ≡ false
unfolding text_eq
not_empty [] h = absurd (cc)
not_empty (_ ∷ _) h = refl

module _ (w : Wallet) where
  -- Where the session's own token is a non-empty ASCII text, an ASCII token passes exactly where it is the
  -- session's own, and is answered with `Forbidden` otherwise.
  pub require_csrf_exact :
      (cookie : Option Text) (token : Text)
      → is_ascii (csrf_for w cookie) ≡ true
      → is_empty (csrf_for w cookie) ≡ false
      → is_ascii token ≡ true
      → require_csrf w cookie (some token)
        ≡ (if text_eq (csrf_for w cookie) token then ok tt else err forbidden)
  unfolding require_csrf verify_csrf
  require_csrf_exact cookie [] ascii some_digest own = ground (arith, not_empty (csrf_for w cookie))
  require_csrf_exact cookie (c ∷ token) ascii some_digest own = ground arith
