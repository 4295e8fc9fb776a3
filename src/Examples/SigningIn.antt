-- ===== src/Examples/SigningIn.antt =====
-- A sign-in of the small world: a nonce is issued, used, and refused afterwards.
use bnb_agent_marketplace.Auth.Table.{find_by}
use bnb_agent_marketplace.Errors.{Error, ok, err}
use bnb_agent_marketplace.Base.{
  Text, codes, lower, ◌≡◌, ◌≢◌, refl, some, none, false, Option, [], ◌∷◌, arith, text_eq,
  strip_prefix, all_hex,
}
use bnb_agent_marketplace.Json.{Json, obj, str, field, end}
use bnb_agent_marketplace.Payment.Types.{signer}
use bnb_agent_marketplace.Auth.{
  User, AuthStore, Wallet, normalised, message_of, issue_nonce, verify_signature, post_verify,
  get_current_user, issue_session, csrf_for, usable_nonce, recovered_address, find_nonce,
}
use bnb_agent_marketplace.Auth.Signing.{
  IsSignedIn, verify_signature-IsSignedIn, nonce_single_use, issued_nonce_accepted,
}
use bnb_agent_marketplace.Auth.Session.{session_identifies}
use bnb_agent_marketplace.Examples.World.{alice}

abbrev alice_lower : Text
alice_lower = codes "0xaaaaaaaaaaaaaaaaaaaaaaaaaaaaaaaaaaaaaaaa"

abbrev alice_user : User
alice_user = record { address = alice_lower; last_seen_at = 20 }

abbrev no_users : AuthStore
no_users = record { nonces = []; users = [] }

-- A serializer that marks its texts with one character: what is not a user's cookie is not read.
abbrev quote : Json → Text
quote (obj (field _ (str a) end)) = 33 ∷ a
quote _ = 33 ∷ []

abbrev unquote : Text → Option Json
unquote [] = none
unquote (_ ∷ a) = some (obj (field (codes "address") (str a) end))

abbrev wallet : Wallet
wallet = record {
  recover_text = λ _ _. signer alice;
  dumps = quote;
  loads = unquote;
  hexdigest = λ c. codes "0a";
}

abbrev issued : AuthStore
issued = record {
  nonces =
      record { address = alice_lower; nonce = codes "n"; used = false; expires_at = 600000010 }
      ∷ [];
  users = [];
}

lower-alice : lower alice ≡ alice_lower
unfolding lower
lower-alice = refl

alice_runs : normalised alice ≡ ok alice_lower
unfolding normalised strip_prefix all_hex lower verify_signature usable_nonce recovered_address
    text_eq find_nonce find_by issue_nonce
alice_runs = refl

sign_in_runs : (verify_signature wallet alice (codes "s") (codes "n") 20 issued).0 ≡ ok alice_user
unfolding verify_signature usable_nonce normalised strip_prefix all_hex recovered_address text_eq
    lower find_nonce find_by issue_nonce
sign_in_runs = refl

verify_signature-IsSignedIn_example :
    IsSignedIn wallet alice (codes "s") (codes "n") 20 issued alice_user
verify_signature-IsSignedIn_example =
    verify_signature-IsSignedIn wallet alice (codes "s") (codes "n") 20 issued sign_in_runs

abbrev signed_in : AuthStore
signed_in = (verify_signature wallet alice (codes "s") (codes "n") 20 issued).1

nonce_single_use_example :
    (e : Error) × (verify_signature wallet alice (codes "t") (codes "n") 30 signed_in
      ≡ (err e, signed_in))
nonce_single_use_example =
    nonce_single_use wallet alice (codes "s") (codes "n") 20 issued sign_in_runs alice (codes "t")
      30 refl

issue_runs : (issue_nonce alice (codes "m") 15 issued).0 ≡ ok (codes "m", message_of (codes "m"))
unfolding issue_nonce normalised strip_prefix all_hex
issue_runs = refl

abbrev reissued : AuthStore
reissued = (issue_nonce alice (codes "m") 15 issued).1

other_nonce : codes "m" ≢ codes "n"
other_nonce e = absurd (ground arith)

issued_nonce_accepted_example :
    ((issue_nonce alice (codes "n") 10 no_users).0 ≡ ok (codes "n", message_of (codes "n")))
    × ((verify_signature wallet alice
          (codes "s")
          (codes "n")
          20
          (issue_nonce alice (codes "n") 10 no_users).1).0
        ≡ ok alice_user)
issued_nonce_accepted_example =
    issued_nonce_accepted wallet alice (codes "n") 10 no_users alice_runs refl (codes "s") alice 20
      refl refl lower-alice (omega arith)

post_runs :
    (post_verify wallet alice (codes "s") (codes "n") 20 issued).0
    ≡ ok (alice_user, issue_session wallet alice_user)
unfolding post_verify
post_runs = ground (arith, sign_in_runs)

session_identifies_example :
    get_current_user wallet
      (some (issue_session wallet alice_user))
      (post_verify wallet alice (codes "s") (codes "n") 20 issued).1
    ≡ ok alice_user
session_identifies_example =
    session_identifies wallet (λ u. refl) (λ u. refl) alice (codes "s") (codes "n") 20 issued
      post_runs

csrf_runs : csrf_for wallet (some (codes "c")) ≡ codes "0a"
unfolding csrf_for
csrf_runs = refl
