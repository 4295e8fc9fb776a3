-- ===== src/Auth/Signing.antt =====
-- The life of a nonce, from its issue to its use.
use bnb_agent_marketplace.Errors.{Result-cases, ok, err, Error}
use bnb_agent_marketplace.Base.{
  Option-cases, Text, text_eq_iff, text_eq_refl, lower, is_empty, ℕ, ◌<◌, ◌+◌, ◌*◌, ◌≡◌, ◌≢◌, refl,
  inl, inr, true, false, some, arith, ◌⊎◌,
}
use bnb_agent_marketplace.Payment.Types.{signer, bad_input, uncaught}
use bnb_agent_marketplace.Auth.{
  AuthNonce, User, AuthStore, Wallet, nonce_ttl_seconds, nonce_address, user_address, normalised,
  message_of, issue_nonce, find_nonce, recovered_address, usable_nonce, verify_signature,
}
use bnb_agent_marketplace.Auth.Table.{find_by, merge_by, find_by-key, find_by-merge_self}

found_nonce :
    (addr nonce : Text) (s : AuthStore) {row : AuthNonce}
    → find_nonce addr nonce s.nonces ≡ some row
    → (find_by nonce_address addr s.nonces ≡ some row) × (row.nonce ≡ nonce) × (row.address ≡ addr)
unfolding find_nonce
found_nonce addr nonce s {row} h = elim (Option-cases (find_by nonce_address addr s.nonces)) [
  | inl e ↦ absurd (ground arith)
  | inr (found, e) ↦
      let same : found ≡ row = ground arith in
      (
        rw (← same) e,
        ground (arith, text_eq_iff found.nonce nonce),
        rw (← same) (find_by-key nonce_address addr s.nonces e),
      )
]

module _ (w : Wallet) where
  module _ (address signature nonce : Text) (now : ℕ) (s : AuthStore) where
    -- A signature that the checks accept, with the nonce's row.
    pub record IsUsable (row : AuthNonce) : Type 0 where
      pub addr : Text
      pub claimed : normalised address ≡ ok addr
      pub recovered : Text
      pub signed : w.recover_text (message_of nonce) signature ≡ signer recovered
      pub by_owner : lower recovered ≡ addr
      pub key : row.address ≡ addr
      pub text : row.nonce ≡ nonce
      pub found : find_by nonce_address addr s.nonces ≡ some row
      pub unused : row.used ≡ false
      pub in_time : now < row.expires_at

    usable_nonce-IsUsable :
        (row : AuthNonce) → usable_nonce w address signature nonce now s ≡ ok row → IsUsable row
    unfolding usable_nonce recovered_address
    usable_nonce-IsUsable row h = elim (Result-cases (normalised address)) [
      | inr (_, e) ↦ absurd (ground arith)
      | inl (addr, e) ↦
          elim (w.recover_text (message_of nonce) signature)
              as (λ r. w.recover_text (message_of nonce) signature ≡ r → IsUsable row) [
                | signer a ↦ λ e'. elim (Option-cases (find_nonce addr nonce s.nonces)) [
                  | inl e2 ↦ absurd (ground arith)
                  | inr (found, e2) ↦
                      let same : found ≡ row = ground arith in
                      let f = found_nonce addr nonce s e2 in
                      record {
                        addr = addr;
                        claimed = e;
                        recovered = a;
                        signed = e';
                        by_owner = ground (arith, text_eq_iff (lower a) addr);
                        key = rw (← same) f.2;
                        text = rw (← same) f.1;
                        found = rw (← same) f.0;
                        unused = ground arith;
                        in_time = ground arith;
                      }
                ]
                | bad_input ↦ λ e'. absurd (ground arith)
                | uncaught ↦ λ e'. absurd (ground arith)
              ]
            refl
    ]

    -- What a successful sign-in has checked and written.
    pub record IsSignedIn (user : User) : Type 0 where
      pub row : AuthNonce
      pub checks : IsUsable row
      pub who : user ≡ record { address = row.address; last_seen_at = now }
      pub spent :
          (verify_signature w address signature nonce now s).1.nonces
          ≡ merge_by nonce_address (record row { used = true }) s.nonces
      pub seen :
          (verify_signature w address signature nonce now s).1.users
          ≡ merge_by user_address user s.users

    -- A sign-in that succeeds is for the wallet whose key made the signature over this nonce's message,
    -- with a nonce of that wallet that was unused and not expired; it marks the nonce used and records the user.
    pub verify_signature-IsSignedIn :
        {user : User}
        → (verify_signature w address signature nonce now s).0 ≡ ok user
        → IsSignedIn user
    verify_signature-IsSignedIn {user} h =
        elim (Result-cases (usable_nonce w address signature nonce now s)) [
          | inr (_, e) ↦ absurd (unfold verify_signature in ground arith)
          | inl (row, e) ↦ record {
            row = row;
            checks = usable_nonce-IsUsable row e;
            who = unfold verify_signature in ground arith;
            spent = unfold verify_signature in ground arith;
            seen = unfold verify_signature in ground arith;
          }
        ]

  -- A wallet whose stored nonce cannot be used again.
  spent_nonce_refused :
      (address signature nonce : Text) (now : ℕ) (s : AuthStore) {addr : Text} {row : AuthNonce}
      → normalised address ≡ ok addr
      → find_by nonce_address addr s.nonces ≡ some row
      → (row.used ≡ true) ⊎ (row.nonce ≢ nonce)
      → (e : Error) × (verify_signature w address signature nonce now s ≡ (err e, s))
  spent_nonce_refused address signature nonce now s {addr} {row} claimed found bad =
      elim (Result-cases (usable_nonce w address signature nonce now s)) [
        | inr (e, refused) ↦ (e, unfold verify_signature in ground arith)
        | inl (r, e) ↦
            let u = usable_nonce-IsUsable address signature nonce now s r e in
            absurd (ground (arith, claimed, u.claimed, found, u.found, u.unused, u.text, bad))
      ]

  -- A nonce that has signed a wallet in never signs it in again, whatever the signature, the time and
  -- the spelling of the address: the request fails and nothing is written.
  pub nonce_single_use :
      (address signature nonce : Text) (now : ℕ) (s : AuthStore) {user : User}
      → (verify_signature w address signature nonce now s).0 ≡ ok user
      → (address' signature' : Text) (later : ℕ) → normalised address' ≡ normalised address
      → let s' = (verify_signature w address signature nonce now s).1 in
        (e : Error) × (verify_signature w address' signature' nonce later s' ≡ (err e, s'))
  nonce_single_use address signature nonce now s h address' signature' later same =
      let i = verify_signature-IsSignedIn address signature nonce now s h in
      let c = i.checks in
      spent_nonce_refused address' signature' nonce later
        (verify_signature w address signature nonce now s).1 {addr = c.addr}
        {row = record i.row { used = true }} (rw same c.claimed)
        (rw i.spent
          (find_by-merge_self nonce_address (record i.row { used = true }) s.nonces c.key))
        (inl refl)

  -- Once a nonce is issued to a wallet, a sign-in of that wallet with any other nonce fails and writes nothing.
  pub reissue_revokes :
      (address fresh : Text) (now : ℕ) (s : AuthStore) {out : Text × Text}
      → (issue_nonce address fresh now s).0 ≡ ok out
      → (address' signature nonce : Text) (later : ℕ) → normalised address' ≡ normalised address
      → fresh ≢ nonce
      → let s' = (issue_nonce address fresh now s).1 in
        (e : Error) × (verify_signature w address' signature nonce later s' ≡ (err e, s'))
  reissue_revokes address fresh now s h address' signature nonce later same differ =
      elim (Result-cases (normalised address)) [
        | inr (_, e) ↦ absurd (unfold issue_nonce in ground arith)
        | inl (addr, e) ↦
            let row : AuthNonce = record {
              address = addr;
              nonce = fresh;
              used = false;
              expires_at = now + nonce_ttl_seconds * 1000000;
            } in
            let wrote : (issue_nonce address fresh now s).1
                ≡ record s { nonces = merge_by nonce_address row s.nonces } =
              unfold issue_nonce in ground arith in
            spent_nonce_refused address' signature nonce later (issue_nonce address fresh now s).1
              {addr = addr} {row = row} (rw same e)
              (rw wrote (find_by-merge_self nonce_address row s.nonces refl)) (inr differ)
      ]

  -- A non-empty nonce that was just issued signs its wallet in within ten minutes, given the wallet's
  -- signature over the message that was returned.
  pub issued_nonce_accepted :
      (address nonce : Text) (now : ℕ) (s : AuthStore) {addr : Text}
      → normalised address ≡ ok addr
      → is_empty nonce ≡ false
      → (signature recovered : Text) (later : ℕ) → is_empty signature ≡ false
      → w.recover_text (message_of nonce) signature ≡ signer recovered
      → lower recovered ≡ addr
      → later < now + 600000000
      → ((issue_nonce address nonce now s).0 ≡ ok (nonce, message_of nonce))
        × ((verify_signature w address signature nonce later (issue_nonce address nonce now s).1).0
            ≡ ok (record { address = addr; last_seen_at = later }))
  issued_nonce_accepted address nonce now s {addr} claimed some_nonce signature recovered later
        some_signature signed owner in_time =
      let row : AuthNonce = record {
        address = addr;
        nonce = nonce;
        used = false;
        expires_at = now + nonce_ttl_seconds * 1000000;
      } in
      let s' = (issue_nonce address nonce now s).1 in
      let wrote : s' ≡ record s { nonces = merge_by nonce_address row s.nonces } =
        unfold issue_nonce in ground arith in
      let found : find_by nonce_address addr s'.nonces ≡ some row =
        rw wrote (find_by-merge_self nonce_address row s.nonces refl) in
      let looked : find_nonce addr nonce s'.nonces ≡ some row =
        unfold find_nonce in ground (arith, text_eq_refl nonce) in
      let usable : usable_nonce w address signature nonce later s' ≡ ok row =
        unfold usable_nonce recovered_address in
        ground (arith, text_eq_iff (lower recovered) addr) in
      (unfold issue_nonce in ground arith, unfold verify_signature in ground arith)
