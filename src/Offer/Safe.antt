-- ===== src/Offer/Safe.antt =====
-- The probe's guard: which URLs are requested.
use bnb_agent_marketplace.Errors.{Ensures, ok, Ensures-ok}
use bnb_agent_marketplace.Base.{
  Option-cases, All, Text, codes, is_empty, ℕ, ◌≡◌, ◌≢◌, ◌⊎◌, inl, inr, false, some, List, [], ◌∷◌,
  arith, Bool-cases, text_eq_iff, refl, sym, subst,
}
use bnb_agent_marketplace.Offer.Guard.{
  Url, Net, Parsed, Address, blocked, any_blocked, blocked_ip, strip_zone, validate_host,
  validate_parsed, validate_probe_url, parsed, refused, invalid, port_or_443, check_infos,
}

-- An address that is known and in none of the refused classes.
abbrev pub IsPublic : Net → Text → Type 0
IsPublic net s = (a : Address) × (net.ip_address (strip_zone s) ≡ some a) × (blocked_ip a ≡ false)

-- What a host stands for: itself if it is a literal address, else all that it resolves to.
abbrev pub AllPublic : Net → Url → Type 0
AllPublic net u =
    IsPublic net u.host
    ⊎ ((port : ℕ) × (infos : List Text) × (net.getaddrinfo u.host port ≡ some infos)
        × (infos ≢ [])
        × All (IsPublic net) infos)

module _ (net : Net) where
  blocked-IsPublic : (s : Text) → blocked net s ≡ false → IsPublic net s
  unfolding blocked
  blocked-IsPublic s h = elim (Option-cases (net.ip_address (strip_zone s))) [
    | inl e ↦ absurd (ground arith)
    | inr (a, e) ↦ (a, e, ground arith)
  ]

  any_blocked-All : (infos : List Text) → any_blocked net infos ≡ false → All (IsPublic net) infos
  unfolding any_blocked
  any_blocked-All [] h = tt
  any_blocked-All (s ∷ rest) h =
      (blocked-IsPublic s (ground arith), any_blocked-All rest (ground arith))

  -- What the guard lets through.
  abbrev pub Guarded : Url → Type 0
  Guarded u =
      ((u.scheme ≡ codes "http") ⊎ (u.scheme ≡ codes "https"))
      × (is_empty u.host ≡ false)
      × AllPublic net u

  check_infos-AllPublic :
      (u : Url) (port : ℕ) (infos : List Text)
      → net.getaddrinfo u.host port ≡ some infos
      → Ensures (λ v. (v ≡ u) × AllPublic net u) (check_infos net u infos)
  unfolding check_infos
  check_infos-AllPublic u port [] e = tt
  check_infos-AllPublic u port (s ∷ rest) e = elim (Bool-cases (any_blocked net (s ∷ rest))) [
    | inl b ↦ rw (b, Ensures) tt
    | inr b ↦
        rw (b, Ensures) (refl, inr (port, s ∷ rest, e, (λ n. cc n), any_blocked-All (s ∷ rest) b))
  ]

  validate_host-AllPublic :
      (u : Url) → Ensures (λ v. (v ≡ u) × AllPublic net u) (validate_host net u)
  unfolding validate_host
  validate_host-AllPublic u = elim (Option-cases (net.getaddrinfo u.host (port_or_443 u.port))) [
    | inl e ↦ rw (e, Ensures) tt
    | inr (infos, e) ↦ rw (e, Ensures) (check_infos-AllPublic u (port_or_443 u.port) infos e)
  ]

  validate_parsed-Guarded : (u : Url) → Ensures (λ v. (v ≡ u) × Guarded u) (validate_parsed net u)
  unfolding validate_parsed
  validate_parsed-Guarded u = elim (Bool-cases (blocked net u.host)) [
    | inl b ↦ ground (
      arith,
      validate_host-AllPublic u,
      text_eq_iff u.scheme (codes "http"),
      text_eq_iff u.scheme (codes "https"),
    )
    | inr b ↦ ground (
      arith,
      blocked-IsPublic u.host b,
      validate_host-AllPublic u,
      text_eq_iff u.scheme (codes "http"),
      text_eq_iff u.scheme (codes "https"),
    )
  ]

  Guarded-of :
      (url : Text) {v : Url} (p : Parsed)
      → net.parse_url url ≡ p
      → validate_probe_url net url ≡ ok v
      → (net.parse_url url ≡ parsed v) × Guarded v
  unfolding validate_probe_url
  Guarded-of url {v} (parsed u) e h =
      let (same, g) =
        Ensures-ok (λ w. (w ≡ u) × Guarded u) (validate_parsed net u) {a = v}
          (validate_parsed-Guarded u) (ground arith) in
      subst (λ w. (net.parse_url url ≡ parsed w) × Guarded w) (sym same) (e, g)
  Guarded-of url refused e h = absurd (ground arith)
  Guarded-of url invalid e h = absurd (ground arith)

  -- A URL that the guard lets through is the parsed one, is HTTP or HTTPS with a host, and every address
  -- that the host stands for is in none of the refused classes.
  pub validate_probe_url-Guarded :
      (url : Text) {v : Url}
      → validate_probe_url net url ≡ ok v
      → (net.parse_url url ≡ parsed v) × Guarded v
  validate_probe_url-Guarded url h = Guarded-of url (net.parse_url url) refl h
