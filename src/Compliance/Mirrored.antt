-- ===== src/Compliance/Mirrored.antt =====
-- What the mirror of the lists holds.
use mathlib.Core.List.{append-nil}
use bnb_agent_marketplace.Errors.{◌>>=◌, ok-injective, err, ok, Result-cases, Result}
use bnb_agent_marketplace.Compliance.{FlaggedAddress}
use bnb_agent_marketplace.Compliance.Keyed.{same_text, common_text}
use bnb_agent_marketplace.Base.{
  if◌then◌else◌, Bool-cases, Text, text_eq, is_empty, lower, strip, ◌≡◌, inl, inr, false, List, [],
  ◌∷◌, ℕ, refl, ◌++◌, map, arith, sym, ap, ◌∙◌, subst,
}
use bnb_agent_marketplace.Json.{
  Items, arr, str, nil, cons, null, bool, int, float, nan, infinite, obj, Json,
}
use bnb_agent_marketplace.Score.Track.{member}
use bnb_agent_marketplace.Compliance.Mirror.{
  normalize_items, delete_source, mirrored, flagged_sources, normalize_addresses, replace_source,
  refresh_sources, refresh_flagged_addresses,
}

-- No text is in `seen` or stands twice, and none is empty.
abbrev pub IsFresh : List Text → List Text → Type 0
IsFresh seen [] = Unit
IsFresh seen (a ∷ l) = (member a seen ≡ false) × (is_empty a ≡ false) × IsFresh (a ∷ seen) l

normalize_items-IsFresh :
    (seen : List Text) (items : Items) → IsFresh seen (normalize_items seen items)
unfolding normalize_items
normalize_items-IsFresh seen nil = tt
normalize_items-IsFresh seen (cons (str item) items) =
    let addr = lower (strip item) in
    elim (Bool-cases (is_empty addr)) [
      | inl e ↦ rw e (normalize_items-IsFresh seen items)
      | inr e ↦ elim (Bool-cases (member addr seen)) [
        | inl f ↦ rw (e, f) (normalize_items-IsFresh seen items)
        | inr f ↦ rw (e, f) (f, e, normalize_items-IsFresh (addr ∷ seen) items)
      ]
    ]
normalize_items-IsFresh seen (cons null items) = normalize_items-IsFresh seen items
normalize_items-IsFresh seen (cons (bool _) items) = normalize_items-IsFresh seen items
normalize_items-IsFresh seen (cons (int _) items) = normalize_items-IsFresh seen items
normalize_items-IsFresh seen (cons (float _ _) items) = normalize_items-IsFresh seen items
normalize_items-IsFresh seen (cons nan items) = normalize_items-IsFresh seen items
normalize_items-IsFresh seen (cons infinite items) = normalize_items-IsFresh seen items
normalize_items-IsFresh seen (cons (arr _) items) = normalize_items-IsFresh seen items
normalize_items-IsFresh seen (cons (obj _) items) = normalize_items-IsFresh seen items

abbrev pub addresses_of : Text → List FlaggedAddress → List Text
addresses_of source [] = []
addresses_of source (row ∷ rows) =
    if text_eq row.source source
    then row.address ∷ addresses_of source rows
    else addresses_of source rows

addresses_of-append :
    (s : Text) (a b : List FlaggedAddress)
    → addresses_of s (a ++ b) ≡ addresses_of s a ++ addresses_of s b
addresses_of-append s [] b = refl
addresses_of-append s (row ∷ a) b = ground (arith, addresses_of-append s a b)

addresses_of-delete :
    (s source : Text) (rows : List FlaggedAddress)
    → addresses_of s (delete_source source rows)
      ≡ (if text_eq source s then [] else addresses_of s rows)
unfolding delete_source
addresses_of-delete s source [] = ground arith
addresses_of-delete s source (row ∷ rows) = ground (
  arith,
  addresses_of-delete s source rows,
  same_text row.source source s,
  common_text row.source source s,
)

addresses_of-mirrored :
    (s source : Text) (now : ℕ) (addresses : List Text)
    → addresses_of s (map (mirrored source now) addresses)
      ≡ (if text_eq source s then addresses else [])
addresses_of-mirrored s source now [] = ground arith
addresses_of-mirrored s source now (a ∷ addresses) =
    ground (arith, addresses_of-mirrored s source now addresses)

replace_source-addresses :
    (now : ℕ) (s source : Text) (addresses : List Text) (rows : List FlaggedAddress)
    → addresses_of s (replace_source now source addresses rows)
      ≡ (if text_eq source s then addresses else addresses_of s rows)
unfolding replace_source
replace_source-addresses now s source addresses rows =
    addresses_of-append s (delete_source source rows) (map (mirrored source now) addresses)
    ∙ (elim (Bool-cases (text_eq source s)) [
      | inl e ↦
          rw (addresses_of-delete s source rows, addresses_of-mirrored s source now addresses, e)
            refl
      | inr e ↦
          rw (addresses_of-delete s source rows, addresses_of-mirrored s source now addresses, e)
            (append-nil (addresses_of s rows))
    ])

-- Within each source no address is empty or stands twice.
abbrev pub IsMirror : List FlaggedAddress → Type 0
IsMirror rows = (s : Text) → IsFresh [] (addresses_of s rows)

normalize-IsFresh :
    (raw : Json) {addresses : List Text} {n : ℕ}
    → normalize_addresses raw ≡ ok (addresses, n)
    → IsFresh [] addresses
unfolding normalize_addresses
normalize-IsFresh (arr items) e =
    subst (IsFresh []) (ap (λ (p : List Text × ℕ). p.0) (ok-injective e))
      (normalize_items-IsFresh [] items)
normalize-IsFresh (str _) e = absurd (cc)
normalize-IsFresh null e = absurd (cc)
normalize-IsFresh (bool _) e = absurd (cc)
normalize-IsFresh (int _) e = absurd (cc)
normalize-IsFresh (float _ _) e = absurd (cc)
normalize-IsFresh nan e = absurd (cc)
normalize-IsFresh infinite e = absurd (cc)
normalize-IsFresh (obj _) e = absurd (cc)

replace_source-IsMirror :
    (now : ℕ) (source : Text) (addresses : List Text) (rows : List FlaggedAddress)
    → IsFresh [] addresses
    → IsMirror rows
    → IsMirror (replace_source now source addresses rows)
replace_source-IsMirror now source addresses rows fresh m s =
    subst (IsFresh []) (sym (replace_source-addresses now s source addresses rows))
      (elim (Bool-cases (text_eq source s)) [ inl e ↦ rw e fresh | inr e ↦ rw e (m s) ])

fetched-IsFresh :
    (answer : Result Json) {addresses : List Text} {n : ℕ}
    → (answer >>= normalize_addresses) ≡ ok (addresses, n)
    → IsFresh [] addresses
fetched-IsFresh (ok raw) e = normalize-IsFresh raw e
fetched-IsFresh (err _) e = absurd (cc)

module _ {W : Type 0} (get : Text → W → Result Json × W) (now : ℕ) where
  refresh_sources-IsMirror :
      (sources : List (Text × Text)) (rows : List FlaggedAddress) (w : W)
      → IsMirror rows
      → IsMirror (refresh_sources get now sources rows w).rows
  unfolding refresh_sources
  refresh_sources-IsMirror [] rows w m = m
  refresh_sources-IsMirror ((source, url) ∷ sources) rows w m =
      let answer = get url w in
      elim (Result-cases (answer.0 >>= normalize_addresses)) [
        | inl ((addresses, n), e) ↦
            rw (refresh_sources, e)
              (refresh_sources-IsMirror sources (replace_source now source addresses rows) answer.1
                (replace_source-IsMirror now source addresses rows (fetched-IsFresh answer.0 e) m))
        | inr (raised, e) ↦ rw (refresh_sources, e) m
      ]

  -- Whatever the lists hold and whether or not a request fails, after a refresh no source has an empty
  -- address or one that stands twice, if none had before.
  pub refresh-IsMirror :
      (rows : List FlaggedAddress) (w : W)
      → IsMirror rows
      → IsMirror (refresh_flagged_addresses get now rows w).rows
  unfolding refresh_flagged_addresses
  refresh-IsMirror rows w = refresh_sources-IsMirror flagged_sources rows w
