-- ===== src/Indexer/Canonical.antt =====
-- The canonical form of addresses, and the wallets that it links.
use mathlib.Core.List.{reverse, reverse-cons, reverse-reverse}
use bnb_agent_marketplace.Indexer.Store.{
  agent_at, add_wallet, resolve_rows, linked_agent, resolve_wallet_to_agent,
}
use bnb_agent_marketplace.Base.{
  arith, ◌∙◌, Text, lower_char, lower, is_space, lstrip, ℕ, ◌≡◌, refl, true, false, [], ◌∷◌, length,
  All, All-append, codes, strip_prefix, strip, ap, Option, none, some, ◌++◌, if◌then◌else◌,
  Bool-cases, or_else, text_eq, inl, inr, List, Option-cases,
}
use bnb_agent_marketplace.Indexer.Address.{
  all_lower_hex, is_lower_hex, without_prefix, canon_body, canon_addr,
}

lower_char-lower_hex : (c : ℕ) → is_lower_hex c ≡ true → (lower_char c ≡ c) × (is_space c ≡ false)
unfolding is_lower_hex lower_char is_space
lower_char-lower_hex c h = ground arith

lower-lower_hex : (s : Text) → all_lower_hex s ≡ true → lower s ≡ s
unfolding all_lower_hex lower
lower-lower_hex [] h = refl
lower-lower_hex (c ∷ s) h = ground (arith, lower_char-lower_hex c, lower-lower_hex s)

-- No character is white space.
abbrev Visible : Text → Type 0
Visible = All (λ c. is_space c ≡ false)

lower_hex-Visible : (s : Text) → all_lower_hex s ≡ true → Visible s
unfolding all_lower_hex
lower_hex-Visible [] h = tt
lower_hex-Visible (c ∷ s) h =
    (ground (arith, lower_char-lower_hex c), lower_hex-Visible s (ground arith))

lstrip-Visible : (s : Text) → Visible s → lstrip s ≡ s
unfolding lstrip
lstrip-Visible [] v = refl
lstrip-Visible (c ∷ s) v = rw (v.0) refl

reverse-Visible : (s : Text) → Visible s → Visible (reverse s)
reverse-Visible [] v = tt
reverse-Visible (c ∷ s) v =
    rw (reverse-cons c s)
      (All-append (λ d. is_space d ≡ false) (reverse s) (c ∷ []) (reverse-Visible s v.1) (v.0, tt))

strip-Visible : (s : Text) → Visible s → strip s ≡ s
unfolding strip
strip-Visible s v =
    rw (lstrip-Visible s v, lstrip-Visible (reverse s) (reverse-Visible s v)) (reverse-reverse s)

canon_body-IsCanonical :
    (body : Text) {c : Text}
    → canon_body body ≡ some c
    → (c ≡ codes "0x" ++ body) × (length body ≡ 40) × (all_lower_hex body ≡ true)
unfolding canon_body
canon_body-IsCanonical body h = ground arith

canon_addr-body :
    (body : Text)
    → length body ≡ 40
    → all_lower_hex body ≡ true
    → canon_addr (some (codes "0x" ++ body)) ≡ some (codes "0x" ++ body)
unfolding canon_addr
canon_addr-body body size hex =
    let v : Visible (codes "0x" ++ body) =
      (unfold is_space in refl, (unfold is_space in refl, lower_hex-Visible body hex)) in
    let small : lower (codes "0x" ++ body) ≡ codes "0x" ++ body =
      unfold lower in
      unfold lower_char in ap (λ s. codes "0x" ++ s) (unfold lower in lower-lower_hex body hex) in
    let rest : without_prefix (codes "0x" ++ body) ≡ body =
      unfold without_prefix in unfold strip_prefix in refl in
    let whole : canon_body body ≡ some (codes "0x" ++ body) =
      unfold canon_body in ground (arith, size, hex) in
    ap (λ s. canon_body (without_prefix (lower s))) (strip-Visible (codes "0x" ++ body) v)
    ∙ ap (λ s. canon_body (without_prefix s)) small
    ∙ ap canon_body rest
    ∙ whole

-- A text with a canonical form has one of `0x` and 40 lower-case hexadecimal digits, which is its
-- own canonical form.
pub canon_addr_lem :
    (addr : Option Text) {c : Text}
    → canon_addr addr ≡ some c
    → (body : Text) × (c ≡ codes "0x" ++ body)
      × (length body ≡ 40)
      × (all_lower_hex body ≡ true)
      × (canon_addr (some c) ≡ some c)
canon_addr_lem none h = absurd (unfold canon_addr in cc)
canon_addr_lem (some []) h = absurd (unfold canon_addr in cc)
canon_addr_lem (some (d ∷ s)) {c} h =
    let body = without_prefix (lower (strip (d ∷ s))) in
    let shape = canon_body-IsCanonical body {c = c} (unfold canon_addr in h) in
    (body, shape.0, shape.1, shape.2, rw (shape.0) (canon_addr-body body shape.1 shape.2))

-- The agent of the last row whose wallet has the canonical form `c`.
abbrev pub agent_of_row : Option Text → Text → Text → Option Text
agent_of_row none agent_id c = none
agent_of_row (some canon) agent_id c = if text_eq canon c then some agent_id else none

abbrev pub last_agent : List (Option Text × Text) → Text → Option Text
last_agent [] c = none
last_agent ((wallet, agent_id) ∷ rows) c =
    or_else (last_agent rows c) (agent_of_row (canon_addr wallet) agent_id c)

or_else_assoc : (a b c : Option Text) → or_else a (or_else b c) ≡ or_else (or_else a b) c
or_else_assoc none b c = refl
or_else_assoc (some _) b c = refl

or_else-none : (a : Option Text) → or_else a none ≡ a
or_else-none none = refl
or_else-none (some _) = refl

add_wallet-at :
    (canon : Option Text) (agent_id c : Text) (out : List (Text × Text))
    → agent_at c (add_wallet canon agent_id out)
      ≡ or_else (agent_of_row canon agent_id c) (agent_at c out)
unfolding add_wallet agent_at
add_wallet-at none agent_id c out = refl
add_wallet-at (some canon) agent_id c out = elim (Bool-cases (text_eq canon c)) [
  | inl e ↦ rw e refl
  | inr e ↦ rw e refl
]

resolve_rows-at :
    (rows : List (Option Text × Text)) (out : List (Text × Text)) (c : Text)
    → agent_at c (resolve_rows rows out) ≡ or_else (last_agent rows c) (agent_at c out)
unfolding resolve_rows
resolve_rows-at [] out c = refl
resolve_rows-at ((wallet, agent_id) ∷ rows) out c =
    resolve_rows-at rows (add_wallet (canon_addr wallet) agent_id out) c
    ∙ ap (or_else (last_agent rows c)) (add_wallet-at (canon_addr wallet) agent_id c out)
    ∙ or_else_assoc (last_agent rows c) (agent_of_row (canon_addr wallet) agent_id c)
        (agent_at c out)

-- A transfer is linked to the agent of the last row whose wallet has the same canonical form as its
-- receiver, and to none where the receiver has no canonical form or no wallet has the same one.
pub linked_agent_lem :
    (rows : List (Option Text × Text)) (to_addr : Text)
    → linked_agent (resolve_wallet_to_agent rows) to_addr
      ≡ elim (canon_addr (some to_addr)) [ none ↦ none | some c ↦ last_agent rows c ]
unfolding linked_agent resolve_wallet_to_agent
linked_agent_lem rows to_addr = elim (Option-cases (canon_addr (some to_addr))) [
  | inl e ↦ rw (linked_agent, e) refl
  | inr (c, e) ↦
      rw (linked_agent, e)
        (resolve_rows-at rows [] c ∙ unfold agent_at in or_else-none (last_agent rows c))
]
