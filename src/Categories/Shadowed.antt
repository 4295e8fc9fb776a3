-- ===== src/Categories/Shadowed.antt =====
-- Hints of app/services/categories.py that begin with a hint of an earlier category.
use bnb_agent_marketplace.Base.{
  arith, Bool-cases, is_some, Text, codes, strip_prefix, ◌≡◌, refl, ◌⊎◌, inl, inr, true, List, [],
  ◌∷◌, ◌++◌,
}
use bnb_agent_marketplace.Json.{Json}
use bnb_agent_marketplace.Categories.{
  contains, any_hint, first_category, lowered, any_token, tag_category,
}
use bnb_agent_marketplace.Categories.Hints.{
  dev_automation, marketing_content, data_analytics, admin_ops, Category, tag_hints,
}

-- The table without `web research` of data_analytics and the three kinds of management of
-- admin_ops.
abbrev pub live_hints : Category → List Text
live_hints data_analytics =
    codes "data analysis"
    ∷ codes "data labeling"
    ∷ codes "data engineering"
    ∷ codes "data entry"
    ∷ codes "data extraction"
    ∷ codes "data visualization"
    ∷ codes "market research"
    ∷ codes "business analysis"
    ∷ codes "sql"
    ∷ codes "embeddings"
    ∷ []
live_hints admin_ops =
    codes "bookkeeping"
    ∷ codes "customer support"
    ∷ codes "virtual assistant"
    ∷ codes "report writing"
    ∷ []
live_hints cat = tag_hints cat

strip_prefix-append :
    (h k s : Text) → is_some (strip_prefix (h ++ k) s) ≡ true → is_some (strip_prefix h s) ≡ true
unfolding strip_prefix
strip_prefix-append [] k s e = refl
strip_prefix-append (c ∷ h) k [] e = absurd (cc)
strip_prefix-append (c ∷ h) k (d ∷ s) e = ground (arith, strip_prefix-append h k s)

contains-append : (h k s : Text) → contains (h ++ k) s ≡ true → contains h s ≡ true
unfolding contains
contains-append h k [] e = strip_prefix-append h k [] e
contains-append h k (c ∷ s) e = elim (Bool-cases (is_some (strip_prefix (h ++ k) (c ∷ s)))) [
  | inl here ↦ rw (strip_prefix-append h k (c ∷ s) here) refl
  | inr there ↦ ground (arith, there, contains-append h k s, e)
]

admin_hint :
    (t : Text)
    → any_hint (tag_hints admin_ops) t ≡ true
    → (any_hint (live_hints admin_ops) t ≡ true) ⊎ (any_hint (tag_hints marketing_content) t ≡ true)
unfolding any_hint
admin_hint t e = ground (
  arith,
  contains-append (codes "email") (codes " management") t,
  contains-append (codes "pr") (codes "oject management") t,
  contains-append (codes "pr") (codes "oduct management") t,
)

data_hint :
    (t : Text)
    → any_hint (tag_hints data_analytics) t ≡ true
    → (any_hint (live_hints data_analytics) t ≡ true)
      ⊎ (any_hint (tag_hints dev_automation) t ≡ true)
unfolding any_hint
data_hint t e = ground (arith, contains-append (codes "web") (codes " research") t)

live_hint :
    (t : Text)
    → (any_hint (live_hints admin_ops) t ≡ true → any_hint (tag_hints admin_ops) t ≡ true)
      × (any_hint (live_hints data_analytics) t ≡ true
          → any_hint (tag_hints data_analytics) t ≡ true)
unfolding any_hint
live_hint t = (λ e. ground arith, λ e. ground arith)

any_token-covered :
    (a b c : List Text)
    → ((t : Text) → any_hint a t ≡ true → (any_hint b t ≡ true) ⊎ (any_hint c t ≡ true))
    → (tokens : List Text) → any_token a tokens ≡ true
    → (any_token b tokens ≡ true) ⊎ (any_token c tokens ≡ true)
unfolding any_token
any_token-covered a b c cover [] e = absurd (cc)
any_token-covered a b c cover (t ∷ tokens) e =
    ground (arith, cover t, any_token-covered a b c cover tokens)

any_token-grows :
    (a b : List Text)
    → ((t : Text) → any_hint a t ≡ true → any_hint b t ≡ true)
    → (tokens : List Text) → any_token a tokens ≡ true
    → any_token b tokens ≡ true
unfolding any_token
any_token-grows a b grow [] e = absurd (cc)
any_token-grows a b grow (t ∷ tokens) e = ground (arith, grow t, any_token-grows a b grow tokens)

-- The category by tags is the same without the hints `web research`, `email management`, `project
-- management` and `product management`.
pub shadowed_hints : (tags : List Json) → tag_category tag_hints tags ≡ tag_category live_hints tags
unfolding tag_category first_category
shadowed_hints tags =
    let tokens = lowered tags in
    let admin =
      any_token-covered (tag_hints admin_ops) (live_hints admin_ops) (tag_hints marketing_content)
        admin_hint tokens in
    let analytics =
      any_token-covered (tag_hints data_analytics) (live_hints data_analytics)
        (tag_hints dev_automation) data_hint tokens in
    let admin_live =
      any_token-grows (live_hints admin_ops) (tag_hints admin_ops) (λ t. (live_hint t).0) tokens in
    let analytics_live =
      any_token-grows (live_hints data_analytics) (tag_hints data_analytics) (λ t. (live_hint t).1)
        tokens in
    ground (arith, admin, analytics, admin_live, analytics_live)
