-- ===== src/Categories.antt =====
-- `compute_category` of app/services/categories.py: the category of an agent from its metadata.
pub mod Hints
pub mod Shadowed
pub mod Reclassify
pub mod Settled
use bnb_agent_marketplace.Base.{
  if◌then◌else◌, is_some, or_else, Text, codes, text_eq, lower, strip_prefix, Bool, false, ◌||◌,
  Option, none, some, List, [], ◌∷◌,
}
use bnb_agent_marketplace.Json.{Json, str}
use bnb_agent_marketplace.Categories.Hints.{
  rebalancing, other, Category, categories, termix_category_map, tag_hints, description_hints,
  skill_hints, protocol_hints,
}

-- `hint in text`
unfoldable pub contains : Text → Text → Bool
unfolding strip_prefix
contains hint [] = is_some (strip_prefix hint [])
contains hint (c ∷ s) = is_some (strip_prefix hint (c ∷ s)) || contains hint s

-- `any(hint in text for hint in hints)`
unfoldable pub any_hint : List Text → Text → Bool
unfolding contains
any_hint [] text = false
any_hint (hint ∷ hints) text = contains hint text || any_hint hints text

-- `for cat in CATEGORIES`, up to the first that passes.
unfoldable pub first_category : (Category → Bool) → List Category → Option Category
first_category test [] = none
first_category test (cat ∷ cats) = if test cat then some cat else first_category test cats

-- `[p.lower() for p in ps if isinstance(p, str)]`
unfoldable pub lowered : List Json → List Text
unfolding lower
lowered [] = []
lowered (str p ∷ ps) = lower p ∷ lowered ps
lowered (_ ∷ ps) = lowered ps

-- Some token has one of the hints.
unfoldable pub any_token : List Text → List Text → Bool
unfolding any_hint
any_token hints [] = false
any_token hints (token ∷ tokens) = any_hint hints token || any_token hints tokens

-- The tags, as far as they are texts, in lower case.
unfoldable pub tag_category : (Category → List Text) → List Json → Option Category
unfolding lowered any_token first_category
tag_category hints tags =
    let tokens = lowered tags in first_category (λ cat. any_token (hints cat) tokens) categories

unfoldable pub description_category : Option Text → Option Category
unfolding any_hint first_category lower
description_category none = none
description_category (some []) = none
description_category (some (c ∷ s)) =
    first_category (λ cat. any_hint (description_hints cat) (lower (c ∷ s))) categories

-- The skill hints; the protocol hints are the same test, as a prefix is contained.
unfoldable pub hinted : List (Category × List Text) → List Text → Option Category
unfolding any_token
hinted [] tokens = none
hinted ((cat, hints) ∷ table) tokens =
    if any_token hints tokens then some cat else hinted table tokens

unfoldable pub termix_mapped : Option Text → List (Text × Category) → Option Category
unfolding text_eq
termix_mapped none table = none
termix_mapped (some c) [] = none
termix_mapped (some c) ((name, cat) ∷ table) =
    if text_eq name c then some cat else termix_mapped (some c) table

unfoldable pub has_oasf : List Text → Bool
unfolding text_eq
has_oasf [] = false
has_oasf (token ∷ tokens) = text_eq token (codes "oasf") || has_oasf tokens

abbrev pub or_category : Option Category → Category → Category
or_category none cat = cat
or_category (some cat) _ = cat

-- `x402_supported` is an argument that is not used.
unfoldable pub compute_category :
    Option Text → List Json → List Json → Bool → Option Text → Category
unfolding termix_mapped tag_category description_category lowered hinted has_oasf
compute_category termix_category tags supported_protocols x402_supported description =
    let protocols = lowered supported_protocols in
    or_category
      (or_else (termix_mapped termix_category termix_category_map) (
        or_else (tag_category tag_hints tags) (
          or_else (description_category description)
            (or_else (hinted skill_hints protocols) (hinted protocol_hints protocols)))))
      (if has_oasf protocols then rebalancing else other)
