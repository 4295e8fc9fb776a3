-- ===== src/Json.antt =====
-- JSON values as Python's `json.loads` gives them, and the tests that the services make on them.
use bnb_agent_marketplace.Base.{Bool, true, false, Option, none, some, Text, text_eq, if◌then◌else◌}
use bnb_agent_marketplace.Base.Int.{ℤ}

mutual
  pub data Json : Type 0 where
    null : Json
    bool : Bool → Json
    int : ℤ → Json
    -- A float by its integer part and whether it equals that; `nan` and the infinities have none.
    float : ℤ → Bool → Json
    nan infinite : Json
    str : Text → Json
    arr : Items → Json
    obj : Fields → Json

  pub data Items : Type 0 where
    nil : Items
    cons : Json → Items → Items

  -- A dict; a key stands once.
  pub data Fields : Type 0 where
    end : Fields
    field : Text → Json → Fields → Fields

-- `d.get(k)`, without the default.
unfoldable pub get : Text → Fields → Option Json
get k end = none
get k (field j v d) = if text_eq j k then some v else get k d

-- `d.get(k)` where a missing key and a `null` are both `None`.
unfoldable pub get_value : Text → Fields → Option Json
unfolding get
get_value k d = elim (get k d) [
  | none ↦ none
  | some v ↦ elim v [ null ↦ none | other ↦ some other ]
]

-- `k in d`
unfoldable pub has : Text → Fields → Bool
unfolding get
has k d = elim (get k d) [ none ↦ false | some _ ↦ true ]

-- `isinstance(v, dict)`, `isinstance(v, str)`, for a value that may be missing.
unfoldable pub as_dict : Option Json → Option Fields
as_dict none = none
as_dict (some (obj d)) = some d
as_dict (some _) = none

unfoldable pub as_str : Option Json → Option Text
as_str none = none
as_str (some (str t)) = some t
as_str (some _) = none
