-- ===== src/Base/Parse.antt =====
-- Python's `int(text, base)` and `bytes.fromhex`.
use Prim.Native.Nat.{ℕ, suc, ◌+◌, ◌-◌, ◌*◌}
use mathlib.Core.Bool.{Bool, true, false, ◌&&◌, ◌||◌}
use mathlib.Core.Option.{Option, none, some}
use mathlib.Core.List.{List, [], ◌∷◌}
use bnb_agent_marketplace.Base.Numbers.{◌==◌, leb, ltb, if◌then◌else◌}
use bnb_agent_marketplace.Base.Lists.{length}
use bnb_agent_marketplace.Base.Strings.{Text, strip}
use bnb_agent_marketplace.Base.Int.{ℤ, pos, negsuc}

-- The value of a letter as a digit above 9.
unfoldable pub letter : ℕ → Option ℕ
letter c =
    if leb b'a' c && leb c b'z'
    then some (c - b'a' + 10)
    else if leb b'A' c && leb c b'Z'
    then some (c - b'A' + 10)
    else none

-- A digit below `base`; `digit` gives the decimal digits.
unfoldable pub digit_below : (ℕ → Option ℕ) → ℕ → ℕ → Option ℕ
unfolding letter
digit_below digit base c = elim (digit c) [
  | some d ↦ if ltb d base then some d else none
  | none ↦ elim (letter c) [ none ↦ none | some d ↦ if ltb d base then some d else none ]
]

-- Digits with single underscores before them; `open` says whether an underscore may stand here.
unfoldable pub grouped : (ℕ → Option ℕ) → ℕ → Bool → Text → Option (List ℕ)
unfolding digit_below
grouped digit base may [] = some []
grouped digit base may (c ∷ []) = elim (digit_below digit base c) [
  | none ↦ none
  | some d ↦ some (d ∷ [])
]
grouped digit base may (c ∷ e ∷ s) =
    let next = grouped digit base true (e ∷ s) in
    let skip = grouped digit base false (e ∷ s) in
    if c == b'_' then (if may then skip else none) else elim (digit_below digit base c) [
      | none ↦ none
      | some d ↦ elim next [ none ↦ none | some ds ↦ some (d ∷ ds) ]
    ]

unfoldable pub value_in : ℕ → ℕ → List ℕ → ℕ
value_in base n [] = n
value_in base n (d ∷ ds) = value_in base (n * base + d) ds

-- The digits behind the sign; only a base that is no power of two has a limit on their number.
unfoldable pub unsigned : (ℕ → Option ℕ) → ℕ → Bool → Text → Option ℕ
unfolding grouped value_in
unsigned digit base may s = elim (grouped digit base may s) [
  | none ↦ none
  | some ds ↦ elim ds [
    | [] ↦ none
    | d ∷ rest ↦
        if base == 10 && ltb 4300 (suc (length rest))
        then none
        else some (value_in base 0 (d ∷ rest))
  ]
]

-- The prefix `0x` in base 16, after which an underscore may stand.
unfoldable pub prefixed : (ℕ → Option ℕ) → ℕ → Text → Option ℕ
unfolding unsigned
prefixed digit base (z ∷ c ∷ s) =
    if base == 16 && z == b'0' && (c == b'x' || c == b'X')
    then unsigned digit base true s
    else unsigned digit base false (z ∷ c ∷ s)
prefixed digit base s = unsigned digit base false s

abbrev negate : ℕ → ℤ
negate n = if n == 0 then pos 0 else negsuc (n - 1)

unfoldable pub signed : (ℕ → Option ℕ) → ℕ → Text → Option ℤ
unfolding prefixed
signed digit base [] = none
signed digit base (c ∷ s) =
    if c == b'-'
    then (elim (prefixed digit base s) [ none ↦ none | some n ↦ some (negate n) ])
    else if c == b'+'
    then (elim (prefixed digit base s) [ none ↦ none | some n ↦ some (pos n) ])
    else (elim (prefixed digit base (c ∷ s)) [ none ↦ none | some n ↦ some (pos n) ])

-- `int(s, base)` for the bases 10 and 16; `none` is a `ValueError`.
unfoldable pub parse_int : (ℕ → Option ℕ) → ℕ → Text → Option ℤ
unfolding signed strip
parse_int digit base s = signed digit base (strip s)

-- `bytes.fromhex`, on a text that holds hexadecimal digits alone: it raises at an odd number.
unfoldable pub fromhex : Text → Option (List ℕ)
unfolding letter
fromhex [] = some []
fromhex (_ ∷ []) = none
fromhex (a ∷ b ∷ s) = elim (fromhex s) [
  | none ↦ none
  | some bytes ↦ some ((nibble a * 16 + nibble b) ∷ bytes)
]
  where
    nibble : ℕ → ℕ
    nibble c = if leb c b'9' then c - b'0' else elim (letter c) [ none ↦ 0 | some d ↦ d ]
