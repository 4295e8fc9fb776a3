-- ===== src/Payment/Validators/Numeric.antt =====
-- Printing a number and reading it back (`str`, `_NUMERIC_RE`, `int`).
use bnb_agent_marketplace.Errors.{ok}
use bnb_agent_marketplace.Base.{
  Text, chop_newline, ℕ, ◌+◌, ◌*◌, ◌<◌, ◌≡◌, refl, ◌≢◌, Option, some, List, [], ◌∷◌, ◌++◌, arith,
  ltb, ltb→lt, Bool-cases, length, length-append, zero, suc, ◌/◌, ◌%◌, ◌≤◌, inl, inr, none,
}
use bnb_agent_marketplace.Payment.Validators.{
  numeric, read_digits, digits_of, number, max_str_digits,
}
use bnb_agent_marketplace.Payment.Validators.Decimal.{decimal, decimal_fuel}

-- Unicode gives the ten ASCII digits their values.
abbrev pub IsAscii : (ℕ → Option ℕ) → Type 0
IsAscii digit = (d : ℕ) → d < 10 → digit (48 + d) ≡ some d

pub chop_newline-append : (s : Text) (c : ℕ) → c ≢ 10 → chop_newline (s ++ c ∷ []) ≡ s ++ c ∷ []
unfolding chop_newline
chop_newline-append [] c h = ground arith
chop_newline-append (a ∷ []) c h = ground arith
chop_newline-append (a ∷ b ∷ s) c h = cc (chop_newline-append (b ∷ s) c h)

number-append : (n : ℕ) (ds : List ℕ) (d : ℕ) → number n (ds ++ d ∷ []) ≡ number n ds * 10 + d
unfolding number
number-append n [] d = refl
number-append n (e ∷ ds) d = number-append (n * 10 + e) ds d

abbrev snoc : Option (List ℕ) → ℕ → Option (List ℕ)
snoc none d = none
snoc (some ds) d = some (ds ++ d ∷ [])

read_digits_lem :
    (ds : List ℕ) (n : ℕ)
    → number 0 ds ≡ n
    → 0 < length ds
    → length ds ≤ max_str_digits
    → read_digits ds ≡ some (ok n)
unfolding read_digits
read_digits_lem [] n e h k = absurd (omega arith)
read_digits_lem (d ∷ rest) n e h k = ground arith

module _ (digit : ℕ → Option ℕ) where
  digits_of-append :
      (s : Text) (c d : ℕ)
      → digit c ≡ some d
      → digits_of digit (s ++ c ∷ []) ≡ snoc (digits_of digit s) d
  unfolding digits_of
  digits_of-append [] c d e = ground arith
  digits_of-append (a ∷ s) c d e = ground (arith, digits_of-append s c d e)

  -- What a printed number is to the reader.
  record Prints (n : ℕ) (s : Text) : Type 0 where
    digits : List ℕ
    reads : digits_of digit s ≡ some digits
    means : number 0 digits ≡ n
    same_length : length digits ≡ length s
    no_newline : chop_newline s ≡ s
    nonempty : 0 < length s

  module _ (ascii : IsAscii digit) where
    Prints-one : (n : ℕ) → n < 10 → Prints n ((48 + n) ∷ [])
    unfolding digits_of number chop_newline
    Prints-one n h = record {
      digits = n ∷ [];
      reads = ground (arith, ascii n h);
      means = omega arith;
      same_length = refl;
      no_newline = ground arith;
      nonempty = omega arith;
    }

    Prints-append : (n : ℕ) (s : Text) → Prints (n / 10) s → Prints n (s ++ (48 + n % 10) ∷ [])
    Prints-append n s p = record {
      digits = p.digits ++ n % 10 ∷ [];
      reads =
          rw (digits_of-append s (48 + n % 10) (n % 10) (ascii (n % 10) (omega arith)), p.reads)
            refl;
      means = rw (number-append 0 p.digits (n % 10), p.means) (omega arith);
      same_length = omega (
        arith,
        length-append p.digits (n % 10 ∷ []),
        length-append s ((48 + n % 10) ∷ []),
        p.same_length,
      );
      no_newline = chop_newline-append s (48 + n % 10) (omega arith);
      nonempty = omega (arith, length-append s ((48 + n % 10) ∷ []));
    }

    decimal_fuel-Prints : (f n : ℕ) → n < f → Prints n (decimal_fuel f n)
    unfolding decimal_fuel
    decimal_fuel-Prints zero n h = absurd (omega arith)
    decimal_fuel-Prints (suc f) n h = elim (Bool-cases (ltb n 10)) [
      | inl small ↦ rw small (Prints-one n (ltb→lt n 10 small))
      | inr large ↦ rw large (
          Prints-append n (decimal_fuel f (n / 10)) (decimal_fuel-Prints f (n / 10) (ground arith)))
    ]

    decimal-Prints : (n : ℕ) → Prints n (decimal n)
    unfolding decimal
    decimal-Prints n = decimal_fuel-Prints (suc n) n (omega arith)

    -- `int(str(n))` is `n`, within the limit on the length of a number's text.
    pub numeric-decimal :
        (n : ℕ) → length (decimal n) ≤ max_str_digits → numeric digit (decimal n) ≡ some (ok n)
    unfolding numeric
    numeric-decimal n h =
        let p = decimal-Prints n in
        rw (p.no_newline, p.reads, numeric)
          (read_digits_lem p.digits n p.means (omega (arith, p.same_length, p.nonempty))
            (omega (arith, p.same_length)))
