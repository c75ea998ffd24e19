-- ===== src/Entities/Price/Digits.antt =====
-- Security.cpp, `ConvertPriceToStr`: the digits of a number, and the text of a price.
use simple_cgate.Base.{
  ℕ, zero, suc, ◌+◌, ◌*◌, ◌/◌, ◌%◌, ◌≤◌, ◌<◌, ◌≡◌, refl, sym, ap, ◌∙◌, false, Bool-cases, ◌==◌,
  nat_eq, inl, inr, none, some, [], ◌∷◌, ◌++◌, Text, arith, length, length-append, ltb,
}
use mathlib.Core.List.{append_assoc}
use simple_cgate.Base.Words.{is_negative64}
use simple_cgate.Entities.Platform.{Platform}
use simple_cgate.Entities.Security.{Security}
use simple_cgate.Entities.Price.{
  digits_from, insert_point, format_price, i64_to_a, result_length, long_price,
  convert_price_to_str,
}
use simple_cgate.Entities.Price.Format.{insert_point-append, insert_point-short}

-- Seventeen characters and the terminator fit.
fits : (t : Text) → length t ≤ 17 → format_price t ≡ insert_point (t ++ 0 ∷ [])
unfolding format_price
fits t h = rw e refl
  where
    e : ltb result_length (length t + 1) ≡ false
    e = ground arith

-- The digit of a number at a power of ten.
abbrev pub digit : ℕ → ℕ
digit n = n % 10 + b'0'

digits_from-acc : (fuel n : ℕ) (acc : Text) → digits_from fuel n acc ≡ digits_from fuel n [] ++ acc
unfolding digits_from
digits_from-acc zero n acc = refl
digits_from-acc (suc fuel) n acc = ground (
  arith,
  digits_from-acc fuel (n / 10) ((n % 10 + b'0') ∷ acc),
  digits_from-acc fuel (n / 10) ((n % 10 + b'0') ∷ []),
  append_assoc (digits_from fuel (n / 10) []) ((n % 10 + b'0') ∷ []) acc,
)

digits_from-step :
    (fuel n m : ℕ) (acc : Text)
    → 10 ≤ n
    → m ≡ n / 10
    → digits_from (suc fuel) n acc ≡ digits_from fuel m (digit n ∷ acc)
unfolding digits_from
digits_from-step fuel n m acc h e = rw e (ground arith)

-- Six digits come off at the end.
digits_from-six :
    (n : ℕ)
    → 1000000 ≤ n
    → digits_from 20 n []
      ≡ digits_from 14 (n / 1000000) []
        ++ digit (n / 100000)
          ∷ digit (n / 10000)
          ∷ digit (n / 1000)
          ∷ digit (n / 100)
          ∷ digit (n / 10)
          ∷ digit n
          ∷ []
digits_from-six n h =
    digits_from-step 19 n (n / 10) _ (omega arith) (omega arith)
    ∙ digits_from-step 18 (n / 10) (n / 100) _ (omega arith) (omega arith)
    ∙ digits_from-step 17 (n / 100) (n / 1000) _ (omega arith) (omega arith)
    ∙ digits_from-step 16 (n / 1000) (n / 10000) _ (omega arith) (omega arith)
    ∙ digits_from-step 15 (n / 10000) (n / 100000) _ (omega arith) (omega arith)
    ∙ digits_from-step 14 (n / 100000) (n / 1000000) _ (omega arith) (omega arith)
    ∙ digits_from-acc 14 (n / 1000000) _

abbrev ten_to : ℕ → ℕ
ten_to zero = 1
ten_to (suc k) = 10 * ten_to k

-- More rounds than digits make no difference.
digits_from-enough :
    (k fuel n : ℕ) (acc : Text)
    → n < ten_to (suc k)
    → k < fuel
    → digits_from fuel n acc ≡ digits_from (suc k) n acc
unfolding digits_from
digits_from-enough k zero n acc h e = absurd (omega arith)
digits_from-enough zero (suc fuel) n acc h e = ground arith
digits_from-enough (suc k) (suc fuel) n acc h e = elim (Bool-cases (ltb n 10)) [
  | inl t ↦ rw (t, digits_from) refl
  | inr t ↦
      rw (t, digits_from)
        (digits_from-enough k fuel (n / 10) (digit n ∷ acc) (ground arith) (omega arith))
]

length-digits_from : (fuel n : ℕ) (acc : Text) → length (digits_from fuel n acc) ≤ fuel + length acc
unfolding digits_from
length-digits_from zero n acc = omega arith
length-digits_from (suc fuel) n acc =
    ground (arith, length-digits_from fuel (n / 10) (digit n ∷ acc))

i64_to_a-digits : (n : ℕ) → n < 9223372036854775808 → i64_to_a n ≡ digits_from 20 n []
unfolding i64_to_a
i64_to_a-digits n h = rw e refl
  where
    e : is_negative64 n ≡ false
    e = ground arith

-- The text of a number of at most k digits has at most k characters.
short_text :
    (k n : ℕ) → n < ten_to (suc k) → k < 18 → n < 9223372036854775808 → length (i64_to_a n) ≤ suc k
short_text k n h l p =
    rw (i64_to_a-digits n p, digits_from-enough k 20 n [] h (omega arith))
      (omega (arith, length-digits_from (suc k) n []))

i64_to_a-six :
    (n : ℕ)
    → 1000000 ≤ n
    → n < 100000000000000000
    → i64_to_a n
      ≡ i64_to_a (n / 1000000)
        ++ digit (n / 100000)
          ∷ digit (n / 10000)
          ∷ digit (n / 1000)
          ∷ digit (n / 100)
          ∷ digit (n / 10)
          ∷ digit n
          ∷ []
i64_to_a-six n l h =
    i64_to_a-digits n (omega arith)
    ∙ digits_from-six n l
    ∙ ap (λ (t : Text). t ++ last_six)
        (digits_from-enough 13 14 (n / 1000000) [] (omega arith) (omega arith)
          ∙ sym (digits_from-enough 13 20 (n / 1000000) [] (omega arith) (omega arith))
          ∙ sym (i64_to_a-digits (n / 1000000) (omega arith)))
  where
    last_six : Text
    last_six =
        digit (n / 100000)
        ∷ digit (n / 10000)
        ∷ digit (n / 1000)
        ∷ digit (n / 100)
        ∷ digit (n / 10)
        ∷ digit n
        ∷ []

-- A scaled price of at least 1000000 (a price of one) and less than 10 ^ 17 is written with its
-- integer part, a point and five digits of the rest: the sixth digit is cut off.
pub format_price-i64_to_a :
    (n : ℕ)
    → 1000000 ≤ n
    → n < 100000000000000000
    → format_price (i64_to_a n)
      ≡ some (
          i64_to_a (n / 1000000)
          ++ b'.'
            ∷ digit (n / 100000)
            ∷ digit (n / 10000)
            ∷ digit (n / 1000)
            ∷ digit (n / 100)
            ∷ digit (n / 10)
            ∷ 0
            ∷ [])
format_price-i64_to_a n l h =
    fits (i64_to_a n) (short_text 16 n (omega arith) (omega arith) (omega arith))
    ∙ ap (λ (t : Text). insert_point (t ++ 0 ∷ [])) (i64_to_a-six n l h)
    ∙ ap insert_point (append_assoc (i64_to_a (n / 1000000)) _ (0 ∷ []))
    ∙ insert_point-append (i64_to_a (n / 1000000)) _ _ _ _ _ _ 0

-- A scaled price of less than 100000 (a price of less than a tenth) makes the moves of bytes read in
-- front of the buffer.
pub format_price-small : (n : ℕ) → n < 100000 → format_price (i64_to_a n) ≡ none
format_price-small n h =
    fits (i64_to_a n) (omega (arith, short))
    ∙ insert_point-short (i64_to_a n ++ 0 ∷ [])
        (ground (arith, short, length-append (i64_to_a n) (0 ∷ [])))
  where
    short : length (i64_to_a n) ≤ 5
    short = short_text 4 n (omega arith) (omega arith) (omega arith)

module _ {D : Type 0} ⦃num : Platform D⦄ where
  -- A price above zero, with a price step, that scales to at least 1000000 (a price of one) and to
  -- less than 10 ^ 17: whatever stood in the result, it is then the integer part of the price, a
  -- point, five digits of the rest and the terminator.
  pub convert_price_to_str-positive :
      (price : D) (s : Security D) (result : Text)
      → num.eq_double price num.zero_double ≡ false
      → num.eq_double s.step_size num.zero_double ≡ false
      → num.lt_double price num.zero_double ≡ false
      → 1000000 ≤ long_price price s.step_size
      → long_price price s.step_size < 100000000000000000
      → convert_price_to_str price s result
        ≡ some (
            i64_to_a (long_price price s.step_size / 1000000)
            ++ b'.'
              ∷ digit (long_price price s.step_size / 100000)
              ∷ digit (long_price price s.step_size / 10000)
              ∷ digit (long_price price s.step_size / 1000)
              ∷ digit (long_price price s.step_size / 100)
              ∷ digit (long_price price s.step_size / 10)
              ∷ 0
              ∷ [])
  unfolding convert_price_to_str
  convert_price_to_str-positive price s result e z p l h =
      rw (e, z, p, convert_price_to_str, not_one)
        (format_price-i64_to_a (long_price price s.step_size) l h)
    where
      not_one : (long_price price s.step_size == 1) ≡ false
      not_one = ground arith

  -- A price above zero, with a price step, that scales to more than 1 and to less than 100000 (a
  -- price of a tenth): the conversion reads in front of its buffer, a fault.
  pub convert_price_to_str-small :
      (price : D) (s : Security D) (result : Text)
      → num.eq_double price num.zero_double ≡ false
      → num.eq_double s.step_size num.zero_double ≡ false
      → num.lt_double price num.zero_double ≡ false
      → 1 < long_price price s.step_size
      → long_price price s.step_size < 100000
      → convert_price_to_str price s result ≡ none
  unfolding convert_price_to_str
  convert_price_to_str-small price s result e z p l h =
      rw (e, z, p, convert_price_to_str, not_one)
        (format_price-small (long_price price s.step_size) h)
    where
      not_one : (long_price price s.step_size == 1) ≡ false
      not_one = ground arith
