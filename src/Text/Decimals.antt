-- ===== src/Text/Decimals.antt =====
-- Printed numbers are read back, with white space around them.
use mathlib.Core.List.{reverse-append, reverse-reverse, reverse-cons}
use mechanics_http_client.Prelude.{
  ℕ, zero, suc, ◌+◌, ◌/◌, ◌%◌, ◌≤◌, ◌<◌, ◌≡◌, ◌≢◌, refl, sym, ap, ◌∙◌, Bool, true, false, ◌&&◌,
  some, [], ◌∷◌, ◌++◌, arith, reverse, ltb, leb, ◌==◌, Bool-cases, inl, inr, append-nil,
}
use mechanics_http_client.Text.{
  Text, is_whitespace, skip_while, trim_matches, trim, parse_digits, strip_plus, parse_nonempty,
  parse_unsigned, decimal_from, decimal,
}

-- Every character of a text passes a test.
unfoldable pub all : (ℕ → Bool) → Text → Bool
all p [] = true
all p (c ∷ s) = p c && all p s

module _ (p : ℕ → Bool) where
  all-append : (s t : Text) → all p s ≡ true → all p t ≡ true → all p (s ++ t) ≡ true
  unfolding all
  all-append [] t h k = k
  all-append (c ∷ s) t h k = ground (arith, all-append s t)

  pub all-reverse : (s : Text) → all p s ≡ true → all p (reverse s) ≡ true
  unfolding all
  all-reverse [] h = refl
  all-reverse (c ∷ s) h =
      rw reverse-cons
        (all-append (reverse s) (c ∷ []) (all-reverse s (ground arith)) (ground arith))

  skip_while-append : (s t : Text) → all p s ≡ true → skip_while p (s ++ t) ≡ skip_while p t
  unfolding all skip_while
  skip_while-append [] t h = refl
  skip_while-append (c ∷ s) t h = ground (arith, skip_while-append s t)

  skip_while-all : (s : Text) → all p s ≡ true → skip_while p s ≡ []
  unfolding all skip_while
  skip_while-all [] h = refl
  skip_while-all (c ∷ s) h = ground (arith, skip_while-all s)

  -- The head of a text, if it has one, fails the test.
  abbrev pub Starts : Text → Type 0
  Starts [] = ⊥
  Starts (c ∷ s) = p c ≡ false

  skip_while-Starts : (s t : Text) → Starts s → skip_while p (s ++ t) ≡ s ++ t
  unfolding skip_while
  skip_while-Starts [] t h = elim h [ ]
  skip_while-Starts (c ∷ s) t h = rw h refl

  pub trim_matches-append :
      (before s after : Text)
      → all p before ≡ true
      → all p after ≡ true
      → Starts s
      → Starts (reverse s)
      → trim_matches p (before ++ (s ++ after)) ≡ s
  unfolding trim_matches
  trim_matches-append before s after b a h k =
      ap (λ x. reverse (skip_while p (reverse x)))
        (skip_while-append before (s ++ after) b ∙ skip_while-Starts s after h)
      ∙ ap (λ x. reverse (skip_while p x)) (reverse-append s after)
      ∙ ap reverse (skip_while-append (reverse after) (reverse s) (all-reverse after a))
      ∙ ap reverse (
          ap (skip_while p) (sym (append-nil (reverse s)))
          ∙ skip_while-Starts (reverse s) [] k
          ∙ append-nil (reverse s))
      ∙ reverse-reverse s

abbrev pub is_digit : ℕ → Bool
is_digit c = leb 48 c && leb c 57

digit-is_whitespace : (c : ℕ) → is_digit c ≡ true → is_whitespace c ≡ false
unfolding is_whitespace
digit-is_whitespace c h = ground arith

pub digits-Starts : (s : Text) → all is_digit s ≡ true → s ≢ [] → Starts is_whitespace s
unfolding all
digits-Starts [] h n = absurd (n refl)
digits-Starts (c ∷ s) h n = digit-is_whitespace c (ground arith)

pub reverse-ne-nil : (s : Text) → s ≢ [] → reverse s ≢ []
reverse-ne-nil s n e = n (sym (reverse-reverse s) ∙ ap reverse e)

-- What is printed: digits, one at least.
decimal_from-digits :
    (fuel n : ℕ) (out : Text)
    → n < fuel
    → all is_digit out ≡ true
    → (all is_digit (decimal_from fuel n out) ≡ true) × (decimal_from fuel n out ≢ [])
unfolding decimal_from all
decimal_from-digits zero n out h k = absurd (omega arith)
decimal_from-digits (suc fuel) n out h k = elim (Bool-cases (ltb n 10)) [
  | inl small ↦ rw small (ground arith, λ e. cc)
  | inr large ↦
      rw large
        (decimal_from-digits fuel (n / 10) ((n % 10 + 48) ∷ out) (ground arith) (ground arith))
]

-- Reading what is printed of `n` before `out` is reading `out` after `n`.
parse_digits-decimal_from :
    (max fuel n : ℕ) (out : Text)
    → n < fuel
    → n ≤ max
    → parse_digits max 0 (decimal_from fuel n out) ≡ parse_digits max n out
unfolding decimal_from parse_digits
parse_digits-decimal_from max zero n out h fits = absurd (omega arith)
parse_digits-decimal_from max (suc fuel) n out h fits = elim (Bool-cases (ltb n 10)) [
  | inl small ↦ rw small (ground arith)
  | inr large ↦ rw large (
      parse_digits-decimal_from max fuel (n / 10) ((n % 10 + 48) ∷ out) (ground arith)
        (ground arith)
      ∙ last (ground arith))
]
  where
    last : 10 ≤ n → parse_digits max (n / 10) ((n % 10 + 48) ∷ out) ≡ parse_digits max n out
    last big = ground arith

parse_unsigned-digits :
    (max : ℕ) (s : Text)
    → all is_digit s ≡ true
    → s ≢ []
    → parse_unsigned max s ≡ parse_digits max 0 s
unfolding parse_unsigned strip_plus parse_nonempty all
parse_unsigned-digits max [] h n = absurd (n refl)
parse_unsigned-digits max (c ∷ s) h n =
    let no_plus : (c == b'+') ≡ false = ground arith in rw no_plus refl

module _ (max n : ℕ) where
  pub decimal-digits : (all is_digit (decimal n) ≡ true) × (decimal n ≢ [])
  unfolding decimal
  decimal-digits = decimal_from-digits (suc n) n [] (omega arith) (unfold all in refl)

  -- A number of the type is read back from its decimal digits.
  pub parse_unsigned-decimal : n ≤ max → parse_unsigned max (decimal n) ≡ some n
  unfolding decimal parse_digits
  parse_unsigned-decimal fits =
      parse_unsigned-digits max (decimal n) decimal-digits.0 decimal-digits.1
      ∙ parse_digits-decimal_from max (suc n) n [] (omega arith) fits

  -- The same, with white space before and after.
  pub parse_unsigned-trim :
      (before after : Text)
      → all is_whitespace before ≡ true
      → all is_whitespace after ≡ true
      → n ≤ max
      → parse_unsigned max (trim (before ++ (decimal n ++ after))) ≡ some n
  unfolding trim
  parse_unsigned-trim before after b a fits =
      let (digits, nonempty) = decimal-digits in
      ap (parse_unsigned max) (
        trim_matches-append is_whitespace before (decimal n) after b a
          (digits-Starts _ digits nonempty)
          (digits-Starts _ (all-reverse is_digit _ digits) (reverse-ne-nil _ nonempty)))
      ∙ parse_unsigned-decimal fits
