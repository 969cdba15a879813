-- ===== src/Text/Numbers.antt =====
-- Parsed integers and the range of their type.
use mechanics_http_client.Prelude.{ℕ, ◌+◌, ◌-◌, ◌*◌, ◌≤◌, ◌≡◌, some, [], ◌∷◌, arith}
use mechanics_http_client.Text.{Text, parse_digits, strip_plus, parse_nonempty, parse_unsigned}

parse_digits-le :
    (max acc : ℕ) (s : Text) (n : ℕ) → acc ≤ max → parse_digits max acc s ≡ some n → n ≤ max
unfolding parse_digits
parse_digits-le max acc [] n h e = ground arith
parse_digits-le max acc (c ∷ s) n h e =
    ground (arith, parse_digits-le max (acc * 10 + (c - 48)) s n)

parse_nonempty-le : (max : ℕ) (s : Text) (n : ℕ) → parse_nonempty max s ≡ some n → n ≤ max
unfolding parse_nonempty
parse_nonempty-le max [] n e = cc
parse_nonempty-le max (c ∷ s) n e = parse_digits-le max 0 (c ∷ s) n (omega arith) e

pub parse_unsigned-le : (max : ℕ) (s : Text) (n : ℕ) → parse_unsigned max s ≡ some n → n ≤ max
unfolding parse_unsigned
parse_unsigned-le max s n e = parse_nonempty-le max (strip_plus s) n e
