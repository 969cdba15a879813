-- ===== src/Text.antt =====
-- The parts of Rust's `str` and integer parsing that the sources call, over lists of code points.
-- Offsets are bytes of UTF-8, as in Rust.
pub mod Slices
pub mod Numbers
pub mod Decimals
use Prim.Native.Char.{code}
use mechanics_http_client.Prelude.{
  ℕ, zero, suc, ◌+◌, ◌-◌, ◌*◌, ◌/◌, ◌%◌, ◌^◌, String, Bool, true, false, ◌&&◌, ◌||◌, Option, none,
  some, List, [], ◌∷◌, map, Run, returns, panics, ◌>>=◌, reverse, ltb, leb, ◌==◌, if◌then◌else◌,
}

abbrev pub Text : Type 0
Text = List ℕ

-- The code points of a literal.
abbrev pub codes : String → Text
codes String.[] = []
codes (String.◌∷◌ c s) = code c ∷ codes s

-- `str::eq`
unfoldable pub str_eq : Text → Text → Bool
str_eq [] [] = true
str_eq (x ∷ xs) (y ∷ ys) = x == y && str_eq xs ys
str_eq _ _ = false

-- `char::is_whitespace`: the code points with the Unicode property White_Space
unfoldable pub is_whitespace : ℕ → Bool
is_whitespace c =
    (leb 9 c && leb c 13)
    || c == 32
    || c == 0x85
    || c == 0xa0
    || c == 0x1680
    || (leb 0x2000 c && leb c 0x200a)
    || c == 0x2028
    || c == 0x2029
    || c == 0x202f
    || c == 0x205f
    || c == 0x3000

unfoldable pub skip_while : (ℕ → Bool) → Text → Text
skip_while p [] = []
skip_while p (c ∷ s) = if p c then skip_while p s else c ∷ s

-- `str::trim_matches`, and `str::trim`
unfoldable pub trim_matches : (ℕ → Bool) → Text → Text
unfolding skip_while
trim_matches p s = reverse (skip_while p (reverse (skip_while p s)))

unfoldable pub trim : Text → Text
unfolding trim_matches is_whitespace
trim = trim_matches is_whitespace

-- `char::to_ascii_lowercase`, `str::to_ascii_lowercase` and `str::eq_ignore_ascii_case`
unfoldable pub to_ascii_lower : ℕ → ℕ
to_ascii_lower c = if leb b'A' c && leb c b'Z' then c + 32 else c

unfoldable pub to_ascii_lowercase : Text → Text
unfolding to_ascii_lower
to_ascii_lowercase = map to_ascii_lower

unfoldable pub eq_ignore_ascii_case : Text → Text → Bool
unfolding to_ascii_lowercase str_eq
eq_ignore_ascii_case s t = str_eq (to_ascii_lowercase s) (to_ascii_lowercase t)

-- `str::split_once` at a character
unfoldable pub split_once : ℕ → Text → Option (Text × Text)
split_once sep [] = none
split_once sep (c ∷ s) =
    if c == sep
    then some ([], s)
    else elim (split_once sep s) [ none ↦ none | some (a, b) ↦ some (c ∷ a, b) ]

-- `str::rsplit_once` at a character
unfoldable pub rsplit_once : ℕ → Text → Option (Text × Text)
unfolding split_once
rsplit_once sep s = elim (split_once sep (reverse s)) [
  | none ↦ none
  | some (a, b) ↦ some (reverse b, reverse a)
]

-- `str::strip_prefix` and `str::strip_suffix` of a character
unfoldable pub strip_prefix : ℕ → Text → Option Text
strip_prefix p [] = none
strip_prefix p (c ∷ s) = if c == p then some s else none

unfoldable pub strip_suffix : ℕ → Text → Option Text
unfolding strip_prefix
strip_suffix p s = elim (strip_prefix p (reverse s)) [ none ↦ none | some r ↦ some (reverse r) ]

-- `str::starts_with` and `str::contains` of a text
unfoldable pub starts_with : Text → Text → Bool
starts_with s [] = true
starts_with [] (p ∷ ps) = false
starts_with (c ∷ s) (p ∷ ps) = c == p && starts_with s ps

unfoldable pub contains : Text → Text → Bool
unfolding starts_with
contains [] p = starts_with [] p
contains (c ∷ s) p = starts_with (c ∷ s) p || contains s p

-- `str::parse` for an unsigned integer type with the given largest value: an optional `+`, then
-- one or more digits; `none` for anything else and for a value out of range.
unfoldable pub parse_digits : ℕ → ℕ → Text → Option ℕ
parse_digits max acc [] = some acc
parse_digits max acc (c ∷ s) =
    let n = acc * 10 + (c - 48) in
    let rest = parse_digits max n s in
    if leb 48 c && leb c 57 then (if ltb max n then none else rest) else none

unfoldable pub strip_plus : Text → Text
strip_plus [] = []
strip_plus (c ∷ s) = if c == b'+' then s else c ∷ s

unfoldable pub parse_nonempty : ℕ → Text → Option ℕ
unfolding parse_digits
parse_nonempty max [] = none
parse_nonempty max (c ∷ s) = parse_digits max 0 (c ∷ s)

unfoldable pub parse_unsigned : ℕ → Text → Option ℕ
unfolding strip_plus parse_nonempty
parse_unsigned max s = parse_nonempty max (strip_plus s)

abbrev pub u16_max : ℕ
u16_max = 65535

abbrev pub u64_max : ℕ
u64_max = 2 ^ 64 - 1

-- The decimal digits of a number, as `Display` prints them.
unfoldable pub decimal_from : ℕ → ℕ → Text → Text
decimal_from zero n acc = acc
decimal_from (suc fuel) n acc =
    let rest = decimal_from fuel (n / 10) ((n % 10 + 48) ∷ acc) in
    if ltb n 10 then (n + 48) ∷ acc else rest

unfoldable pub decimal : ℕ → Text
unfolding decimal_from
decimal n = decimal_from (suc n) n []

-- `char::len_utf8` and `str::len`
unfoldable pub len_utf8 : ℕ → ℕ
len_utf8 c = if ltb c 0x80 then 1 else if ltb c 0x800 then 2 else if ltb c 0x10000 then 3 else 4

unfoldable pub byte_len : Text → ℕ
unfolding len_utf8
byte_len [] = 0
byte_len (c ∷ s) = len_utf8 c + byte_len s

-- `&s[n..]`, `&s[..n]` and `&s[a..b]`: a bound that is past the end or inside a character panics.
unfoldable pub slice_from : Text → ℕ → Run Text
unfolding len_utf8
slice_from s zero = returns s
slice_from [] (suc n) = panics
slice_from (c ∷ s) (suc n) =
    if ltb (suc n) (len_utf8 c) then panics else slice_from s (suc n - len_utf8 c)

unfoldable pub slice_to : Text → ℕ → Run Text
unfolding len_utf8
slice_to s zero = returns []
slice_to [] (suc n) = panics
slice_to (c ∷ s) (suc n) =
    let rest = slice_to s (suc n - len_utf8 c) in
    if ltb (suc n) (len_utf8 c) then panics else do t ← rest; returns (c ∷ t)

unfoldable pub slice : Text → ℕ → ℕ → Run Text
unfolding slice_from slice_to
slice s a b = if ltb b a then panics else do t ← slice_from s a; slice_to t (b - a)
