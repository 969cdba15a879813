-- ===== src/AltSvc/Print/Parts.antt =====
-- A printed alternative, part by part: its pieces, its authority, its age, and the whole.
use mechanics_http_client.Prelude.{
  ℕ, ◌≤◌, ◌≡◌, ◌≢◌, refl, sym, ap, ◌∙◌, Bool, true, false, not, ◌&&◌, ◌||◌, Option, none, some, [],
  ◌∷◌, ◌++◌, append-nil, append_assoc, arith, leb, ◌==◌,
}
use mechanics_http_client.Text.{
  Text, codes, is_whitespace, trim_matches, rsplit_once, strip_suffix, decimal,
}
use mechanics_http_client.Text.Decimals.{
  all, all-reverse, Starts, is_digit, digits-Starts, reverse-ne-nil, decimal-digits,
}
use mechanics_http_client.AltSvc.{is_bracket}
use mechanics_http_client.AltSvc.Split.Pieces.{onto, pieces_from, pieces}
use mechanics_http_client.AltSvc.Print.{
  plain, pieces_from-append, rsplit_once-append, strip_suffix-append, Ends, trim_matches-same,
}

-- The characters of a host name: letters, digits, `-` and `.`.
abbrev pub is_name : ℕ → Bool
is_name c =
    (leb b'a' c && leb c b'z')
    || (leb b'A' c && leb c b'Z')
    || (leb 48 c && leb c 57)
    || c == b'-'
    || c == b'.'

-- `:port`, then the end of the quotes, then the age.
abbrev pub after_host : ℕ → ℕ → Text
after_host port age = codes ":" ++ (decimal port ++ (codes "\"; ma=" ++ decimal age))

-- The alternative, with an age in seconds; an empty host is that of the origin.
unfoldable pub print : Text → ℕ → ℕ → Text
print host port age = codes "h3=\"" ++ (host ++ after_host port age)

abbrev pub host_of : Text → Option Text
host_of [] = none
host_of (c ∷ host) = some (c ∷ host)

all-imp :
    (p q : ℕ → Bool) (s : Text)
    → ((c : ℕ) → p c ≡ true → q c ≡ true)
    → all p s ≡ true
    → all q s ≡ true
unfolding all
all-imp p q [] f h = refl
all-imp p q (c ∷ s) f h = ground (arith, f c, all-imp p q s f)

pub all-Starts :
    (p q : ℕ → Bool) (s : Text)
    → ((c : ℕ) → p c ≡ true → q c ≡ false)
    → all p s ≡ true
    → s ≢ []
    → Starts q s
unfolding all
all-Starts p q [] f h n = absurd (n refl)
all-Starts p q (c ∷ s) f h n = f c (ground arith)

digit-plain :
    (separator : ℕ) (quoted : Bool) (c : ℕ)
    → 58 ≤ separator
    → is_digit c ≡ true
    → plain separator quoted c ≡ true
digit-plain separator quoted c s h = ground arith

comma-plain : (quoted : Bool) (c : ℕ) → is_digit c ≡ true → plain b',' quoted c ≡ true
comma-plain quoted c h = ground arith

name-plain : (separator c : ℕ) → is_name c ≡ true → plain separator true c ≡ true
name-plain separator c h = ground arith

module _ (host : Text) (port age : ℕ) (name : all is_name host ≡ true) where
  pub age-digits : all is_digit (decimal age) ≡ true
  age-digits = (decimal-digits 0 age).0

  port-digits : all is_digit (decimal port) ≡ true
  port-digits = (decimal-digits 0 port).0

  pub age-Ends : Ends is_whitespace (decimal age)
  age-Ends =
      digits-Starts _ (all-reverse is_digit _ age-digits)
        (reverse-ne-nil _ (decimal-digits 0 age).1)

  age_pieces :
      (separator : ℕ)
      → ((c : ℕ) → is_digit c ≡ true → plain separator false c ≡ true)
      → pieces_from separator false (decimal age) ≡ decimal age ∷ []
  unfolding pieces_from
  age_pieces separator f =
      ap (pieces_from separator false) (sym (append-nil (decimal age)))
      ∙ pieces_from-append separator false (decimal age) [] [] []
          (all-imp is_digit _ _ f age-digits) refl
      ∙ ap (λ x. x ∷ []) (append-nil (decimal age))

  pub pieces_comma : pieces b',' (print host port age) ≡ print host port age ∷ []
  unfolding pieces pieces_from print
  pieces_comma =
      ap (λ x. onto b'h' (onto b'3' (onto b'=' (onto b'"' x))))
        (pieces_from-append b',' true host (after_host port age) _ []
          (all-imp is_name _ host (name-plain b',') name)
          (ap (onto b':') (
            pieces_from-append b',' true (decimal port) _ _ []
              (all-imp is_digit _ _ (comma-plain true) port-digits)
              (ap (λ x. onto b'"' (onto b';' (onto b' ' (onto b'm' (onto b'a' (onto b'=' x))))))
                (age_pieces b',' (comma-plain false))))))

  abbrev pub authority : Text
  authority = codes "\"" ++ (host ++ (codes ":" ++ (decimal port ++ codes "\"")))

  abbrev pub parameter : Text
  parameter = codes " ma=" ++ decimal age

  pub pieces_semicolon :
      pieces b';' (codes "\"" ++ (host ++ after_host port age)) ≡ authority ∷ parameter ∷ []
  unfolding pieces pieces_from
  pieces_semicolon = ap (onto b'"') (
      pieces_from-append b';' true host (after_host port age) _ (parameter ∷ [])
        (all-imp is_name _ host (name-plain b';') name)
        (ap (onto b':') (
          pieces_from-append b';' true (decimal port) _ _ (parameter ∷ [])
            (all-imp is_digit _ _ (λ c. digit-plain b';' true c (omega arith)) port-digits)
            (ap (λ x. onto b'"' ([] ∷ onto b' ' (onto b'm' (onto b'a' (onto b'=' x)))))
              (age_pieces b';' (λ c. digit-plain b';' false c (omega arith)))))))

  name-bracket : (c : ℕ) → is_name c ≡ true → is_bracket c ≡ false
  unfolding is_bracket
  name-bracket c h = ground arith

  digit-colon : (c : ℕ) → is_digit c ≡ true → not (c == b':') ≡ true
  digit-colon c h = ground arith

  pub trim_host : host ≢ [] → trim_matches is_bracket host ≡ host
  trim_host n =
      trim_matches-same is_bracket host (all-Starts is_name is_bracket host name-bracket name n) (
        all-Starts is_name is_bracket _ name-bracket (all-reverse is_name host name)
          (reverse-ne-nil host n))

  -- The authority without its quotes.
  abbrev pub unquoted : Text
  unquoted = host ++ (codes ":" ++ decimal port)

  pub closed :
      strip_suffix b'"' (host ++ (codes ":" ++ (decimal port ++ codes "\""))) ≡ some unquoted
  closed =
      ap (strip_suffix b'"') (sym (append_assoc host (codes ":" ++ decimal port) (codes "\"")))
      ∙ strip_suffix-append b'"' unquoted

  pub split_port : rsplit_once b':' unquoted ≡ some (host, decimal port)
  split_port =
      rsplit_once-append b':' host (decimal port) (all-imp is_digit _ _ digit-colon port-digits)
