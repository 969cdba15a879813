-- ===== src/AltSvc/Print/RoundTrip.antt =====
-- The parser reads a printed alternative back.
use mechanics_http_client.Prelude.{
  ℕ, ◌+◌, ◌≤◌, ◌≡◌, refl, sym, ap, ◌∙◌, true, false, some, [], ◌∷◌, ◌++◌, append-nil, arith, ◌==◌,
  returns,
}
use mechanics_http_client.Text.{
  Text, codes, str_eq, is_whitespace, trim, trim_matches, split_once, strip_prefix,
  eq_ignore_ascii_case, decimal, u16_max, u64_max,
}
use mechanics_http_client.Text.Decimals.{
  all, trim_matches-append, all-reverse, Starts, is_digit, digits-Starts, reverse-ne-nil,
  decimal-digits, parse_unsigned-decimal,
}
use mechanics_http_client.Time.{from_secs, add_instant}
use mechanics_http_client.AltSvc.{
  entry, host_and_port, parse_authority, apply_parameter, default_max_age, parse_str,
}
use mechanics_http_client.AltSvc.Offers.{offer_of, offer, first_offer, parse_str-first_offer}
use mechanics_http_client.AltSvc.Print.{Ends-append, trim_matches-same}
use mechanics_http_client.AltSvc.Print.Parts.{
  all-Starts, is_name, print, host_of, after_host, age-digits, age-Ends, pieces_comma,
  pieces_semicolon, authority, parameter, trim_host, closed, split_port,
}

authority_parsed :
    (host : Text) (port age origin_port : ℕ) (name : all is_name host ≡ true)
    → port ≤ u16_max
    → parse_authority (authority host port age name) origin_port ≡ some (host_of host, port)
unfolding parse_authority strip_prefix host_and_port all
authority_parsed [] port age origin_port name fits =
    rw (parse_authority, closed [] port age name)
      (rw (parse_unsigned-decimal u16_max port fits) refl)
authority_parsed (c ∷ host) port age origin_port name fits =
    let no_colon : (c == b':') ≡ false = ground arith in
    rw (parse_authority, closed (c ∷ host) port age name)
      (rw (no_colon, split_port (c ∷ host) port age name)
        (rw (trim_host (c ∷ host) port age name (λ e. cc), parse_unsigned-decimal u16_max port fits)
          refl))

module _ (host : Text) (port age : ℕ) (name : all is_name host ≡ true) where
  trim-authority : trim (authority host port age name) ≡ authority host port age name
  unfolding trim is_whitespace
  trim-authority = trim_matches-same is_whitespace (authority host port age name) refl (
      Ends-append is_whitespace (codes "\"") (host ++ (codes ":" ++ (decimal port ++ codes "\""))) (
        Ends-append is_whitespace host (codes ":" ++ (decimal port ++ codes "\"")) (
          Ends-append is_whitespace (codes ":") (decimal port ++ codes "\"")
            (Ends-append is_whitespace (decimal port) (codes "\"") refl))))

  trim-print : trim (print host port age) ≡ print host port age
  unfolding trim is_whitespace print
  trim-print = trim_matches-same is_whitespace (print host port age) refl (
      Ends-append is_whitespace (codes "h3=\"") (host ++ after_host port age) (
        Ends-append is_whitespace host (after_host port age) (
          Ends-append is_whitespace (codes ":") (decimal port ++ (codes "\"; ma=" ++ decimal age)) (
            Ends-append is_whitespace (decimal port) (codes "\"; ma=" ++ decimal age) (
              Ends-append is_whitespace (codes "\"; ma=") (decimal age)
                (age-Ends host port age name))))))

  not_clear : eq_ignore_ascii_case (trim (print host port age)) (codes "clear") ≡ false
  unfolding eq_ignore_ascii_case str_eq print
  not_clear = rw trim-print refl

  digit-quote : (c : ℕ) → is_digit c ≡ true → (c == b'"') ≡ false
  digit-quote c h = ground arith

  age-Starts : Starts is_whitespace (decimal age)
  age-Starts = digits-Starts (decimal age) (age-digits host port age name) (decimal-digits 0 age).1

  trim_age : trim (decimal age) ≡ decimal age
  unfolding trim
  trim_age = trim_matches-same is_whitespace (decimal age) age-Starts (age-Ends host port age name)

  unquote_age : trim_matches (λ c. c == b'"') (decimal age) ≡ decimal age
  unquote_age =
      trim_matches-same (λ c. c == b'"') (decimal age)
        (all-Starts is_digit (λ c. c == b'"') (decimal age) digit-quote
          (age-digits host port age name) (decimal-digits 0 age).1)
        (all-Starts is_digit (λ c. c == b'"') _ digit-quote
          (all-reverse is_digit _ (age-digits host port age name))
          (reverse-ne-nil _ (decimal-digits 0 age).1))

  trim-parameter : trim (parameter host port age name) ≡ codes "ma=" ++ decimal age
  unfolding trim all is_whitespace
  trim-parameter =
      ap trim (ap (λ x. codes " ma=" ++ x) (sym (append-nil (decimal age))))
      ∙ trim_matches-append is_whitespace (codes " ") (codes "ma=" ++ decimal age) [] refl refl refl
          (Ends-append is_whitespace (codes "ma=") (decimal age) (age-Ends host port age name))

  age_applied :
      (m : ℕ) → age ≤ u64_max → apply_parameter m (parameter host port age name) ≡ from_secs age
  unfolding apply_parameter split_once eq_ignore_ascii_case trim str_eq
  age_applied m fits =
      rw (apply_parameter, trim-parameter)
        (rw trim_age (rw unquote_age (rw (parse_unsigned-decimal u64_max age fits) refl)))

  offered :
      (origin_port : ℕ)
      → port ≤ u16_max
      → age ≤ u64_max
      → offer (print host port age) origin_port
        ≡ some (record { host = host_of host; port = port; max_age = from_secs age })
  unfolding offer offer_of print split_once trim str_eq
  offered origin_port p a =
      let authority_found : parse_authority (trim (authority host port age name)) origin_port
          ≡ some (host_of host, port) =
        ap (λ x. parse_authority x origin_port) trim-authority
        ∙ authority_parsed host port age origin_port name p in
      rw (pieces_semicolon host port age name)
        (rw (offer_of, authority_found) (rw (age_applied default_max_age a) refl))

  first_found :
      (origin_port : ℕ)
      → port ≤ u16_max
      → age ≤ u64_max
      → first_offer (print host port age ∷ []) origin_port
        ≡ some (record { host = host_of host; port = port; max_age = from_secs age })
  unfolding first_offer
  first_found origin_port p a =
      let found = ap (λ x. offer x origin_port) trim-print ∙ offered origin_port p a in
      rw (first_offer, found) refl

  -- The header `h3="host:port"; ma=age`, with a host of letters, digits, `-` and `.`, or an empty one, a
  -- 16-bit port and a 64-bit age, is read back: the entry has that host, or that of the origin if it is
  -- empty, and that port, and expires that many seconds from now, if there is such an instant.
  pub parse_str-print :
      (horizon now origin_port : ℕ)
      → port ≤ u16_max
      → age ≤ u64_max
      → now + from_secs age ≤ horizon
      → parse_str horizon (print host port age) now origin_port
        ≡ returns
            (entry (record { host = host_of host; port = port; expires_at = now + from_secs age }))
  unfolding first_offer add_instant
  parse_str-print horizon now origin_port p a room =
      parse_str-first_offer horizon (print host port age) now origin_port
      ∙ rw (not_clear, pieces_comma host port age name, first_found origin_port p a) (ground arith)
