-- ===== src/AltSvc.antt =====
-- src/alt_svc.rs: the parser of the `Alt-Svc` response header and the cache entries that it makes.
pub mod Split
pub mod Offers
pub mod Print
pub mod Bounds
mod Tests
use mechanics_http_client.Prelude.{
  ℕ, zero, suc, ◌+◌, ◌*◌, ◌^◌, Bool, ◌&&◌, Option, none, some, List, [], ◌∷◌, ltb, ◌==◌, ◌||◌,
  unwrap_or, if◌then◌else◌, Run, returns, panics, out_of_fuel, ◌>>=◌, not,
}
use mechanics_http_client.Text.{
  Text, codes, str_eq, trim, trim_matches, eq_ignore_ascii_case, split_once, rsplit_once,
  strip_prefix, strip_suffix, parse_unsigned, u16_max, u64_max, byte_len,
}
use mechanics_http_client.Time.{from_secs, add_instant}
use Split.{SplitQuoted, next, split_quoted}

pub record AltSvcEntry : Type 0 where
  pub host : Option Text
  pub port : ℕ
  pub expires_at : ℕ

pub data AltSvcUpdate : Type 0 where
  clear : AltSvcUpdate
  entry : AltSvcEntry → AltSvcUpdate
  nothing : AltSvcUpdate

unfoldable pub fresh : AltSvcEntry → ℕ → Bool
fresh e now = ltb now e.expires_at

-- `host.trim_matches(['[', ']'])` and the test that follows it
unfoldable pub is_bracket : ℕ → Bool
is_bracket c = c == b'[' || c == b']'

unfoldable pub host_and_port : Text → Text → ℕ → Option (Option Text × ℕ)
host_and_port [] port origin_port = none
host_and_port (c ∷ host) port origin_port =
    some (some (c ∷ host), unwrap_or (parse_unsigned u16_max port) origin_port)

unfoldable pub parse_authority : Text → ℕ → Option (Option Text × ℕ)
unfolding is_bracket host_and_port
parse_authority raw origin_port = elim (strip_prefix b'"' raw) [
  | none ↦ none
  | some unopened ↦ elim (strip_suffix b'"' unopened) [
    | none ↦ none
    | some authority ↦ elim (strip_prefix b':' authority) [
      | some port ↦ elim (parse_unsigned u16_max port) [ none ↦ none | some p ↦ some (none, p) ]
      | none ↦ elim (rsplit_once b':' authority) [
        | none ↦ none
        | some (host, port) ↦ host_and_port (trim_matches is_bracket host) port origin_port
      ]
    ]
  ]
]

-- The body of the loop over the parameters: what one of them does to `max_age`.
unfoldable pub apply_parameter : ℕ → Text → ℕ
apply_parameter max_age part = elim (split_once b'=' (trim part)) [
  | none ↦ max_age
  | some (name, value) ↦
      if eq_ignore_ascii_case (trim name) (codes "ma")
      then elim (parse_unsigned u64_max (trim_matches (λ c. c == b'"') (trim value))) [
        | none ↦ max_age
        | some seconds ↦ from_secs seconds
      ]
      else max_age
]

-- `for part in parts`
unfoldable pub max_age_loop : ℕ → SplitQuoted → ℕ → Run ℕ
unfolding apply_parameter
max_age_loop zero parts max_age = out_of_fuel
max_age_loop (suc fuel) parts max_age = do
  (part, parts') ← next parts
  elim part [
    | none ↦ returns max_age
    | some p ↦ max_age_loop fuel parts' (apply_parameter max_age p)
  ]

abbrev pub default_max_age : ℕ
default_max_age = from_secs (24 * 60 * 60)

abbrev pub split_fuel : Text → ℕ
split_fuel raw = byte_len raw + 2

module _ (horizon : ℕ) where
  -- `parse_alternative` from the parsed authority on
  unfoldable pub finish_entry : Text → SplitQuoted → Option (Option Text × ℕ) → ℕ → Run AltSvcUpdate
  unfolding max_age_loop add_instant
  finish_entry rest parts none now = returns nothing
  finish_entry rest parts (some (host, port)) now = do
    max_age ← max_age_loop (split_fuel rest) parts default_max_age
    expires_at ← add_instant horizon now max_age
    returns (entry (record { host = host; port = port; expires_at = expires_at }))

  unfoldable pub parse_alternative : Text → ℕ → ℕ → Run AltSvcUpdate
  unfolding finish_entry
  parse_alternative raw now origin_port = elim (split_once b'=' raw) [
    | none ↦ returns nothing
    | some (protocol, rest) ↦
        if not (str_eq (trim protocol) (codes "h3")) then returns nothing else do
          (authority_raw, parts) ← next (split_quoted rest b';')
          elim authority_raw [
            | none ↦ returns nothing
            | some a ↦ finish_entry rest parts (parse_authority (trim a) origin_port) now
          ]
  ]

  -- `for alternative in split_quoted(raw, ',')`
  unfoldable pub first_supported : ℕ → SplitQuoted → ℕ → ℕ → Run AltSvcUpdate
  unfolding parse_alternative
  first_supported zero alternatives now origin_port = out_of_fuel
  first_supported (suc fuel) alternatives now origin_port = do
    (alternative, alternatives') ← next alternatives
    elim alternative [
      | none ↦ returns nothing
      | some a ↦ do
        candidate ← parse_alternative (trim a) now origin_port
        elim candidate [
          | nothing ↦ first_supported fuel alternatives' now origin_port
          | clear ↦ returns clear
          | entry e ↦ returns (entry e)
        ]
    ]

  unfoldable pub parse_str : Text → ℕ → ℕ → Run AltSvcUpdate
  unfolding first_supported
  parse_str raw now origin_port =
      if eq_ignore_ascii_case (trim raw) (codes "clear")
      then returns clear
      else first_supported (split_fuel raw) (split_quoted raw b',') now origin_port

  -- `HeaderValue::to_str` is given by its result.
  unfoldable pub parse_header : Option Text → ℕ → ℕ → Run AltSvcUpdate
  unfolding parse_str
  parse_header none now origin_port = returns nothing
  parse_header (some raw) now origin_port = parse_str raw now origin_port
