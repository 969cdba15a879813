-- ===== src/AltSvc/Tests.antt =====
-- Runs of the parser of `Alt-Svc`.
use mechanics_http_client.Prelude.{
  ℕ, ◌+◌, ◌≡◌, ◌↔◌, ◌<◌, refl, true, false, none, some, [], ◌∷◌, arith, Run, returns, panics,
}
use mechanics_http_client.Text.{
  Text, codes, trim, eq_ignore_ascii_case, byte_len, split_once, rsplit_once, strip_prefix,
  strip_suffix, parse_unsigned, str_eq,
}
use mechanics_http_client.Time.{from_secs, add_instant}
use mechanics_http_client.AltSvc.{
  AltSvcEntry, AltSvcUpdate, parse_str, clear, entry, parse_authority,
}
use mechanics_http_client.AltSvc.Split.{next, split_quoted}
use mechanics_http_client.AltSvc.Split.Pieces.{pieces, drain, drain-split_quoted}
use mechanics_http_client.AltSvc.Offers.{Offer, first_offer, parse_str-first_offer}
use mechanics_http_client.AltSvc.Print.Parts.{is_name, print}
use mechanics_http_client.AltSvc.Print.RoundTrip.{parse_str-print}
use mechanics_http_client.Text.Decimals.{all}
use mechanics_http_client.AltSvc.Bounds.{parse_str_panics_iff}

abbrev horizon : ℕ
horizon = 100_000_000_000

abbrev header : Text
header = codes "h2=\":1\", h3=\":8443\"; ma=60"

abbrev offered : AltSvcEntry
offered = record { host = none; port = 8443; expires_at = 60_000_000_005 }

-- The parser, with what it calls.
abbrev run_parser : Text → Run AltSvcUpdate
unfolding parse_str eq_ignore_ascii_case trim byte_len next split_quoted split_once parse_authority
    strip_prefix strip_suffix rsplit_once parse_unsigned str_eq add_instant
run_parser raw = parse_str horizon raw 5 443

takes_the_h3_offer : run_parser header ≡ returns (entry offered)
unfolding run_parser
takes_the_h3_offer = refl

reads_quotes_and_the_last_age :
    run_parser (codes "h3=\"a,b:x\"; ma=61; ma=\"+62\"")
    ≡ returns
        (entry (record { host = some (codes "a,b"); port = 443; expires_at = 62_000_000_005 }))
unfolding run_parser
reads_quotes_and_the_last_age = refl

panics_past_the_horizon : run_parser (codes "h3=\":1\"; ma=101") ≡ panics
unfolding run_parser
panics_past_the_horizon = refl

clears : run_parser (codes " ClEaR\t") ≡ returns clear
unfolding run_parser
clears = refl

parse_str-first_offer_example : run_parser header ≡ returns (entry offered)
unfolding run_parser first_offer pieces
parse_str-first_offer_example = parse_str-first_offer horizon header 5 443

parse_str_panics_iff_example : (parse_str horizon header 5 443 ≡ panics) ↔ (
    (eq_ignore_ascii_case (trim header) (codes "clear") ≡ false)
    × ((o : Offer) × (first_offer (pieces b',' header) 443 ≡ some o) × (horizon < 5 + o.max_age)))
parse_str_panics_iff_example = parse_str_panics_iff horizon header 5 443

drain-split_quoted_example :
    drain 12 (split_quoted (codes "a,\",\",b") b',')
    ≡ returns (codes "a" ∷ codes "\",\"" ∷ codes "b" ∷ [])
unfolding run_parser pieces
drain-split_quoted_example = drain-split_quoted b',' (codes "a,\",\",b") 12 (omega arith)

named : all is_name (codes "alt.example") ≡ true
unfolding all
named = refl

parse_str-print_example :
    parse_str horizon (print (codes "alt.example") 8443 60) 5 443
    ≡ returns (
        entry (record {
          host = some (codes "alt.example");
          port = 8443;
          expires_at = 5 + from_secs 60;
        }))
parse_str-print_example =
    parse_str-print (codes "alt.example") 8443 60 named horizon 5 443 (omega arith) (omega arith)
      (omega arith)
