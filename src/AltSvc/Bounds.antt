-- ===== src/AltSvc/Bounds.antt =====
-- Ports and expiry instants of the entries that `parse_str` makes, and when it panics.
use mathlib.Core.List.{foldl}
use mechanics_http_client.Prelude.{
  ℕ, ◌+◌, ◌≤◌, ◌<◌, ◌≡◌, ◌≢◌, ◌↔◌, refl, not, false, Option, none, some, List, [], ◌∷◌, arith,
  unwrap_or, Bool-cases, Option-cases, inl, inr, returns, panics, out_of_fuel,
}
use mechanics_http_client.Text.{
  Text, codes, str_eq, trim, eq_ignore_ascii_case, split_once, parse_unsigned, u16_max, u64_max,
}
use mechanics_http_client.Text.Numbers.{parse_unsigned-le}
use mechanics_http_client.AltSvc.Split.Pieces.{pieces}
use mechanics_http_client.AltSvc.Offers.{
  Offer, offer_of, offer, first_offer, update_of, parse_str-first_offer,
}
use mechanics_http_client.Time.{from_secs, add_instant}
use mechanics_http_client.AltSvc.{
  AltSvcUpdate, clear, entry, nothing, host_and_port, parse_authority, apply_parameter,
  default_max_age, parse_str,
}

-- The longest `max_age` that a header can state.
abbrev pub longest : ℕ
longest = from_secs u64_max

port_or-le :
    (port : Text) (origin_port : ℕ)
    → origin_port ≤ u16_max
    → unwrap_or (parse_unsigned u16_max port) origin_port ≤ u16_max
port_or-le port origin_port o = elim (Option-cases (parse_unsigned u16_max port)) [
  | inl e ↦ rw e o
  | inr (n, e) ↦ rw e (parse_unsigned-le u16_max port n e)
]

host_and_port-le :
    (host port : Text) (origin_port : ℕ) (h : Option Text) (p : ℕ)
    → origin_port ≤ u16_max
    → host_and_port host port origin_port ≡ some (h, p)
    → p ≤ u16_max
unfolding host_and_port
host_and_port-le [] port origin_port h p o e = cc
host_and_port-le (c ∷ host) port origin_port h p o e = ground (arith, port_or-le port origin_port o)

parse_authority-le :
    (raw : Text) (origin_port : ℕ) (h : Option Text) (p : ℕ)
    → origin_port ≤ u16_max
    → parse_authority raw origin_port ≡ some (h, p)
    → p ≤ u16_max
unfolding parse_authority
parse_authority-le raw origin_port h p o e = grind (arith, host_and_port-le, parse_unsigned-le)

apply_parameter-le :
    (max_age : ℕ) (part : Text) → max_age ≤ longest → apply_parameter max_age part ≤ longest
unfolding apply_parameter
apply_parameter-le max_age part h = grind (arith, parse_unsigned-le)

max_age-le :
    (parts : List Text) (max_age : ℕ)
    → max_age ≤ longest
    → foldl apply_parameter max_age parts ≤ longest
max_age-le [] max_age h = h
max_age-le (p ∷ ps) max_age h =
    max_age-le ps (apply_parameter max_age p) (apply_parameter-le max_age p h)

module _ (origin_port : ℕ) (in_range : origin_port ≤ u16_max) where
  abbrev OfferInRange : Option Offer → Type 0
  OfferInRange none = Unit
  OfferInRange (some o) = (o.port ≤ u16_max) × (o.max_age ≤ longest)

  offer_of-InRange : (ps : List Text) → OfferInRange (offer_of ps origin_port)
  unfolding offer_of
  offer_of-InRange [] = tt
  offer_of-InRange (a ∷ ps) = elim (Option-cases (parse_authority (trim a) origin_port)) [
    | inl e ↦ rw (e, offer_of) tt
    | inr ((h, p), e) ↦
        rw (e, offer_of)
          (
            parse_authority-le (trim a) origin_port h p in_range e,
            max_age-le ps default_max_age (omega arith),
          )
  ]

  offer-InRange : (raw : Text) → OfferInRange (offer raw origin_port)
  unfolding offer
  offer-InRange raw = elim (Option-cases (split_once b'=' raw)) [
    | inl e ↦ rw (e, offer) tt
    | inr ((protocol, rest), e) ↦
        rw (e, offer)
          (elim (Bool-cases (not (str_eq (trim protocol) (codes "h3")))) [
            | inl other ↦ rw other tt
            | inr h3 ↦ rw h3 (offer_of-InRange (pieces b';' rest))
          ])
  ]

  first_offer-InRange : (ps : List Text) → OfferInRange (first_offer ps origin_port)
  unfolding first_offer
  first_offer-InRange [] = tt
  first_offer-InRange (a ∷ ps) = elim (Option-cases (offer (trim a) origin_port)) [
    | inl e ↦ rw (e, first_offer) (first_offer-InRange ps)
    | inr (o, e) ↦ rw (e, first_offer) (rw e at (offer-InRange (trim a)))
  ]

update_of_panics :
    (horizon now : ℕ) (o : Offer)
    → (update_of horizon now (some o) ≡ panics) ↔ (horizon < now + o.max_age)
unfolding add_instant
update_of_panics horizon now o = ground arith

-- `parse_str` panics exactly when the header is not `clear` and its first h3 offer lives past the
-- largest instant that the platform has.
pub parse_str_panics_iff :
    (horizon : ℕ) (raw : Text) (now origin_port : ℕ)
    → (parse_str horizon raw now origin_port ≡ panics) ↔ (
        (eq_ignore_ascii_case (trim raw) (codes "clear") ≡ false)
        × ((o : Offer) × (first_offer (pieces b',' raw) origin_port ≡ some o)
            × (horizon < now + o.max_age)))
parse_str_panics_iff horizon raw now origin_port =
    elim (Bool-cases (eq_ignore_ascii_case (trim raw) (codes "clear"))) [
      | inl c ↦ rw (parse_str-first_offer, c) (λ h. cc, λ h. cc)
      | inr c ↦ elim (Option-cases (first_offer (pieces b',' raw) origin_port)) [
        | inl n ↦ rw (parse_str-first_offer, c, n) (λ h. cc, λ h. cc)
        | inr (offered, s) ↦
            rw (parse_str-first_offer, c, s)
              (
                (λ h. (refl, (offered, refl, (update_of_panics horizon now offered).0 h))),
                (λ h.
                    (update_of_panics horizon now offered).1
                      (let (o, e, late) = h.1 in ground arith)),
              )
      ]
    ]

update_of_returns :
    (horizon now : ℕ) (o : Offer)
    → now + o.max_age ≤ horizon
    → update_of horizon now (some o)
      ≡ returns (entry (record { host = o.host; port = o.port; expires_at = now + o.max_age }))
unfolding add_instant
update_of_returns horizon now o h = ground arith

pub parse_str-returns :
    (horizon : ℕ) (raw : Text) (now origin_port : ℕ)
    → origin_port ≤ u16_max
    → now + longest ≤ horizon
    → (u : AltSvcUpdate) × (parse_str horizon raw now origin_port ≡ returns u)
unfolding add_instant
parse_str-returns horizon raw now origin_port o room =
    elim (Bool-cases (eq_ignore_ascii_case (trim raw) (codes "clear"))) [
      | inl c ↦ rw (parse_str-first_offer, c) (clear, refl)
      | inr c ↦ elim (Option-cases (first_offer (pieces b',' raw) origin_port)) [
        | inl n ↦ rw (parse_str-first_offer, c, n) (nothing, refl)
        | inr (offered, s) ↦
            rw (parse_str-first_offer, c, s)
              (
                entry _,
                update_of_returns horizon now offered (
                    omega
                      (arith, (rw s at (first_offer-InRange origin_port o (pieces b',' raw))).1)),
              )
      ]
    ]

-- No loop of the parser runs out of fuel.
pub parse_str-ends :
    (horizon : ℕ) (raw : Text) (now origin_port : ℕ)
    → parse_str horizon raw now origin_port ≢ out_of_fuel
unfolding add_instant
parse_str-ends horizon raw now origin_port =
    elim (Bool-cases (eq_ignore_ascii_case (trim raw) (codes "clear"))) [
      | inl c ↦ rw (parse_str-first_offer, c) (λ h. cc)
      | inr c ↦ elim (Option-cases (first_offer (pieces b',' raw) origin_port)) [
        | inl n ↦ rw (parse_str-first_offer, c, n) (λ h. cc)
        | inr (offered, s) ↦ rw (parse_str-first_offer, c, s) (ground arith)
      ]
    ]
