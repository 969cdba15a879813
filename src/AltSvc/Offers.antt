-- ===== src/AltSvc/Offers.antt =====
-- The parser without its iterators: what it takes from a header, as recursions over the pieces.
use mathlib.Core.List.{foldl}
use mechanics_http_client.Prelude.{
  ℕ, zero, suc, ◌≡◌, refl, not, Option, none, some, List, [], ◌∷◌, arith, if◌then◌else◌, Bool-cases,
  Option-cases, inl, inr, Run, returns, panics, out_of_fuel, ◌>>=◌,
}
use mechanics_http_client.Text.{Text, codes, str_eq, trim, eq_ignore_ascii_case, split_once}
use mechanics_http_client.AltSvc.Split.{SplitQuoted, next, split_quoted}
use mechanics_http_client.AltSvc.Split.Pieces.{
  pieces, drain, drain-split_quoted, Uncons, ended, yielded, uncons,
}
use mechanics_http_client.Time.{add_instant}
use mechanics_http_client.AltSvc.{
  AltSvcUpdate, clear, entry, nothing, parse_authority, apply_parameter, max_age_loop,
  default_max_age, split_fuel, finish_entry, parse_alternative, first_supported, parse_str,
}

-- An h3 alternative as the header states it: where, and for how long.
pub record Offer : Type 0 where
  pub host : Option Text
  pub port : ℕ
  pub max_age : ℕ

-- The authority and the parameters of an alternative, after its `h3=`.
unfoldable pub offer_of : List Text → ℕ → Option Offer
offer_of [] origin_port = none
offer_of (authority ∷ parameters) origin_port =
    elim (parse_authority (trim authority) origin_port) [
      | none ↦ none
      | some (host, port) ↦ some (record {
        host = host;
        port = port;
        max_age = foldl apply_parameter default_max_age parameters;
      })
    ]

unfoldable pub offer : Text → ℕ → Option Offer
unfolding offer_of
offer alternative origin_port = elim (split_once b'=' alternative) [
  | none ↦ none
  | some (protocol, rest) ↦
      if not (str_eq (trim protocol) (codes "h3"))
      then none
      else offer_of (pieces b';' rest) origin_port
]

-- The first alternative that is an offer wins.
unfoldable pub first_offer : List Text → ℕ → Option Offer
unfolding offer
first_offer [] origin_port = none
first_offer (a ∷ more) origin_port = elim (offer (trim a) origin_port) [
  | some o ↦ some o
  | none ↦ first_offer more origin_port
]

-- The update that an offer makes at an instant.
abbrev pub update_of : ℕ → ℕ → Option Offer → Run AltSvcUpdate
update_of horizon now none = returns nothing
update_of horizon now (some o) = do
  expires_at ← add_instant horizon now o.max_age
  returns (entry (record { host = o.host; port = o.port; expires_at = expires_at }))

max_age_loop-foldl :
    (fuel : ℕ) (it : SplitQuoted) (ps : List Text) (m : ℕ)
    → drain fuel it ≡ returns ps
    → max_age_loop fuel it m ≡ returns (foldl apply_parameter m ps)
unfolding max_age_loop
max_age_loop-foldl zero it ps m h = unfold drain in cc
max_age_loop-foldl (suc fuel) it ps m h = go ps (uncons fuel it ps h) (max_age_loop-foldl fuel)
  where
    go :
        (qs : List Text)
        → Uncons fuel it qs
        → ((it' : SplitQuoted) (rs : List Text) (k : ℕ)
            → drain fuel it' ≡ returns rs
            → max_age_loop fuel it' k ≡ returns (foldl apply_parameter k rs))
        → max_age_loop (suc fuel) it m ≡ returns (foldl apply_parameter m qs)
    go _ (ended n) ih = rw n refl
    go _ (yielded {p} {ps = rs} {it'} n d) ih = rw n (ih it' rs (apply_parameter m p) d)

module _ (horizon : ℕ) where
  finish_entry-update_of :
      (rest : Text) (it : SplitQuoted) (a : Text) (ps : List Text) (now port : ℕ)
      → drain (split_fuel rest) it ≡ returns ps
      → finish_entry horizon rest it (parse_authority (trim a) port) now
        ≡ update_of horizon now (offer_of (a ∷ ps) port)
  unfolding finish_entry offer_of
  finish_entry-update_of rest it a ps now port d =
      elim (Option-cases (parse_authority (trim a) port)) [
        | inl e ↦ rw (e, offer_of) refl
        | inr ((h, p), e) ↦
            rw (e, offer_of)
              (rw (max_age_loop-foldl (split_fuel rest) it ps default_max_age d) refl)
      ]

  after_first :
      (rest : Text) (now port : ℕ) (ps : List Text)
      → Uncons (split_fuel rest) (split_quoted rest b';') ps
      → (next (split_quoted rest b';') >>= λ r. elim r.0 [
        | none ↦ returns nothing
        | some a ↦ finish_entry horizon rest r.1 (parse_authority (trim a) port) now
      ])
        ≡ update_of horizon now (offer_of ps port)
  after_first rest now port _ (ended n) = rw n (unfold offer_of in refl)
  after_first rest now port _ (yielded {p} {ps = qs} {it'} n d) =
      rw n (finish_entry-update_of rest it' p qs now port d)

  pub parse_alternative-offer :
      (raw : Text) (now port : ℕ)
      → parse_alternative horizon raw now port ≡ update_of horizon now (offer raw port)
  unfolding parse_alternative offer
  parse_alternative-offer raw now port = elim (Option-cases (split_once b'=' raw)) [
    | inl e ↦ rw (e, parse_alternative, offer) refl
    | inr ((protocol, rest), e) ↦
        rw (e, parse_alternative, offer)
          (elim (Bool-cases (not (str_eq (trim protocol) (codes "h3")))) [
            | inl other ↦ rw other refl
            | inr h3 ↦ rw h3 (
                after_first rest now port (pieces b';' rest) (
                  uncons (split_fuel rest) (split_quoted rest b';') (pieces b';' rest)
                    (drain-split_quoted b';' rest (suc (split_fuel rest)) (omega arith))))
          ])
  ]

  -- After an alternative that is no offer the loop goes on, and after an offer it is over.
  after_alternative :
      (fuel : ℕ) (it : SplitQuoted) (now port : ℕ) (o : Option Offer) (rs : List Text)
      → first_supported horizon fuel it now port ≡ update_of horizon now (first_offer rs port)
      → (update_of horizon now o >>= λ candidate. elim candidate [
        | nothing ↦ first_supported horizon fuel it now port
        | clear ↦ returns clear
        | entry e ↦ returns (entry e)
      ])
        ≡ update_of horizon now (elim o [ some x ↦ some x | none ↦ first_offer rs port ])
  after_alternative fuel it now port none rs ih = ih
  after_alternative fuel it now port (some o) rs ih = go (add_instant horizon now o.max_age)
    where
      go :
          (r : Run ℕ)
          → (r
              >>= (λ t. returns (entry (record { host = o.host; port = o.port; expires_at = t })))
              >>= λ candidate. elim candidate [
                | nothing ↦ first_supported horizon fuel it now port
                | clear ↦ returns clear
                | entry e ↦ returns (entry e)
              ])
            ≡ (r >>= λ t. returns (entry (record { host = o.host; port = o.port; expires_at = t })))
      go (returns t) = refl
      go panics = refl
      go out_of_fuel = refl

  first_step :
      (fuel : ℕ) (it : SplitQuoted) (now port : ℕ) (ps : List Text)
      → Uncons fuel it ps
      → ((it' : SplitQuoted) (rs : List Text)
          → drain fuel it' ≡ returns rs
          → first_supported horizon fuel it' now port ≡ update_of horizon now (first_offer rs port))
      → first_supported horizon (suc fuel) it now port ≡ update_of horizon now (first_offer ps port)
  unfolding first_supported first_offer
  first_step fuel it now port _ (ended n) ih = rw n refl
  first_step fuel it now port _ (yielded {p} {ps = rs} {it'} n d) ih = rw n (
      rw (parse_alternative-offer (trim p) now port)
        (after_alternative fuel it' now port (offer (trim p) port) rs (ih it' rs d)))

  first_supported-first_offer :
      (fuel : ℕ) (it : SplitQuoted) (ps : List Text) (now port : ℕ)
      → drain fuel it ≡ returns ps
      → first_supported horizon fuel it now port ≡ update_of horizon now (first_offer ps port)
  unfolding first_supported
  first_supported-first_offer zero it ps now port h = unfold drain in cc
  first_supported-first_offer (suc fuel) it ps now port h =
      first_step fuel it now port ps (uncons fuel it ps h)
        (λ it' rs d. first_supported-first_offer fuel it' rs now port d)

-- `parse_str` gives `clear` for a header that says so, and else what the first offer among the pieces
-- of the header comes to, and nothing else: no loop of it runs out of fuel, and no slice panics.
pub parse_str-first_offer :
    (horizon : ℕ) (raw : Text) (now port : ℕ)
    → parse_str horizon raw now port ≡ (
        if eq_ignore_ascii_case (trim raw) (codes "clear")
        then returns clear
        else update_of horizon now (first_offer (pieces b',' raw) port))
unfolding parse_str
parse_str-first_offer horizon raw now port = rw (
    first_supported-first_offer horizon (split_fuel raw) (split_quoted raw b',') (pieces b',' raw)
      now port (drain-split_quoted b',' raw (split_fuel raw) (omega arith)))
