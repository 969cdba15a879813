-- ===== src/AltSvc/Print.antt =====
-- Headers printed in the form of RFC 7838 are parsed back.
pub mod Parts
pub mod RoundTrip
use mathlib.Core.List.{reverse-append, reverse-reverse}
use mechanics_http_client.Prelude.{
  ℕ, ◌+◌, ◌≤◌, ◌≡◌, refl, sym, ap, ◌∙◌, Bool, true, false, not, ◌&&◌, ◌||◌, Option, none, some,
  List, [], ◌∷◌, ◌++◌, append-nil, append_assoc, arith, reverse, leb, ◌==◌, if◌then◌else◌,
  Bool-cases, inl, inr,
}
use mechanics_http_client.Text.{
  Text, codes, is_whitespace, trim, trim_matches, split_once, rsplit_once, strip_suffix,
  strip_prefix,
}
use mechanics_http_client.Text.Decimals.{all, all-reverse, Starts, trim_matches-append, is_digit}
use mechanics_http_client.AltSvc.Split.Pieces.{onto, pieces_from}

-- A character that is no quote, and no separator outside quotes.
abbrev pub plain : ℕ → Bool → ℕ → Bool
plain separator quoted c = not (c == b'"') && (quoted || not (c == separator))

-- Plain characters stay with the piece that follows them.
pub pieces_from-append :
    (separator : ℕ) (quoted : Bool) (s t p : Text) (ps : List Text)
    → all (plain separator quoted) s ≡ true
    → pieces_from separator quoted t ≡ p ∷ ps
    → pieces_from separator quoted (s ++ t) ≡ (s ++ p) ∷ ps
unfolding all pieces_from
pieces_from-append separator quoted [] t p ps h e = e
pieces_from-append separator quoted (c ∷ s) t p ps h e =
    let ih = pieces_from-append separator quoted s t p ps (ground arith) e in
    let quote : (c == b'"') ≡ false = ground arith in
    let splits : (c == separator && not quoted) ≡ false = ground arith in
    rw (quote, splits, ih) refl

pub split_once-append :
    (sep : ℕ) (s t : Text)
    → all (λ c. not (c == sep)) s ≡ true
    → split_once sep (s ++ sep ∷ t) ≡ some (s, t)
unfolding all split_once
split_once-append sep [] t h = ground arith
split_once-append sep (c ∷ s) t h =
    let differs : (c == sep) ≡ false = ground arith in
    rw (differs, split_once-append sep s t (ground arith)) refl

pub rsplit_once-append :
    (sep : ℕ) (s t : Text)
    → all (λ c. not (c == sep)) t ≡ true
    → rsplit_once sep (s ++ sep ∷ t) ≡ some (s, t)
unfolding rsplit_once
rsplit_once-append sep s t h =
    let e : reverse (s ++ sep ∷ t) ≡ reverse t ++ sep ∷ reverse s =
      reverse-append s (sep ∷ t)
      ∙ ap (λ x. x ++ reverse s) (reverse-append (sep ∷ []) t)
      ∙ append_assoc (reverse t) (sep ∷ []) (reverse s) in
    let found : split_once sep (reverse (s ++ sep ∷ t)) ≡ some (reverse t, reverse s) =
      ap (split_once sep) e ∙ split_once-append sep (reverse t) (reverse s) (all-reverse _ t h) in
    rw (rsplit_once, found) (rw (reverse-reverse s, reverse-reverse t) refl)

pub strip_suffix-append : (c : ℕ) (s : Text) → strip_suffix c (s ++ (c ∷ [])) ≡ some s
unfolding strip_suffix strip_prefix
strip_suffix-append c s =
    let same : (c == c) ≡ true = ground arith in
    let found : strip_prefix c (reverse (s ++ (c ∷ []))) ≡ some (reverse s) =
      ap (strip_prefix c) (reverse-append s (c ∷ [])) ∙ rw same refl in
    rw (strip_suffix, found) (rw (reverse-reverse s) refl)

-- The last character, if there is one, fails the test.
abbrev pub Ends : (ℕ → Bool) → Text → Type 0
Ends p s = Starts p (reverse s)

Starts-append : (p : ℕ → Bool) (s t : Text) → Starts p s → Starts p (s ++ t)
Starts-append p [] t h = elim h [ ]
Starts-append p (c ∷ s) t h = h

pub Ends-append : (p : ℕ → Bool) (s t : Text) → Ends p t → Ends p (s ++ t)
Ends-append p s t h = rw (reverse-append s t) (Starts-append p (reverse t) (reverse s) h)

pub trim_matches-same : (p : ℕ → Bool) (s : Text) → Starts p s → Ends p s → trim_matches p s ≡ s
trim_matches-same p s h k =
    ap (trim_matches p) (sym (append-nil s))
    ∙ trim_matches-append p [] s [] (unfold all in refl) (unfold all in refl) h k
