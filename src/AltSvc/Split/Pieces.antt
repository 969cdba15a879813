-- ===== src/AltSvc/Split/Pieces.antt =====
-- The iterator against a plain recursion over the text, by where it stands in the text.
use mechanics_http_client.Prelude.{
  ℕ, zero, suc, ◌+◌, ◌≤◌, ◌<◌, ◌≡◌, refl, ap, ◌∙◌, inl, inr, Bool, false, not, ◌&&◌, none, some,
  List, [], ◌∷◌, ◌++◌, append_assoc, arith, ltb, lt→ltb, ◌==◌, if◌then◌else◌, Bool-cases, Run,
  returns, panics, out_of_fuel, subst, Option, ◌>>=◌,
}
use mechanics_http_client.Text.{Text, len_utf8, byte_len, slice_from, slice}
use mechanics_http_client.Text.Slices.{
  len_utf8_pos, byte_len-append, slice_from-append, slice-append,
}
use mechanics_http_client.AltSvc.Split.{SplitQuoted, find_separator, next, split_quoted}

abbrev pub onto : ℕ → List Text → List Text
onto c [] = (c ∷ []) ∷ []
onto c (p ∷ ps) = (c ∷ p) ∷ ps

-- The pieces of a text, `quoted` at its start or not.
unfoldable pub pieces_from : ℕ → Bool → Text → List Text
pieces_from separator quoted [] = [] ∷ []
pieces_from separator quoted (c ∷ s) =
    let toggled = onto c (pieces_from separator (not quoted) s) in
    let split = [] ∷ pieces_from separator false s in
    let same = onto c (pieces_from separator quoted s) in
    if c == b'"' then toggled else if c == separator && not quoted then split else same

unfoldable pub pieces : ℕ → Text → List Text
unfolding pieces_from
pieces separator s = pieces_from separator false s

-- All that the iterator yields from a state on.
unfoldable pub drain : ℕ → SplitQuoted → Run (List Text)
drain zero it = out_of_fuel
drain (suc fuel) it = do
  (piece, it') ← next it
  elim piece [ none ↦ returns [] | some p ↦ do ps ← drain fuel it'; returns (p ∷ ps) ]

-- What `find_separator` and `pieces_from` say of one text: it has no separator outside quotes, or
-- it has a first one.
data Cut (separator : ℕ) (quoted : Bool) (s : Text) : Type 0 where
  whole :
      ((relative : ℕ) → find_separator separator quoted relative s ≡ none)
      → pieces_from separator quoted s ≡ s ∷ []
      → Cut separator quoted s
  at :
      (first : Text) (c : ℕ) (after : Text)
      → s ≡ first ++ c ∷ after
      → ((relative : ℕ)
          → find_separator separator quoted relative s
            ≡ some (relative + byte_len first, len_utf8 c))
      → pieces_from separator quoted s ≡ first ∷ pieces_from separator false after
      → Cut separator quoted s

-- A character that splits nothing belongs to the first piece.
extend :
    (separator : ℕ) (q q' : Bool) (c : ℕ) (s : Text)
    → ((relative : ℕ)
        → find_separator separator q relative (c ∷ s)
          ≡ find_separator separator q' (relative + len_utf8 c) s)
    → pieces_from separator q (c ∷ s) ≡ onto c (pieces_from separator q' s)
    → Cut separator q' s
    → Cut separator q (c ∷ s)
unfolding byte_len
extend separator q q' c s f p (whole g e) =
    whole (λ r. f r ∙ g (r + len_utf8 c)) (p ∙ ap (onto c) e)
extend separator q q' c s f p (at first d after split g e) =
    at (c ∷ first) d after (ap (◌∷◌ c) split)
      (λ r. f r ∙ g (r + len_utf8 c) ∙ ap (λ (n : ℕ). some (n, len_utf8 d)) (omega arith))
      (p ∙ ap (onto c) e)

at_start : (r : ℕ) → r ≡ r + byte_len []
unfolding byte_len
at_start r = omega arith

cut : (separator : ℕ) (quoted : Bool) (s : Text) → Cut separator quoted s
unfolding find_separator pieces_from
cut separator quoted [] = whole (λ r. refl) refl
cut separator quoted (c ∷ s) = elim (Bool-cases (c == b'"')) [
  | inl quote ↦
      extend separator quoted (not quoted) c s (λ r. rw quote) (rw quote)
        (cut separator (not quoted) s)
  | inr other ↦ elim (Bool-cases (c == separator && not quoted)) [
    | inl here ↦
        at [] c s refl (λ r. rw (other, here) (ap (λ (n : ℕ). some (n, len_utf8 c)) (at_start r)))
          (rw (other, here))
    | inr same ↦
        extend separator quoted quoted c s (λ r. rw (other, same)) (rw (other, same))
          (cut separator quoted s)
  ]
]

-- The iterator stands behind the prefix `before` of its text, with `rest` to come.
record Stands (it : SplitQuoted) (before rest : Text) : Type 0 where
  text : it.raw ≡ before ++ rest
  place : it.offset ≡ byte_len before

place_lem :
    (before first : Text) (c : ℕ)
    → byte_len before + (0 + byte_len first) + len_utf8 c ≡ byte_len (before ++ (first ++ c ∷ []))
place_lem before first c = rw (byte_len-append, byte_len-append) (unfold byte_len in omega arith)

shorter :
    (first : Text) (c : ℕ) (after : Text) (fuel : ℕ)
    → byte_len (first ++ c ∷ after) + 2 ≤ suc (suc fuel)
    → byte_len after + 2 ≤ suc fuel
unfolding byte_len
shorter first c after fuel h = omega (arith, len_utf8_pos c, byte_len-append first (c ∷ after))

module _ {it : SplitQuoted} {before rest : Text} (here : Stands it before rest) where
  in_range : ltb (byte_len it.raw) it.offset ≡ false
  in_range = rw (here.text, here.place, byte_len-append) (ground arith)

  tail_lem : slice_from it.raw it.offset ≡ returns rest
  tail_lem = rw (here.text, here.place) (slice_from-append before rest)

  next_whole :
      find_separator it.separator false 0 rest ≡ none
      → next it ≡ returns (some rest, record it { offset = byte_len it.raw + 1 })
  unfolding next
  next_whole f = rw (in_range, tail_lem, ◌>>=◌, f) (rw tail_lem)

  next_at :
      (first : Text) (c : ℕ) (after : Text)
      → rest ≡ first ++ c ∷ after
      → find_separator it.separator false 0 rest ≡ some (0 + byte_len first, len_utf8 c)
      → next it
        ≡ returns (some first, record it { offset = it.offset + (0 + byte_len first) + len_utf8 c })
  unfolding next
  next_at first c after split f = rw (in_range, tail_lem, ◌>>=◌, f) (rw piece)
    where
      piece : slice it.raw it.offset (it.offset + (0 + byte_len first)) ≡ returns first
      piece =
          let e : 0 + byte_len first ≡ byte_len first = omega arith in
          rw (here.text, here.place, split, e) (slice-append before first (c ∷ after))

  -- Behind the separator the iterator stands again.
  Stands-next :
      (first : Text) (c : ℕ) (after : Text)
      → rest ≡ first ++ c ∷ after
      → Stands
          (record it { offset = it.offset + (0 + byte_len first) + len_utf8 c })
          (before ++ (first ++ c ∷ []))
          after
  Stands-next first c after split = record {
    text = rw (here.text, split) (simp append_assoc);
    place = rw (here.place) (place_lem before first c);
  }

-- Past the end the iterator yields nothing.
drain_end :
    (fuel : ℕ) (it : SplitQuoted) → byte_len it.raw < it.offset → drain (suc fuel) it ≡ returns []
unfolding drain next
drain_end fuel it h = rw (lt→ltb _ _ h) refl

drain-Stands :
    (fuel : ℕ) (it : SplitQuoted) {before rest : Text}
    → Stands it before rest
    → byte_len rest + 2 ≤ fuel
    → drain fuel it ≡ returns (pieces_from it.separator false rest)
unfolding drain
drain-Stands zero it here h = absurd (omega arith)
drain-Stands (suc zero) it here h = absurd (omega arith)
drain-Stands (suc (suc fuel)) it {before} {rest} here h = elim (cut it.separator false rest) [
  | whole f p ↦
      rw (next_whole here (f 0), p)
        (rw (drain_end fuel (record it { offset = byte_len it.raw + 1 }) (omega arith)) refl)
  | at first c after split f p ↦
      rw (next_at here first c after split (f 0), p)
        (rw
          (drain-Stands (suc fuel)
            (record it { offset = it.offset + (0 + byte_len first) + len_utf8 c })
            (Stands-next here first c after split) (shorter first c after fuel (rw split at h)))
          refl)
]

-- With fuel for the bytes of the text and two more, the whole iteration ends, panics nowhere, and
-- yields the pieces between the separators that stand outside quotes.
pub drain-split_quoted :
    (separator : ℕ) (raw : Text) (fuel : ℕ)
    → byte_len raw + 2 ≤ fuel
    → drain fuel (split_quoted raw separator) ≡ returns (pieces separator raw)
unfolding split_quoted pieces
drain-split_quoted separator raw fuel h = drain-Stands fuel (split_quoted raw separator) start h
  where
    start : Stands (split_quoted raw separator) [] raw
    start = record { text = refl; place = unfold byte_len in refl }

-- The first step of an iteration that ends.
pub data Uncons (fuel : ℕ) (it : SplitQuoted) : List Text → Type 0 where
  ended : {it' : SplitQuoted} → next it ≡ returns (none, it') → Uncons fuel it []
  yielded :
      {p : Text} {ps : List Text} {it' : SplitQuoted}
      → next it ≡ returns (some p, it')
      → drain fuel it' ≡ returns ps
      → Uncons fuel it (p ∷ ps)

pub uncons :
    (fuel : ℕ) (it : SplitQuoted) (ps : List Text)
    → drain (suc fuel) it ≡ returns ps
    → Uncons fuel it ps
unfolding drain
uncons fuel it ps h = go (next it) refl h
  where
    more :
        (p : Text) (it' : SplitQuoted) (r : Run (List Text))
        → next it ≡ returns (some p, it')
        → drain fuel it' ≡ r
        → (r >>= λ qs. returns (p ∷ qs)) ≡ returns ps
        → Uncons fuel it ps
    more p it' (returns qs) n d e =
        let same : p ∷ qs ≡ ps = cc in subst (Uncons fuel it) same (yielded n d)
    more p it' panics n d e = cc
    more p it' out_of_fuel n d e = cc

    go :
        (r : Run (Option Text × SplitQuoted))
        → next it ≡ r
        → (r >>= λ s. elim s.0 [
          | none ↦ returns []
          | some p ↦ drain fuel s.1 >>= λ qs. returns (p ∷ qs)
        ])
          ≡ returns ps
        → Uncons fuel it ps
    go (returns (none, it')) n e = let same : [] ≡ ps = cc in subst (Uncons fuel it) same (ended n)
    go (returns (some p, it')) n e = more p it' (drain fuel it') n refl e
    go panics n e = cc
    go out_of_fuel n e = cc
