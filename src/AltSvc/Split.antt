-- ===== src/AltSvc/Split.antt =====
-- src/alt_svc.rs: `split_quoted` and the iterator `SplitQuoted` inside it.
pub mod Pieces
use mechanics_http_client.Prelude.{
  ℕ, ◌+◌, Bool, false, not, ◌&&◌, Option, none, some, [], ◌∷◌, ltb, ◌==◌, if◌then◌else◌, Run,
  returns, ◌>>=◌,
}
use mechanics_http_client.Text.{Text, len_utf8, byte_len, slice_from, slice}

pub record SplitQuoted : Type 0 where
  pub raw : Text
  pub separator : ℕ
  pub offset : ℕ

-- The loop over `char_indices`: the byte offset of the first separator outside quotes, and the
-- length of that character.
unfoldable pub find_separator : ℕ → Bool → ℕ → Text → Option (ℕ × ℕ)
find_separator separator quoted relative [] = none
find_separator separator quoted relative (ch ∷ s) =
    let toggled = find_separator separator (not quoted) (relative + len_utf8 ch) s in
    let same = find_separator separator quoted (relative + len_utf8 ch) s in
    if ch == b'"'
    then toggled
    else if ch == separator && not quoted
    then some (relative, len_utf8 ch)
    else same

-- `Iterator::next`
unfoldable pub next : SplitQuoted → Run (Option Text × SplitQuoted)
unfolding find_separator byte_len slice_from slice
next it = if ltb (byte_len it.raw) it.offset then returns (none, it) else do
  tail ← slice_from it.raw it.offset
  elim (find_separator it.separator false 0 tail) [
    | some (relative, width) ↦ do
      piece ← slice it.raw it.offset (it.offset + relative)
      returns (some piece, record it { offset = it.offset + relative + width })
    | none ↦ do
      piece ← slice_from it.raw it.offset
      returns (some piece, record it { offset = byte_len it.raw + 1 })
  ]

unfoldable pub split_quoted : Text → ℕ → SplitQuoted
split_quoted raw separator = record { raw = raw; separator = separator; offset = 0 }
