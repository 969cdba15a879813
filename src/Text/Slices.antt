-- ===== src/Text/Slices.antt =====
-- Slices of a text that end at a prefix of it.
use mechanics_http_client.Prelude.{
  ℕ, zero, suc, ◌+◌, ◌-◌, ◌<◌, ◌≡◌, refl, [], ◌∷◌, ◌++◌, arith, Bool, ltb, if◌then◌else◌, returns,
  panics, ◌>>=◌,
}
use mechanics_http_client.Text.{Text, len_utf8, byte_len, slice_from, slice_to, slice}

pub len_utf8_pos : (c : ℕ) → 0 < len_utf8 c
unfolding len_utf8
len_utf8_pos c = ground arith

pub byte_len-append : (s t : Text) → byte_len (s ++ t) ≡ byte_len s + byte_len t
unfolding byte_len
byte_len-append [] t = omega arith
byte_len-append (c ∷ s) t = omega (arith, byte_len-append s t)

slice_from_cons :
    (c : ℕ) (s : Text) (n : ℕ)
    → 0 < n
    → slice_from (c ∷ s) n ≡ (if ltb n (len_utf8 c) then panics else slice_from s (n - len_utf8 c))
unfolding slice_from
slice_from_cons c s zero h = absurd (omega arith)
slice_from_cons c s (suc n) h = refl

slice_to_cons :
    (c : ℕ) (s : Text) (n : ℕ)
    → 0 < n
    → slice_to (c ∷ s) n ≡ (
        if ltb n (len_utf8 c)
        then panics
        else (slice_to s (n - len_utf8 c) >>= λ t. returns (c ∷ t)))
unfolding slice_to
slice_to_cons c s zero h = absurd (omega arith)
slice_to_cons c s (suc n) h = refl

long_enough : (w n : ℕ) → ltb (w + n) w ≡ Bool.false
long_enough w n = ground arith

pub slice_from-append : (s t : Text) → slice_from (s ++ t) (byte_len s) ≡ returns t
unfolding byte_len
slice_from-append [] t = unfold slice_from in refl
slice_from-append (c ∷ s) t =
    let e : len_utf8 c + byte_len s - len_utf8 c ≡ byte_len s = omega arith in
    rw (slice_from_cons c (s ++ t) (len_utf8 c + byte_len s) (omega (arith, len_utf8_pos c)))
      (rw (long_enough (len_utf8 c) (byte_len s), e) (slice_from-append s t))

pub slice_to-append : (s t : Text) → slice_to (s ++ t) (byte_len s) ≡ returns s
unfolding byte_len
slice_to-append [] t = unfold slice_to in refl
slice_to-append (c ∷ s) t =
    let e : len_utf8 c + byte_len s - len_utf8 c ≡ byte_len s = omega arith in
    rw (slice_to_cons c (s ++ t) (len_utf8 c + byte_len s) (omega (arith, len_utf8_pos c)))
      (rw (long_enough (len_utf8 c) (byte_len s), e) (rw (slice_to-append s t)))

-- The bytes between the ends of two prefixes are what the longer one has more.
pub slice-append :
    (s t u : Text) → slice (s ++ (t ++ u)) (byte_len s) (byte_len s + byte_len t) ≡ returns t
unfolding slice
slice-append s t u =
    let e : byte_len s + byte_len t - byte_len s ≡ byte_len t = omega arith in
    rw (long_enough (byte_len s) (byte_len t), slice_from-append s (t ++ u), e)
      (slice_to-append t u)
