-- ===== src/Response/Reading.antt =====
-- Reading a response without a cap, and its stated length.
use mechanics_http_client.Prelude.{
  ℕ, ◌≤◌, ◌≡◌, refl, ap, fun_ext, ◌∙◌, true, false, List, [], ◌∷◌, ◌++◌, append-nil, append_assoc,
  arith, ltb, Option, none, some, length,
}
use mechanics_http_client.Text.{Text, codes, decimal, u64_max, is_whitespace}
use mechanics_http_client.Text.Decimals.{all, parse_unsigned-trim}
use mechanics_http_client.Error.{Error, Result, ok, err}
use mechanics_http_client.Http.{data_frame, other_frame, Polled, frame, failed, Http, Response}
use mechanics_http_client.Response.{
  usize_max, saturating_add, collect_mhc_body_with_cap, Codecs, decompress, and_then, into_body,
  bytes, content_length, ◌>>=◌,
}
use mechanics_http_client.Response.Collecting.{payload, bytes_with_cap-into_body}

abbrev pub first_error : List (Polled Error) → Option Error
first_error [] = none
first_error (frame f ∷ body) = first_error body
first_error (failed e ∷ body) = some e

abbrev all_after : Text → Option Error → Text → Result Text
all_after buf none rest = ok (buf ++ rest)
all_after buf (some e) rest = err e

-- The data frames of a stream, if it ends without an error.
abbrev pub collected : List (Polled Error) → Result Text
collected body = all_after [] (first_error body) (payload body)

uncapped : (a b : ℕ) → ltb usize_max (saturating_add a b) ≡ false
uncapped a b = ground arith

all_after-append :
    (buf bytes : Text) (e : Option Error) (rest : Text)
    → all_after (buf ++ bytes) e rest ≡ all_after buf e (bytes ++ rest)
all_after-append buf bytes none rest = ap ok (append_assoc buf bytes rest)
all_after-append buf bytes (some e) rest = refl

collect-all_after :
    (body : List (Polled Error)) (buf : Text)
    → collect_mhc_body_with_cap usize_max buf body ≡ all_after buf (first_error body) (payload body)
unfolding collect_mhc_body_with_cap
collect-all_after [] buf = rw append-nil refl
collect-all_after (frame (data_frame bytes) ∷ body) buf =
    rw (uncapped (length buf) (length bytes)) (
      collect-all_after body (buf ++ bytes)
      ∙ all_after-append buf bytes (first_error body) (payload body))
collect-all_after (frame other_frame ∷ body) buf = collect-all_after body buf
collect-all_after (failed e ∷ body) buf = refl

module _ {M : Type 0} (http : Http M) (codecs : Codecs) where
  -- `bytes` knows no cap: it decodes, by `Content-Encoding`, all the data frames of the stream that
  -- `into_body` gives, however many bytes they have, unless the stream fails; then it fails with the
  -- first error of the stream.
  pub bytes-collected :
      (response : Response M)
      → bytes http codecs response ≡ (
          into_body response
          >>= collected
          >>= decompress codecs
              (and_then (http.get response.headers (codes "content-encoding")) http.to_str))
  unfolding bytes
  bytes-collected response =
      bytes_with_cap-into_body http codecs usize_max response
      ∙ ap
          (λ f.
            into_body response
            >>= f
            >>= decompress codecs
                (and_then (http.get response.headers (codes "content-encoding")) http.to_str))
          (fun_ext λ body. collect-all_after body [])

  -- A length that fits 64 bits is read from the header `Content-Length` that states it in decimal
  -- digits, with white space around them or without.
  pub content_length-decimal :
      (response : Response M) (value before after : Text) (n : ℕ)
      → http.get response.headers (codes "content-length") ≡ some value
      → http.to_str value ≡ some (before ++ (decimal n ++ after))
      → all is_whitespace before ≡ true
      → all is_whitespace after ≡ true
      → n ≤ u64_max
      → content_length http codecs response ≡ some n
  unfolding content_length
  content_length-decimal response value before after n h s b a fits =
      rw (h, s) (parse_unsigned-trim u64_max n before after b a fits)
