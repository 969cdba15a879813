-- ===== src/Response.antt =====
-- src/response.rs: reading a response. `serde_json` and the decoders of `flate2` and `brotli` are
-- parameters; a body that has been taken is `none`.
pub mod Collecting
pub mod Reading
pub mod Streaming
use mechanics_http_client.Prelude.{
  ℕ, ◌+◌, ◌-◌, ◌^◌, Bool, Option, none, some, List, [], ◌∷◌, ◌++◌, ◌||◌, ltb, min, if◌then◌else◌,
  unwrap_or, length, map,
}
use mechanics_http_client.Text.{
  Text, codes, str_eq, trim, to_ascii_lowercase, contains, parse_unsigned, u64_max,
}
use mechanics_http_client.Error.{
  Error, body_too_large, unreachable, cancelled, decode, internal, Result, ok, err,
}
use mechanics_http_client.Http.{
  Fallible, success, failure, Frame, data_frame, other_frame, Polled, frame, failed, ResponseBody,
  hyper, h3, Response, Http,
}

-- The largest `usize` of a 64-bit platform.
abbrev pub usize_max : ℕ
usize_max = 2 ^ 64 - 1

-- `usize::saturating_add`
abbrev pub saturating_add : ℕ → ℕ → ℕ
saturating_add a b = min (a + b) usize_max

infixl 5 ◌>>=◌
abbrev pub ◌>>=◌ : {A B : Type 0} → Result A → (A → Result B) → Result B
ok a >>= f = f a
err e >>= f = err e

-- The texts searched for are of ASCII letters whose only lower-case forms are their own, so that
-- lowering ASCII letters finds them where `str::to_lowercase` does.
unfoldable pub map_hyper_body_error : Text → Error
unfolding to_ascii_lowercase contains
map_hyper_body_error message =
    let lower = to_ascii_lowercase message in
    if contains lower (codes "canceled") || contains lower (codes "cancelled")
    then cancelled message
    else unreachable message

-- One await of a body of hyper, with its error as the client reports it.
abbrev pub reported : Polled Text → Polled Error
reported (frame f) = frame f
reported (failed e) = failed (map_hyper_body_error e)

-- The loop of `collect_body_with_cap`, from a buffer on.
unfoldable pub collect_body_with_cap : ℕ → Text → List (Polled Text) → Result Text
collect_body_with_cap max_bytes buf [] = ok buf
collect_body_with_cap max_bytes buf (frame (data_frame bytes) ∷ body) =
    let rest = collect_body_with_cap max_bytes (buf ++ bytes) body in
    if ltb max_bytes (saturating_add (length buf) (length bytes))
    then err (body_too_large max_bytes (length buf))
    else rest
collect_body_with_cap max_bytes buf (frame other_frame ∷ body) =
    collect_body_with_cap max_bytes buf body
collect_body_with_cap max_bytes buf (failed e ∷ body) = err (map_hyper_body_error e)

-- The loop of `collect_mhc_body_with_cap`.
unfoldable pub collect_mhc_body_with_cap : ℕ → Text → List (Polled Error) → Result Text
collect_mhc_body_with_cap max_bytes buf [] = ok buf
collect_mhc_body_with_cap max_bytes buf (frame (data_frame bytes) ∷ body) =
    let rest = collect_mhc_body_with_cap max_bytes (buf ++ bytes) body in
    if ltb max_bytes (saturating_add (length buf) (length bytes))
    then err (body_too_large max_bytes (length buf))
    else rest
collect_mhc_body_with_cap max_bytes buf (frame other_frame ∷ body) =
    collect_mhc_body_with_cap max_bytes buf body
collect_mhc_body_with_cap max_bytes buf (failed e ∷ body) = err e

-- The decoders, from the compressed bytes to the others.
pub record Codecs : Type 0 where
  pub gzip : Text → Fallible Text
  pub zlib : Text → Fallible Text
  pub brotli : Text → Fallible Text

abbrev decoded : Text → Fallible Text → Result Text
decoded prefix (success bytes) = ok bytes
decoded prefix (failure e) = err (decode (prefix ++ e))

module _ (codecs : Codecs) where
  unfoldable pub decompress : Option Text → Text → Result Text
  decompress encoding body =
      let kind = to_ascii_lowercase (trim (unwrap_or encoding (codes "identity"))) in
      if str_eq kind (codes "") || str_eq kind (codes "identity")
      then ok body
      else if str_eq kind (codes "gzip") || str_eq kind (codes "x-gzip")
      then decoded (codes "gzip decode: ") (codecs.gzip body)
      else if str_eq kind (codes "deflate")
      then decoded (codes "deflate decode: ") (codecs.zlib body)
      else if str_eq kind (codes "br")
      then decoded (codes "brotli decode: ") (codecs.brotli body)
      else err (decode (codes "unsupported Content-Encoding `" ++ (kind ++ codes "`")))

abbrev pub and_then : {A B : Type 0} → Option A → (A → Option B) → Option B
and_then none f = none
and_then (some a) f = f a

abbrev pub raw_body : ℕ → Option ResponseBody → Result Text
raw_body max_wire_bytes none = err (internal (codes "response body already consumed"))
raw_body max_wire_bytes (some (hyper body)) = collect_body_with_cap max_wire_bytes [] body
raw_body max_wire_bytes (some (h3 body)) = collect_mhc_body_with_cap max_wire_bytes [] body

-- The stream that `into_body` makes of a body.
abbrev pub stream_of : Option ResponseBody → Result (List (Polled Error))
stream_of none = err (internal (codes "response body already consumed"))
stream_of (some (hyper body)) = ok (map reported body)
stream_of (some (h3 body)) = ok body

-- `Response::into_body`
unfoldable pub into_body : {M : Type 0} → Response M → Result (List (Polled Error))
into_body response = stream_of response.body

module _ {M : Type 0} (http : Http M) (codecs : Codecs) where
  -- `Response::content_length`
  unfoldable pub content_length : Response M → Option ℕ
  content_length response =
      and_then (and_then (http.get response.headers (codes "content-length")) http.to_str)
        (λ s. parse_unsigned u64_max (trim s))

  -- `Response::bytes_with_cap`
  unfoldable pub bytes_with_cap : ℕ → Response M → Result Text
  unfolding decompress collect_body_with_cap collect_mhc_body_with_cap
  bytes_with_cap max_wire_bytes response = do
    raw ← raw_body max_wire_bytes response.body
    decompress codecs (and_then (http.get response.headers (codes "content-encoding")) http.to_str)
        raw

  -- `Response::bytes`
  unfoldable pub bytes : Response M → Result Text
  unfolding bytes_with_cap
  bytes = bytes_with_cap usize_max

  abbrev read_as : {A : Type 0} → Text → (Text → Fallible A) → Text → Result A
  read_as prefix parse body = elim (parse body) [
    | success a ↦ ok a
    | failure e ↦ err (decode (prefix ++ e))
  ]

  -- `Response::text` and `Response::json`, with the parser of UTF-8 and that of JSON.
  unfoldable pub text : (Text → Fallible Text) → Response M → Result Text
  unfolding bytes
  text from_utf8 response = do
    body ← bytes response
    read_as (codes "response body is not valid UTF-8: ") from_utf8 body

  unfoldable pub json : {A : Type 0} → (Text → Fallible A) → Response M → Result A
  unfolding bytes
  json from_slice response = do
    body ← bytes response
    read_as (codes "response body is not valid JSON: ") from_slice body
