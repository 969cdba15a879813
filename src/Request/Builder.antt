-- ===== src/Request/Builder.antt =====
-- src/request.rs: `RequestPayload` and the chainable methods of `RequestBuilder`. The conversions of
-- a caller's value into a header name, a header value or JSON are given by their results.
pub mod Ops
use mechanics_http_client.Prelude.{
  ℕ, Bool, Option, none, some, [], ◌∷◌, ◌++◌, ◌||◌, if◌then◌else◌, unwrap_or, or,
}
use mechanics_http_client.Text.{Text, codes, str_eq}
use mechanics_http_client.Error.{
  Error, invalid_url, invalid_header, serialize_json, Result, ok, err,
}
use mechanics_http_client.Origin.{Uri}
use mechanics_http_client.Http.{
  Fallible, success, failure, Http, RequestBody, empty_body, full_body, streaming_body,
}

pub data RequestPayload : Type 0 where
  empty : RequestPayload
  replayable : Text → RequestPayload
  streaming : RequestBody → RequestPayload

unfoldable pub replayable_for_h3 : RequestPayload → Option (Option Text)
replayable_for_h3 empty = some none
replayable_for_h3 (replayable bytes) = some (some bytes)
replayable_for_h3 (streaming _) = none

unfoldable pub into_body : RequestPayload → RequestBody
into_body empty = empty_body
into_body (replayable bytes) = full_body bytes
into_body (streaming body) = body

pub record RequestBuilder (M : Type 0) : Type 0 where
  pub method : Text
  pub uri : Result Uri
  pub headers : M
  pub body : RequestPayload
  pub timeout : Option ℕ
  pub deferred_error : Option Error

-- `deferred_error.get_or_insert_with(…)`: the first error stays.
abbrev pub defer : {M : Type 0} → Error → RequestBuilder M → RequestBuilder M
defer e b = record b { deferred_error = or b.deferred_error (some e) }

unfoldable pub checked_uri : Text → Fallible Uri → Result Uri
checked_uri url (failure e) =
    err (invalid_url (codes "could not parse `" ++ (url ++ (codes "`: " ++ e))))
checked_uri url (success uri) =
    let scheme = unwrap_or uri.scheme_str (codes "") in
    if str_eq scheme (codes "http") || str_eq scheme (codes "https")
    then ok uri
    else err (
        invalid_url
          (codes "unsupported scheme `" ++ (scheme ++ (codes "` in `" ++ (url ++ codes "`")))))

module _ {M : Type 0} (http : Http M) where
  -- `RequestBuilder::new`
  unfoldable pub new : Text → Text → RequestBuilder M
  unfolding checked_uri
  new method url = record {
    method = method;
    uri = checked_uri url (http.parse_uri url);
    headers = http.empty;
    body = empty;
    timeout = none;
    deferred_error = none;
  }

  -- `RequestBuilder::header`
  unfoldable pub header : Option Text → Option Text → RequestBuilder M → RequestBuilder M
  header none value b = defer (invalid_header (codes "header name rejected")) b
  header (some name) none b =
      defer (invalid_header (codes "header `" ++ (name ++ codes "` value rejected"))) b
  header (some name) (some value) b = record b { headers = http.append b.headers name value }

  -- `RequestBuilder::bearer_auth`
  unfoldable pub bearer_auth : Text → RequestBuilder M → RequestBuilder M
  unfolding header
  bearer_auth token =
      header (some (codes "authorization")) (http.header_value (codes "Bearer " ++ token))

  -- `RequestBuilder::json`
  unfoldable pub json : Fallible Text → RequestBuilder M → RequestBuilder M
  json (success bytes) b = record b {
    body = replayable bytes;
    headers =
        if http.contains_key b.headers (codes "content-type")
        then b.headers
        else http.insert b.headers (codes "content-type") (codes "application/json");
  }
  json (failure e) b = defer (serialize_json e) b

module _ {M : Type 0} where
  -- `RequestBuilder::timeout`
  unfoldable pub timeout : ℕ → RequestBuilder M → RequestBuilder M
  timeout d b = record b { timeout = some d }

  -- `RequestBuilder::body`
  unfoldable pub body : Text → RequestBuilder M → RequestBuilder M
  body bytes b = record b { body = replayable bytes }

  -- `RequestBuilder::body_streaming`
  unfoldable pub body_streaming : ℕ → RequestBuilder M → RequestBuilder M
  body_streaming stream b = record b { body = streaming (streaming_body stream) }
