-- ===== src/Request/Send.antt =====
-- src/request.rs: `RequestBuilder::send`.
use mechanics_http_client.Prelude.{
  ℕ, String, Bool, true, ◌&&◌, ◌||◌, Option, none, some, List, [], ◌∷◌, ◌++◌, if◌then◌else◌, or,
}
use mechanics_http_client.Text.{Text, codes, contains}
use mechanics_http_client.Error.{Error, unreachable, tls, internal, Result, ok, err}
use mechanics_http_client.Origin.{Origin, Uri, from_uri}
use mechanics_http_client.Async.{Timer, pure, panic, now, ◌>>=◌, ◌>>◌, await}
use mechanics_http_client.Http.{
  Fallible, success, failure, Parts, RequestBody, Response, Call, tcp_request, ClientInner, Http,
  Network, Shared,
}
use mechanics_http_client.Cache.{maybe_update_alt_svc}
use mechanics_http_client.Http3.{H3}
use mechanics_http_client.Request.Builder.{RequestBuilder, replayable_for_h3, into_body}
use mechanics_http_client.Request.Fallback.{Settings, remember_failure, try_http3}

unfoldable pub map_legacy_error : Text → Error
unfolding contains
map_legacy_error message =
    if contains message (codes "connection")
      || contains message (codes "connect")
      || contains message (codes "dns")
    then unreachable message
    else if contains message (codes "certificate")
        || contains message (codes "tls")
        || contains message (codes "TLS")
    then tls message
    else internal message

module _ {M : Type 0} (http : Http M) where
  unfoldable pub append_all : M → List (Text × Text) → M
  append_all m [] = m
  append_all m ((name, value) ∷ rest) = append_all (http.append m name value) rest

  -- Whether all these calls of `append` return; a header map has room for a limited number of names.
  unfoldable pub all_fit : M → List (Text × Text) → Bool
  all_fit m [] = true
  all_fit m ((name, value) ∷ rest) =
      let others = all_fit (http.append m name value) rest in http.has_room m name && others

  -- The default headers of the client, then those of the request.
  unfoldable pub merged_headers : M → M → M
  unfolding append_all
  merged_headers defaults own =
      append_all (append_all http.empty (http.iter defaults)) (http.iter own)

  -- Whether the loops that merge the headers of the client and those of the request return, rather
  -- than panic. They do not run with a builder in error.
  unfoldable pub headers_fit : Text → Uri → M → M → Bool
  unfolding append_all all_fit
  headers_fit method uri defaults own = elim (http.builder_error method uri) [
    | none ↦
        all_fit http.empty (http.iter defaults)
        && all_fit (append_all http.empty (http.iter defaults)) (http.iter own)
    | some _ ↦ true
  ]

  -- `headers_mut`, `headers_ref` and `body` of `http::request::Builder`: with a builder in error
  -- there are no headers to write or read, and the request is not built.
  abbrev pub builder_headers : Text → Uri → M → M → M
  builder_headers method uri defaults own = elim (http.builder_error method uri) [
    | none ↦ merged_headers defaults own
    | some _ ↦ http.empty
  ]

  abbrev pub built : String → Text → Uri → M → Result (Parts M)
  built prefix method uri headers = elim (http.builder_error method uri) [
    | none ↦ ok (record { method = method; uri = uri; headers = headers })
    | some e ↦ err (internal (codes prefix ++ e))
  ]

  unfoldable pub request_for_http3 : Text → Uri → M → Result (Parts M)
  request_for_http3 = built "HTTP/3 request build: "

module _ {M : Type 0} (http : Http M) (net : Network M) (timer : Timer Shared (Call M))
    (client : ClientInner M) (horizon : ℕ) where
  abbrev pub settings : Settings
  settings = record { horizon = horizon; negative_duration = client.http3_negative_cache_duration }

  -- The end of the HTTP/3 phase: `some` returns from `send`, `none` goes on to TCP.
  abbrev pub decided : Result (Option (Response M)) → Option (Result (Response M))
  decided (ok (some response)) = some (ok response)
  decided (ok none) = none
  decided (err e) = some (err e)

  -- The arms of the match on the timeout around the HTTP/3 attempt.
  unfoldable pub after_http3 :
      Origin → Option (Result (Option (Response M))) → H3 M (Option (Result (Response M)))
  after_http3 origin (some result) = pure (decided result)
  after_http3 origin none = do
    t ← now
    remember_failure settings origin t
    pure (some (err Error.timeout))

  unfoldable pub bounded_http3 :
      Option ℕ → Origin → H3 M (Result (Option (Response M))) → H3 M (Option (Result (Response M)))
  unfolding after_http3
  bounded_http3 none origin attempt = do result ← attempt; pure (decided result)
  bounded_http3 (some d) origin attempt = do
    in_time ← timer.timeout d attempt
    after_http3 origin in_time

  unfoldable pub http3_phase :
      RequestBuilder M
      → Uri
      → Option Origin
      → Option (Option Text)
      → H3 M (Option (Result (Response M)))
  unfolding bounded_http3 request_for_http3
  http3_phase b uri none body = pure none
  http3_phase b uri (some origin) none = pure none
  http3_phase b uri (some origin) (some body) =
      if client.http3_enabled
      then elim (request_for_http3 http b.method uri
          (builder_headers http b.method uri client.default_headers b.headers)) [
            | err e ↦ pure (some (err e))
            | ok parts ↦
                bounded_http3 (or b.timeout client.default_timeout) origin
                  (try_http3 net timer settings origin parts body)
          ]
      else pure none

  abbrev pub exchange : Parts M → RequestBody → H3 M (Fallible (Response M))
  exchange parts body =
      await net.others (tcp_request parts body) (λ calls. net.tcp_request calls parts body)

  abbrev pub answered : Uri → Fallible (Response M) → H3 M (Result (Response M))
  answered uri (failure message) = pure (err (map_legacy_error message))
  answered uri (success response) = do
    maybe_update_alt_svc http horizon uri response
    pure (ok response)

  abbrev pub answered_in_time : Uri → Option (Fallible (Response M)) → H3 M (Result (Response M))
  answered_in_time uri none = pure (err Error.timeout)
  answered_in_time uri (some result) = answered uri result

  unfoldable pub over_tcp : Option ℕ → Uri → Parts M → RequestBody → H3 M (Result (Response M))
  over_tcp none uri parts body = do result ← exchange parts body; answered uri result
  over_tcp (some d) uri parts body = do
    in_time ← timer.timeout d (exchange parts body)
    answered_in_time uri in_time

  -- `send` after the HTTP/3 phase, unless that has returned.
  unfoldable pub after_phase :
      RequestBuilder M → Uri → Option (Result (Response M)) → H3 M (Result (Response M))
  unfolding over_tcp into_body
  after_phase b uri (some result) = pure result
  after_phase b uri none =
      elim (built http "request build: " b.method uri
        (builder_headers http b.method uri client.default_headers b.headers)) [
          | err e ↦ pure (err e)
          | ok parts ↦ over_tcp (or b.timeout client.default_timeout) uri parts (into_body b.body)
        ]

  unfoldable pub send_to : RequestBuilder M → Uri → H3 M (Result (Response M))
  unfolding http3_phase after_phase replayable_for_h3
  send_to b uri = do
    early ← http3_phase b uri (from_uri uri) (replayable_for_h3 b.body)
    after_phase b uri early

  -- The loops that merge the headers, then the rest of `send`.
  unfoldable pub merge_and_send : RequestBuilder M → Uri → H3 M (Result (Response M))
  unfolding send_to headers_fit
  merge_and_send b uri =
      if headers_fit http b.method uri client.default_headers b.headers
      then send_to b uri
      else panic

  -- `RequestBuilder::send`
  unfoldable pub send : RequestBuilder M → H3 M (Result (Response M))
  unfolding merge_and_send
  send b = elim b.deferred_error [
    | some e ↦ pure (err e)
    | none ↦ elim b.uri [ err e ↦ pure (err e) | ok uri ↦ merge_and_send b uri ]
  ]
