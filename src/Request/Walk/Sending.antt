-- ===== src/Request/Walk/Sending.antt =====
-- The walk through `send`.
use mechanics_http_client.Prelude.{
  false, ℕ, ◌≡◌, refl, Option, none, some, or, inl, inr, Bool-cases,
}
use mechanics_http_client.Text.{Text}
use mechanics_http_client.Error.{Error, Result, ok, err}
use mechanics_http_client.Origin.{Origin, Uri, from_uri}
use mechanics_http_client.Async.{Timer, pure, panic, ◌>>◌}
use mechanics_http_client.Cache.{maybe_update_alt_svc}
use mechanics_http_client.Http.{
  Fallible, success, failure, Parts, RequestBody, Response, Call, tcp_request, ClientInner, Http,
  Network, Shared,
}
use mechanics_http_client.Http3.{H3}
use mechanics_http_client.Request.Builder.{RequestBuilder, replayable_for_h3, into_body}
use mechanics_http_client.Request.Fallback.{remember_failure, try_http3}
use mechanics_http_client.Request.Valid.{send-cases}
use mechanics_http_client.Request.Send.{
  settings, after_http3, bounded_http3, http3_phase, answered, answered_in_time, over_tcp,
  after_phase, built, builder_headers, request_for_http3, send_to, headers_fit, send,
}
use mechanics_http_client.Request.Walk.{Rules}
use mechanics_http_client.Request.Walk.Fallback.{try_http3-walk}

module _ {M : Type 0} (http : Http M) {net : Network M} {timer : Timer Shared (Call M)}
    (client : ClientInner M) (horizon : ℕ) {IsMine : Origin → Type 0} {IsPast : ℕ → Type 0}
    {P : (A : Type 0) → H3 M A → Type 0}
    (r : Rules net timer (settings http net timer client horizon) IsMine IsPast P) where
  pub after_http3-walk :
      (origin : Origin) (result : Option (Result (Option (Response M))))
      → IsMine origin
      → P _ (after_http3 http net timer client horizon origin result)
  unfolding after_http3
  after_http3-walk origin (some result) o = r.on_pure _
  after_http3-walk origin none o =
      r.on_now
        (λ t.
          remember_failure (settings http net timer client horizon) origin t
          >> pure (some (err Error.timeout)))
        (λ t p. r.on_bind _ _ (r.on_insert_negative origin t o p) (λ u. r.on_pure _))

  pub bounded_http3-walk :
      (d : Option ℕ) (origin : Origin) (attempt : H3 M (Result (Option (Response M))))
      → IsMine origin
      → P _ attempt
      → P _ (bounded_http3 http net timer client horizon d origin attempt)
  unfolding bounded_http3
  bounded_http3-walk none origin attempt o h = r.on_bind _ _ h (λ x. r.on_pure _)
  bounded_http3-walk (some d) origin attempt o h =
      r.on_bind _ _ (r.on_timeout d _ h) (λ result. after_http3-walk origin result o)

  pub http3_phase-walk :
      (b : RequestBuilder M) (uri : Uri) (origin : Option Origin) (body : Option (Option Text))
      → ((o : Origin) → origin ≡ some o → IsMine o)
      → P _ (http3_phase http net timer client horizon b uri origin body)
  unfolding http3_phase
  http3_phase-walk b uri none body mine = r.on_pure _
  http3_phase-walk b uri (some origin) none mine = r.on_pure _
  http3_phase-walk b uri (some origin) (some body) mine = elim (Bool-cases client.http3_enabled) [
    | inl on ↦ rw on (
        attempted (
          request_for_http3 http b.method uri
            (builder_headers http b.method uri client.default_headers b.headers)))
    | inr off ↦ rw off (r.on_pure _)
  ]
    where
      attempted :
          (request : Result (Parts M))
          → P _ (elim request [
            | err e ↦ pure (some (err e))
            | ok parts ↦
                bounded_http3 http net timer client horizon
                  (or b.timeout client.default_timeout)
                  origin
                  (try_http3 net timer (settings http net timer client horizon) origin parts body)
          ])
      attempted (err e) = r.on_pure _
      attempted (ok parts) =
          bounded_http3-walk _ origin _ (mine origin refl)
            (try_http3-walk r parts body origin (mine origin refl))

  module _ (b : RequestBuilder M)
      (mine : (uri : Uri) → b.uri ≡ ok uri → (o : Origin) → from_uri uri ≡ some o → IsMine o)
      (update : (uri : Uri) (response : Response M)
        → b.uri ≡ ok uri
        → P _ (maybe_update_alt_svc http horizon uri response)) where
    module _ (uri : Uri) (parsed : b.uri ≡ ok uri) where
      answered-walk :
          (result : Fallible (Response M)) → P _ (answered http net timer client horizon uri result)
      answered-walk (failure message) = r.on_pure _
      answered-walk (success response) =
          r.on_bind _ _ (update uri response parsed) (λ u. r.on_pure _)

      answered_in_time-walk :
          (result : Option (Fallible (Response M)))
          → P _ (answered_in_time http net timer client horizon uri result)
      answered_in_time-walk none = r.on_pure _
      answered_in_time-walk (some result) = answered-walk result

      pub over_tcp-walk :
          (d : Option ℕ) (parts : Parts M) (body : RequestBody)
          → P _ (over_tcp http net timer client horizon d uri parts body)
      unfolding over_tcp
      over_tcp-walk none parts body =
          r.on_bind _ _
            (r.on_await (tcp_request parts body) (λ calls. net.tcp_request calls parts body))
            answered-walk
      over_tcp-walk (some d) parts body =
          r.on_bind _ _
            (r.on_timeout d _
              (r.on_await (tcp_request parts body) (λ calls. net.tcp_request calls parts body)))
            answered_in_time-walk

      pub after_phase-walk :
          (early : Option (Result (Response M)))
          → P _ (after_phase http net timer client horizon b uri early)
      unfolding after_phase
      after_phase-walk (some result) = r.on_pure _
      after_phase-walk none = sent (
          built http "request build: " b.method uri
            (builder_headers http b.method uri client.default_headers b.headers))
        where
          sent :
              (request : Result (Parts M))
              → P _ (elim request [
                | err e ↦ pure (err e)
                | ok parts ↦
                    over_tcp http net timer client horizon
                      (or b.timeout client.default_timeout)
                      uri
                      parts
                      (into_body b.body)
              ])
          sent (err e) = r.on_pure _
          sent (ok parts) = over_tcp-walk _ parts _

      send_to-walk : P _ (send_to http net timer client horizon b uri)
      unfolding send_to
      send_to-walk =
          r.on_bind _ _
            (http3_phase-walk b uri (from_uri uri) (replayable_for_h3 b.body) (mine uri parsed))
            after_phase-walk

    -- Where the headers do not fit, `send` panics.
    pub send-walk :
        ((uri : Uri)
          → b.uri ≡ ok uri
          → headers_fit http b.method uri client.default_headers b.headers ≡ false
          → P (Result (Response M)) panic)
        → P _ (send http net timer client horizon b)
    send-walk full =
        send-cases http net timer client horizon (P (Result (Response M))) b (λ e. r.on_pure _) full
          send_to-walk
