-- ===== src/Request/Timing/Sending.antt =====
-- The time of `send` as a whole.
use mechanics_http_client.Prelude.{
  ℕ, ◌+◌, ◌≤◌, ◌≡◌, ◌≢◌, Option, none, some, arith, Bool-cases, inl, inr, or,
}
use mechanics_http_client.Text.{Text}
use mechanics_http_client.Error.{Result, ok, err}
use mechanics_http_client.Origin.{Origin, Uri, from_uri}
use mechanics_http_client.Async.{hangs, World, Timer, IsTimer, pure}
use mechanics_http_client.Async.Timing.{
  Lasts-panic, InTime, Obeys, Obeys-await, Lasts, Lasts-pure, Lasts-now, Lasts-bind, Lasts-le,
  Lasts-timeout,
}
use mechanics_http_client.Async.Sync.{Sync-Lasts}
use mechanics_http_client.Http.{
  Fallible, success, failure, Parts, RequestBody, Response, Call, tcp_request, ClientInner, Http,
  Network, Shared,
}
use mechanics_http_client.Cache.Effects.{insert_negative-Sync, maybe_update_alt_svc-Sync}
use mechanics_http_client.Http3.{H3}
use mechanics_http_client.Request.Builder.{RequestBuilder, replayable_for_h3, into_body}
use mechanics_http_client.Request.Timing.{Obeys-Rules}
use mechanics_http_client.Request.Walk.Fallback.{try_http3-walk}
use mechanics_http_client.Request.Fallback.{try_http3}
use mechanics_http_client.Request.Valid.{send-cases}
use mechanics_http_client.Request.Send.{
  settings, after_http3, bounded_http3, http3_phase, answered_in_time, over_tcp, after_phase, built,
  builder_headers, request_for_http3, send_to, send,
}

module _ {M : Type 0} (http : Http M) (net : Network M) (timer : Timer Shared (Call M))
    (law : IsTimer timer) (client : ClientInner M) (horizon d : ℕ) where
  after_http3-Lasts :
      (origin : Origin) (result : Option (Result (Option (Response M))))
      → Lasts 0 (after_http3 http net timer client horizon origin result)
  unfolding after_http3
  after_http3-Lasts origin (some result) = Lasts-pure _
  after_http3-Lasts origin none = Lasts-bind 0 0 _ _ Lasts-now λ t.
      Lasts-bind 0 0 _ _
        (Sync-Lasts (insert_negative-Sync horizon client.http3_negative_cache_duration origin t))
        λ u. Lasts-pure _

  bounded_http3-Lasts :
      (origin : Origin) (attempt : H3 M (Result (Option (Response M))))
      → Obeys attempt
      → Lasts (d + 0) (bounded_http3 http net timer client horizon (some d) origin attempt)
  unfolding bounded_http3
  bounded_http3-Lasts origin attempt o =
      Lasts-bind d 0 _ _ (Lasts-timeout timer law d _ o) (after_http3-Lasts origin)

  answered_in_time-Lasts :
      (uri : Uri) (result : Option (Fallible (Response M)))
      → Lasts 0 (answered_in_time http net timer client horizon uri result)
  answered_in_time-Lasts uri none = Lasts-pure _
  answered_in_time-Lasts uri (some (failure message)) = Lasts-pure _
  answered_in_time-Lasts uri (some (success response)) =
      Lasts-bind 0 0 _ _ (Sync-Lasts (maybe_update_alt_svc-Sync http horizon uri response))
        (λ u. Lasts-pure _)

  over_tcp-Lasts :
      (uri : Uri) (parts : Parts M) (body : RequestBody)
      → Lasts (d + 0) (over_tcp http net timer client horizon (some d) uri parts body)
  unfolding over_tcp
  over_tcp-Lasts uri parts body =
      Lasts-bind d 0 _ _
        (Lasts-timeout timer law d _ (
          Obeys-await net.others (tcp_request parts body)
            (λ calls. net.tcp_request calls parts body)))
        (answered_in_time-Lasts uri)

  module _ (b : RequestBuilder M) (limit : or b.timeout client.default_timeout ≡ some d) where
    http3_phase-Lasts :
        (uri : Uri) (origin : Option Origin) (body : Option (Option Text))
        → Lasts (d + 0) (http3_phase http net timer client horizon b uri origin body)
    unfolding http3_phase
    http3_phase-Lasts uri none body = Lasts-le 0 _ (Lasts-pure _) (omega arith)
    http3_phase-Lasts uri (some origin) none = Lasts-le 0 _ (Lasts-pure _) (omega arith)
    http3_phase-Lasts uri (some origin) (some body) = elim (Bool-cases client.http3_enabled) [
      | inl on ↦ rw on (
          attempted (
            request_for_http3 http b.method uri
              (builder_headers http b.method uri client.default_headers b.headers)))
      | inr off ↦ rw off (Lasts-le 0 _ (Lasts-pure _) (omega arith))
    ]
      where
        attempted :
            (request : Result (Parts M))
            → Lasts (d + 0) (elim request [
              | err e ↦ pure (some (err e))
              | ok parts ↦
                  bounded_http3 http net timer client horizon
                    (or b.timeout client.default_timeout)
                    origin
                    (try_http3 net timer (settings http net timer client horizon) origin parts body)
            ])
        attempted (err e) = Lasts-le 0 _ (Lasts-pure _) (omega arith)
        attempted (ok parts) = rw limit (
            bounded_http3-Lasts origin _ (
              try_http3-walk (Obeys-Rules net timer law (settings http net timer client horizon))
                parts body origin tt))

    after_phase-Lasts :
        (uri : Uri) (early : Option (Result (Response M)))
        → Lasts (d + 0) (after_phase http net timer client horizon b uri early)
    unfolding after_phase
    after_phase-Lasts uri (some result) = Lasts-le 0 _ (Lasts-pure _) (omega arith)
    after_phase-Lasts uri none = sent (
        built http "request build: " b.method uri
          (builder_headers http b.method uri client.default_headers b.headers))
      where
        sent :
            (request : Result (Parts M))
            → Lasts (d + 0) (elim request [
              | err e ↦ pure (err e)
              | ok parts ↦
                  over_tcp http net timer client horizon
                    (or b.timeout client.default_timeout)
                    uri
                    parts
                    (into_body b.body)
            ])
        sent (err e) = Lasts-le 0 _ (Lasts-pure _) (omega arith)
        sent (ok parts) = rw limit (over_tcp-Lasts uri parts _)

    send_to-Lasts : (uri : Uri) → Lasts (d + d) (send_to http net timer client horizon b uri)
    unfolding send_to
    send_to-Lasts uri =
        Lasts-le (d + 0 + (d + 0)) _
          (Lasts-bind (d + 0) (d + 0) _ _
            (http3_phase-Lasts uri (from_uri uri) (replayable_for_h3 b.body))
            (after_phase-Lasts uri))
          (omega arith)

    send-Lasts : Lasts (d + d) (send http net timer client horizon b)
    send-Lasts =
        send-cases http net timer client horizon (Lasts (d + d)) b
          (λ e. Lasts-le 0 _ (Lasts-pure _) (omega arith))
          (λ uri u full. Lasts-le 0 _ Lasts-panic (omega arith)) (λ uri u. send_to-Lasts uri)

    -- With a timer that does what is documented, and under a timeout `d` of the request or else of
    -- the client, a `send` that starts before its cut-off is over after twice `d`: once for the
    -- HTTP/3 attempt and once for TCP. It does not hang, whatever the network does.
    pub send_deadline :
        (cutoff : Option ℕ) (w : World Shared (Call M))
        → InTime cutoff w
        → ((send http net timer client horizon b cutoff w).1.clock ≤ w.clock + (d + d))
          × ((send http net timer client horizon b cutoff w).0 ≢ hangs)
    send_deadline cutoff w h = (send-Lasts.lasts cutoff w h, send-Lasts.returns cutoff w h)
