-- ===== src/Request/Calls/Sending.antt =====
-- The calls of `send` as a whole.
use mechanics_http_client.Prelude.{
  ℕ, ◌+◌, ◌*◌, ◌≤◌, refl, Option, none, some, arith, Bool-cases, inl, inr, or,
}
use mechanics_http_client.Text.{Text}
use mechanics_http_client.Error.{Result, ok, err}
use mechanics_http_client.Origin.{Origin, Uri, from_uri}
use mechanics_http_client.Async.{World, Timer, IsTimer, pure}
use mechanics_http_client.Async.Spends.{
  Spends-panic, Spends, Spends-pure, Spends-now, Spends-bind, Spends-le, Spends-timeout, total,
}
use mechanics_http_client.Async.Sync.{Sync-Spends}
use mechanics_http_client.Http.{
  Parts, RequestBody, Response, Call, tcp_request, send_request, ClientInner, Http, Network, Shared,
}
use mechanics_http_client.Cache.Effects.{insert_negative-Sync}
use mechanics_http_client.Http3.{H3}
use mechanics_http_client.Http3.Effects.{Requests}
use mechanics_http_client.Request.Builder.{RequestBuilder, replayable_for_h3}
use mechanics_http_client.Request.Calls.{try_http3-Spends}
use mechanics_http_client.Request.Calls.Tcp.{after_phase-Spends}
use mechanics_http_client.Request.Fallback.{try_http3}
use mechanics_http_client.Request.Valid.{send-cases}
use mechanics_http_client.Request.Send.{
  settings, after_http3, bounded_http3, http3_phase, builder_headers, request_for_http3, send_to,
  send,
}

-- Requests over HTTP/3, and over TCP.
abbrev pub h3_requests : {M : Type 0} → Call M → ℕ
h3_requests (send_request parts) = 1
h3_requests _ = 0

abbrev pub tcp_requests : {M : Type 0} → Call M → ℕ
tcp_requests (tcp_request parts body) = 1
tcp_requests _ = 0

module _ {M : Type 0} (http : Http M) (net : Network M) (timer : Timer Shared (Call M))
    (law : IsTimer timer) (client : ClientInner M) (horizon : ℕ) where
  module _ {cost : Call M → ℕ} {k j : ℕ} (r : Requests cost k)
      (tcp : (parts : Parts M) (body : RequestBody) → cost (tcp_request parts body) ≤ j) where
    after_http3-Spends :
        (origin : Origin) (result : Option (Result (Option (Response M))))
        → Spends cost 0 (after_http3 http net timer client horizon origin result)
    unfolding after_http3
    after_http3-Spends origin (some result) = Spends-pure _
    after_http3-Spends origin none = Spends-bind 0 0 _ _ Spends-now λ t.
        Spends-bind 0 0 _ _
          (Sync-Spends (insert_negative-Sync horizon client.http3_negative_cache_duration origin t)
            cost)
          λ u. Spends-pure _

    bounded_http3-Spends :
        (d : Option ℕ) (origin : Origin) (i : ℕ) (attempt : H3 M (Result (Option (Response M))))
        → Spends cost i attempt
        → Spends cost (i + 0) (bounded_http3 http net timer client horizon d origin attempt)
    unfolding bounded_http3
    bounded_http3-Spends none origin i attempt h = Spends-bind i 0 _ _ h (λ x. Spends-pure _)
    bounded_http3-Spends (some d) origin i attempt h =
        Spends-bind i 0 _ _ (Spends-timeout timer i d _ law h) (after_http3-Spends origin)

    http3_phase-Spends :
        (b : RequestBuilder M) (uri : Uri) (origin : Option Origin) (body : Option (Option Text))
        → Spends cost (4 * k + 0) (http3_phase http net timer client horizon b uri origin body)
    unfolding http3_phase
    http3_phase-Spends b uri none body = Spends-le 0 _ (Spends-pure _) (omega arith)
    http3_phase-Spends b uri (some origin) none = Spends-le 0 _ (Spends-pure _) (omega arith)
    http3_phase-Spends b uri (some origin) (some body) = elim (Bool-cases client.http3_enabled) [
      | inl on ↦ rw on (
          attempted (
            request_for_http3 http b.method uri
              (builder_headers http b.method uri client.default_headers b.headers)))
      | inr off ↦ rw off (Spends-le 0 _ (Spends-pure _) (omega arith))
    ]
      where
        attempted :
            (request : Result (Parts M))
            → Spends cost (4 * k + 0) (elim request [
              | err e ↦ pure (some (err e))
              | ok parts ↦
                  bounded_http3 http net timer client horizon
                    (or b.timeout client.default_timeout)
                    origin
                    (try_http3 net timer (settings http net timer client horizon) origin parts body)
            ])
        attempted (err e) = Spends-le 0 _ (Spends-pure _) (omega arith)
        attempted (ok parts) =
            bounded_http3-Spends _ origin (4 * k) _
              (try_http3-Spends net timer law _ r origin parts body)

    send-Spends :
        (b : RequestBuilder M) → Spends cost (4 * k + j) (send http net timer client horizon b)
    unfolding send_to
    send-Spends b =
        send-cases http net timer client horizon (Spends cost (4 * k + j)) b
          (λ e. Spends-le 0 _ (Spends-pure _) (omega arith))
          (λ uri u full. Spends-le 0 _ Spends-panic (omega arith))
          (λ uri u.
            Spends-le (4 * k + 0 + (j + 0)) _
              (Spends-bind (4 * k + 0) (j + 0) _ _
                (http3_phase-Spends b uri (from_uri uri) (replayable_for_h3 b.body))
                (after_phase-Spends http net timer law client horizon tcp b uri))
              (omega arith))

  h3_requests-Requests : Requests {M = M} h3_requests 1
  h3_requests-Requests = record {
    free_https = λ host. refl;
    free_socket = λ host port. refl;
    free_handshake = λ a host. refl;
    free_setup = refl;
    request_cost = λ parts. omega arith;
    free_data = λ bytes. refl;
    free_finish = refl;
    free_response = refl;
  }

  tcp_requests-Requests : Requests {M = M} tcp_requests 0
  tcp_requests-Requests = record {
    free_https = λ host. refl;
    free_socket = λ host port. refl;
    free_handshake = λ a host. refl;
    free_setup = refl;
    request_cost = λ parts. omega arith;
    free_data = λ bytes. refl;
    free_finish = refl;
    free_response = refl;
  }

  -- With a timer that does what is documented, one `send` starts at most four HTTP/3 requests and at
  -- most one request over TCP, whatever the network does and whenever the call is dropped.
  pub send_calls_bounded :
      (b : RequestBuilder M) (cutoff : Option ℕ) (w : World Shared (Call M))
      → (total h3_requests (send http net timer client horizon b cutoff w).1.trace
          ≤ 4 + total h3_requests w.trace)
        × (total tcp_requests (send http net timer client horizon b cutoff w).1.trace
            ≤ 1 + total tcp_requests w.trace)
  send_calls_bounded b cutoff w = (
    omega (
      arith,
      (send-Spends {j = 0} h3_requests-Requests (λ parts body. omega arith) b).spends cutoff w,
    ),
    omega (
      arith,
      (send-Spends {j = 1} tcp_requests-Requests (λ parts body. omega arith) b).spends cutoff w,
    ),
  )
