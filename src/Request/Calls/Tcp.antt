-- ===== src/Request/Calls/Tcp.antt =====
-- The calls of `send` once its HTTP/3 phase is over.
use mechanics_http_client.Prelude.{ℕ, ◌+◌, ◌≤◌, Option, none, some, arith, or}
use mechanics_http_client.Error.{Result, ok, err}
use mechanics_http_client.Origin.{Uri}
use mechanics_http_client.Async.{Timer, IsTimer, pure}
use mechanics_http_client.Async.Spends.{
  Spends, Spends-pure, Spends-bind, Spends-le, Spends-await, Spends-timeout,
}
use mechanics_http_client.Async.Sync.{Sync-Spends}
use mechanics_http_client.Http.{
  Fallible, success, failure, Parts, RequestBody, Response, Call, tcp_request, ClientInner, Http,
  Network, Shared,
}
use mechanics_http_client.Cache.Effects.{maybe_update_alt_svc-Sync}
use mechanics_http_client.Request.Builder.{RequestBuilder, into_body}
use mechanics_http_client.Request.Send.{
  answered, answered_in_time, over_tcp, after_phase, built, builder_headers,
}

module _ {M : Type 0} (http : Http M) (net : Network M) (timer : Timer Shared (Call M))
    (law : IsTimer timer) (client : ClientInner M) (horizon : ℕ) where
  module _ {cost : Call M → ℕ} {j : ℕ}
      (tcp : (parts : Parts M) (body : RequestBody) → cost (tcp_request parts body) ≤ j) where
    answered-Spends :
        (uri : Uri) (result : Fallible (Response M))
        → Spends cost 0 (answered http net timer client horizon uri result)
    answered-Spends uri (failure message) = Spends-pure _
    answered-Spends uri (success response) =
        Spends-bind 0 0 _ _ (Sync-Spends (maybe_update_alt_svc-Sync http horizon uri response) cost)
          (λ u. Spends-pure _)

    over_tcp-Spends :
        (d : Option ℕ) (uri : Uri) (parts : Parts M) (body : RequestBody)
        → Spends cost (j + 0) (over_tcp http net timer client horizon d uri parts body)
    unfolding over_tcp
    over_tcp-Spends none uri parts body =
        Spends-bind j 0 _ _ (Spends-await j net.others (tcp_request parts body) _ (tcp parts body))
          (answered-Spends uri)
    over_tcp-Spends (some d) uri parts body =
        Spends-bind j 0 _ _
          (Spends-timeout timer j d _ law
            (Spends-await j net.others (tcp_request parts body) _ (tcp parts body)))
          in_time
      where
        in_time :
            (result : Option (Fallible (Response M)))
            → Spends cost 0 (answered_in_time http net timer client horizon uri result)
        in_time none = Spends-pure _
        in_time (some result) = answered-Spends uri result

    pub after_phase-Spends :
        (b : RequestBuilder M) (uri : Uri) (early : Option (Result (Response M)))
        → Spends cost (j + 0) (after_phase http net timer client horizon b uri early)
    unfolding after_phase
    after_phase-Spends b uri (some result) = Spends-le 0 _ (Spends-pure _) (omega arith)
    after_phase-Spends b uri none = sent (
        built http "request build: " b.method uri
          (builder_headers http b.method uri client.default_headers b.headers))
      where
        sent :
            (request : Result (Parts M))
            → Spends cost (j + 0) (elim request [
              | err e ↦ pure (err e)
              | ok parts ↦
                  over_tcp http net timer client horizon
                    (or b.timeout client.default_timeout)
                    uri
                    parts
                    (into_body b.body)
            ])
        sent (err e) = Spends-le 0 _ (Spends-pure _) (omega arith)
        sent (ok parts) = over_tcp-Spends _ uri parts _
