-- ===== src/Request/Advertised/Attempting.antt =====
-- From the caches to the response: `try_http3` with an alternative at a server that answers.
use mechanics_http_client.Prelude.{
  ℕ, ◌+◌, ◌≡◌, Bool, true, false, Option, none, some, arith, if◌then◌else◌,
}
use mechanics_http_client.Text.{Text}
use mechanics_http_client.Error.{Result, ok, err}
use mechanics_http_client.Origin.{Origin}
use mechanics_http_client.Async.{World, Timer, IsTimer, pure, ◌>>=◌}
use mechanics_http_client.Async.Giving.{Gives, Gives-pure, Gives-le, Gives-bind, Gives-after}
use mechanics_http_client.Http.{Parts, Response, Call, HttpsRrEntry, Shared, Network}
use mechanics_http_client.AltSvc.{AltSvcEntry}
use mechanics_http_client.Cache.{negative_cache_hit, alt_svc_entry}
use mechanics_http_client.HttpsRr.{https_rr_entry}
use mechanics_http_client.Http3.{H3, Attempt, accepted, refused}
use mechanics_http_client.Http3.Effects.{Requests}
use mechanics_http_client.Http3.Serving.{Serves, h3_request_time}
use mechanics_http_client.Http3.Serving.Stream.{Accepts, request-Gives}
use mechanics_http_client.Request.Giving.{guarded-Gives}
use mechanics_http_client.Request.Fallback.{
  Settings, Http3RequestTarget, after_attempt, attempts, request_http3_with_stale_retry,
  via_alt_svc, via_https_rr, or_https_rr, by_alternatives, try_http3,
}
use mechanics_http_client.Request.Advertised.{
  Attemptable, Obtains, GoesOn, Chosen, Found, negative_cache_hit-Certain, alt_svc_entry-Certain,
  https_rr_entry-Certain,
}

module _ {M : Type 0} (net : Network M) (timer : Timer Shared (Call M)) (law : IsTimer timer)
    (settings : Settings) {cost : Call M → ℕ} (free : Requests cost 0) (response : Response M)
    (wait : ℕ) (serves : Serves net response wait) where
  request_http3_with_stale_retry-Gives :
      (target : Http3RequestTarget) (parts : Parts M) (body : Option Text) (t : ℕ)
      (w : World Shared (Call M))
      → w.shared.endpoint.poisoned ≡ false
      → Gives cost
          (Obtains response)
          (h3_request_time + wait + 0)
          (request_http3_with_stale_retry net timer settings target parts body t)
          w
  unfolding request_http3_with_stale_retry attempts after_attempt
  request_http3_with_stale_retry-Gives target parts body t w healthy =
      Gives-bind (Accepts response) (Obtains response) (h3_request_time + wait) 0 _ _ w
        (guarded-Gives settings (Accepts response) (h3_request_time + wait) target.origin _ w (
          request-Gives net timer law free response wait serves target.target target.authority_host
            target.addresses parts body w healthy))
        after
    where
      after :
          (result : Attempt (Response M)) (v : World Shared (Call M))
          → Accepts response result
          → Gives cost
              (Obtains response)
              0
              (after_attempt net timer settings
                (attempts net timer settings 1 1 target parts body t)
                target.origin
                t
                0
                result)
              v
      after (accepted r) v h = Gives-pure (Obtains response) (ok (some r)) v h
      after (refused e) v h = elim h [ ]

  or_https_rr-Gives :
      (origin : Origin) (parts : Parts M) (body : Option Text) (t : ℕ)
      (first : Result (Option (Response M))) (w : World Shared (Call M))
      → Obtains response first
      → Gives cost (Obtains response) 0 (or_https_rr net timer settings origin parts body t first) w
  unfolding or_https_rr
  or_https_rr-Gives origin parts body t (ok (some r)) w h =
      Gives-pure (Obtains response) (ok (some r)) w h
  or_https_rr-Gives origin parts body t (ok none) w h = elim h [ ]
  or_https_rr-Gives origin parts body t (err e) w h = elim h [ ]

  via_https_rr-Gives :
      (origin : Origin) (parts : Parts M) (body : Option Text) (t : ℕ) (e : HttpsRrEntry)
      (found : Option HttpsRrEntry) (w : World Shared (Call M))
      → e.has_h3 ≡ true
      → Found origin t w e found w
      → Gives cost
          (Obtains response)
          (h3_request_time + wait + 0)
          (via_https_rr net timer settings found origin parts body t)
          w
  unfolding via_https_rr
  via_https_rr-Gives origin parts body t e found w h (same, healthy) =
      rw (same, h) (request_http3_with_stale_retry-Gives _ parts body t w healthy)

  -- The attempt by the alternative that is known.
  alternative-Gives :
      (origin : Origin) (parts : Parts M) (body : Option Text) (t : ℕ)
      (alternative : Option AltSvcEntry) (w : World Shared (Call M))
      → Chosen origin t w alternative w
      → Gives cost
          (Obtains response)
          (h3_request_time + wait)
          (do
            first ← via_alt_svc net timer settings alternative origin parts body t
            or_https_rr net timer settings origin parts body t first)
          w
  unfolding via_alt_svc or_https_rr
  alternative-Gives origin parts body t (some e) w healthy =
      Gives-le (h3_request_time + wait + 0 + 0) (h3_request_time + wait) _ w (omega arith) (
        Gives-bind (Obtains response) (Obtains response) (h3_request_time + wait + 0) 0 _ _ w
          (request_http3_with_stale_retry-Gives _ parts body t w healthy)
          (or_https_rr-Gives origin parts body t))
  alternative-Gives origin parts body t none w (healthy, p, e, c, l, h) =
      Gives-le (h3_request_time + wait + 0) (h3_request_time + wait) _ w (omega arith) (
        Gives-after (Found origin t w e) (Obtains response) _ (https_rr_entry net timer origin t) _
          w (https_rr_entry-Certain origin t w net timer e healthy p c l)
          (λ found v k. via_https_rr-Gives origin parts body t e found v h k))

  pub try_http3-Gives :
      (origin : Origin) (parts : Parts M) (body : Option Text) (w : World Shared (Call M))
      → Attemptable origin w.clock w.shared
      → Gives cost
          (Obtains response)
          (h3_request_time + wait)
          (try_http3 net timer settings origin parts body)
          w
  unfolding try_http3 by_alternatives
  try_http3-Gives origin parts body w a = record {
    gives =
        (Gives-after (GoesOn origin w.clock w) (Obtains response) (h3_request_time + wait)
          (negative_cache_hit origin w.clock) on_hit w
          (negative_cache_hit-Certain origin w.clock w a) on_hit-Gives).gives;
  }
    where
      on_hit : Bool → H3 M (Result (Option (Response M)))
      on_hit hit =
          if hit
          then pure (ok none)
          else by_alternatives net timer settings origin parts body w.clock

      on_hit-Gives :
          (hit : Bool) (v : World Shared (Call M))
          → GoesOn origin w.clock w hit v
          → Gives cost (Obtains response) (h3_request_time + wait) (on_hit hit) v
      on_hit-Gives true v g = cc
      on_hit-Gives false v (e, healthy, adv) =
          Gives-after (Chosen origin w.clock v) (Obtains response) (h3_request_time + wait)
            (alt_svc_entry origin w.clock) _ v (alt_svc_entry-Certain origin w.clock v healthy adv)
            (alternative-Gives origin parts body w.clock)
