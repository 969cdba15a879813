-- ===== src/Request/Skipped.antt =====
-- `send` after a failure of HTTP/3.
use mechanics_http_client.Prelude.{
  subst, false, ℕ, ◌+◌, ◌≤◌, ◌<◌, ◌≡◌, refl, true, false, Option, none, some, arith, inl, inr,
  Bool-cases, or,
}
use mechanics_http_client.Text.{Text}
use mechanics_http_client.Error.{Result, ok, err}
use mechanics_http_client.Origin.{Origin, Uri, from_uri}
use mechanics_http_client.Async.{World, Outcome, done, Timer, IsTimer, pure, proceed, reaches}
use mechanics_http_client.Async.Spends.{total}
use mechanics_http_client.Http.{Parts, Response, Call, ClientInner, Http, Network, Shared}
use mechanics_http_client.Cache.{negative_cache_hit}
use mechanics_http_client.Http3.{H3}
use mechanics_http_client.Request.Builder.{RequestBuilder, replayable_for_h3}
use mechanics_http_client.Request.Calls.Tcp.{after_phase-Spends}
use mechanics_http_client.Request.Fallback.{Settings, try_http3}
use mechanics_http_client.Request.OnlyTcp.{other_calls}
use mechanics_http_client.Request.Valid.{send-cases}
use mechanics_http_client.Request.Send.{
  settings, bounded_http3, after_http3, http3_phase, after_phase, builder_headers,
  request_for_http3, send_to, send,
}

-- The negative cache has the origin, and not for a time that is over.
pub record Skips {C : Type 0} (origin : Origin) (w : World Shared C) : Type 0 where
  pub until : ℕ
  pub healthy : w.shared.negative_cache.poisoned ≡ false
  pub cached : w.shared.negative_cache.content origin ≡ some until
  pub live : w.clock < until

negative_cache_hit-Skips :
    {C : Type 0} (origin : Origin) (cutoff : Option ℕ) (w : World Shared C)
    → Skips origin w
    → negative_cache_hit origin w.clock cutoff w ≡ (done true, w)
unfolding negative_cache_hit
negative_cache_hit-Skips origin cutoff w s = rw (s.healthy, s.cached) (ground (arith, s.live))

module _ {M : Type 0} (net : Network M) (timer : Timer Shared (Call M)) (s : Settings) where
  try_http3-Skips :
      (origin : Origin) (parts : Parts M) (body : Option Text) (cutoff : Option ℕ)
      (w : World Shared (Call M))
      → Skips origin w
      → try_http3 net timer s origin parts body cutoff w ≡ (done (ok none), w)
  unfolding try_http3
  try_http3-Skips origin parts body cutoff w k =
      rw (negative_cache_hit-Skips origin cutoff w k) refl

module _ {M : Type 0} (http : Http M) (net : Network M) (timer : Timer Shared (Call M))
    (law : IsTimer timer) (client : ClientInner M) (horizon : ℕ) where
  bounded_http3-done :
      (d : Option ℕ) (origin : Origin) (attempt : H3 M (Result (Option (Response M))))
      (cutoff : Option ℕ) (w : World Shared (Call M))
      → ((c : Option ℕ) → attempt c w ≡ (done (ok none), w))
      → bounded_http3 http net timer client horizon d origin attempt cutoff w ≡ (done none, w)
  unfolding bounded_http3 after_http3
  bounded_http3-done none origin attempt cutoff w h = rw h refl
  bounded_http3-done (some d) origin attempt cutoff w h =
      rw law.timeout_lem (elim (Bool-cases (reaches cutoff (w.clock + d))) [
        | inl e ↦ rw (e, h) refl
        | inr e ↦ rw (e, h) refl
      ])

  -- The HTTP/3 phase changes nothing.
  http3_phase-done :
      (b : RequestBuilder M) (uri : Uri) (origin : Origin) (body : Option (Option Text))
      (cutoff : Option ℕ) (w : World Shared (Call M))
      → Skips origin w
      → (early : Option (Result (Response M))) × (http3_phase http net timer client horizon b uri
            (some origin)
            body
            cutoff
            w
          ≡ (done early, w))
  unfolding http3_phase
  http3_phase-done b uri origin none cutoff w k = (none, refl)
  http3_phase-done b uri origin (some body) cutoff w k = elim (Bool-cases client.http3_enabled) [
    | inl on ↦ rw on (
        attempted (
          request_for_http3 http b.method uri
            (builder_headers http b.method uri client.default_headers b.headers)))
    | inr off ↦ rw off (none, refl)
  ]
    where
      attempted :
          (request : Result (Parts M))
          → let m : H3 M (Option (Result (Response M))) = elim request [
            | err e ↦ pure (some (err e))
            | ok parts ↦
                bounded_http3 http net timer client horizon
                  (or b.timeout client.default_timeout)
                  origin
                  (try_http3 net timer (settings http net timer client horizon) origin parts body)
          ] in
            (early : Option (Result (Response M))) × (m cutoff w ≡ (done early, w))
      attempted (err e) = (some (err e), refl)
      attempted (ok parts) = (
        none,
        bounded_http3-done (or b.timeout client.default_timeout) origin
            (try_http3 net timer (settings http net timer client horizon) origin parts body) cutoff
            w
            (λ c.
              try_http3-Skips net timer (settings http net timer client horizon) origin parts body c
                w k),
      )

  -- With a timer that does what is documented: while the origin of its URL is in the negative cache,
  -- and that lock is not poisoned, a request goes over TCP alone, with no call to name resolution, QUIC or HTTP/3.
  pub send-Skips :
      (b : RequestBuilder M) (uri : Uri) (origin : Origin) (cutoff : Option ℕ)
      (w : World Shared (Call M))
      → b.uri ≡ ok uri
      → from_uri uri ≡ some origin
      → Skips origin w
      → total other_calls (send http net timer client horizon b cutoff w).1.trace
        ≤ total other_calls w.trace
  unfolding send_to
  send-Skips b uri origin cutoff w u o k =
      send-cases http net timer client horizon
        (λ m. total other_calls (m cutoff w).1.trace ≤ total other_calls w.trace) b
        (λ e. omega arith) (λ uri' u' full. omega arith)
        (λ uri' u'.
          subst
            (λ x.
              total other_calls (send_to http net timer client horizon b x cutoff w).1.trace
              ≤ total other_calls w.trace)
            (let e : ok uri ≡ ok uri' = cc in cc) sent)
    where
      go_on :
          (r : Outcome (Option (Result (Response M))) × World Shared (Call M))
          → ((early : Option (Result (Response M))) × (r ≡ (done early, w)))
          → total other_calls
              (proceed cutoff (after_phase http net timer client horizon b uri) r.0 r.1).1.trace
            ≤ total other_calls w.trace
      go_on r (early, e) = rw e (
          omega (
            arith,
            (after_phase-Spends http net timer law client horizon {cost = other_calls} {j = 0}
                  (λ parts body. omega arith) b uri early).spends
                cutoff w,
          ))

      sent :
          total other_calls (send_to http net timer client horizon b uri cutoff w).1.trace
          ≤ total other_calls w.trace
      sent =
          go_on
            (http3_phase http net timer client horizon b uri (from_uri uri)
              (replayable_for_h3 b.body) cutoff w)
            (rw o (http3_phase-done b uri origin (replayable_for_h3 b.body) cutoff w k))
