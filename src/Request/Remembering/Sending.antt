-- ===== src/Request/Remembering/Sending.antt =====
-- After a `send` that timed out in its HTTP/3 phase: the requests that follow.
use mechanics_http_client.Prelude.{
  ℕ, ◌+◌, ◌≤◌, ◌<◌, ◌≡◌, refl, sym, ap, ◌∙◌, true, false, Option, none, some, ◌∷◌, inl, inr,
  Bool-cases, or, arith,
}
use mechanics_http_client.Error.{timeout, Result, ok, err}
use mechanics_http_client.Origin.{Origin, Uri, from_uri}
use mechanics_http_client.Async.{
  World, Async, Outcome, done, cut, hangs, panicked, Timer, IsTimer, pure, proceed, reaches, await,
}
use mechanics_http_client.Async.Spends.{total, trace-wait}
use mechanics_http_client.Http.{
  Fallible, success, failure, Parts, RequestBody, Response, Call, tcp_request, ClientInner, Http,
  Network, Shared,
}
use mechanics_http_client.Cache.{maybe_update_alt_svc}
use mechanics_http_client.Cache.Effects.{maybe_update_alt_svc-Sync}
use mechanics_http_client.Cache.Negative.{Holds, Remembers}
use mechanics_http_client.Http3.{H3}
use mechanics_http_client.Request.Answers.Sending.{request_parts, built-ok}
use mechanics_http_client.Request.Builder.{RequestBuilder, replayable_for_h3, into_body}
use mechanics_http_client.Request.Calls.Sending.{tcp_requests}
use mechanics_http_client.Request.OnlyTcp.{other_calls}
use mechanics_http_client.Request.Remembering.{Noted, http3_phase-Noted}
use mechanics_http_client.Request.Send.{
  exchange, answered, answered_in_time, over_tcp, http3_phase, after_phase, send_to, send,
}
use mechanics_http_client.Request.Skipped.{Skips, send-Skips}
use mechanics_http_client.Request.Valid.{send-either}

-- A step that asks no server over TCP.
proceed-quiet :
    {M A B : Type 0} (f : A → Async Shared (Call M) B) (cutoff : Option ℕ) (o : Outcome A)
    (w : World Shared (Call M))
    → ((a : A) (v : World Shared (Call M))
        → total tcp_requests (f a cutoff v).1.trace ≡ total tcp_requests v.trace)
    → total tcp_requests (proceed cutoff f o w).1.trace ≡ total tcp_requests w.trace
proceed-quiet f cutoff (done a) w h = h a w
proceed-quiet f cutoff cut w h = refl
proceed-quiet f cutoff hangs w h = refl
proceed-quiet f cutoff panicked w h = refl

skips :
    {C : Type 0} {origin : Origin} (w : World Shared C) (s : Shared) (until : ℕ)
    → w.shared ≡ s
    → w.shared.negative_cache.poisoned ≡ false
    → w.clock < until
    → Holds s.negative_cache origin (some until)
    → Skips origin w
skips w s until e p l (inl q) =
    let clash : true ≡ false = sym q ∙ ap (λ x. x.negative_cache.poisoned) (sym e) ∙ p in cc
skips {origin = origin} w s until e p l (inr q) = record {
  until = until;
  healthy = p;
  cached = ap (λ x. x.negative_cache.content origin) e ∙ q;
  live = l;
}

module _ {M : Type 0} (http : Http M) (net : Network M) (timer : Timer Shared (Call M))
    (law : IsTimer timer) (client : ClientInner M) (horizon : ℕ) where
  exchange-asks :
      (parts : Parts M) (body : RequestBody) (cutoff : Option ℕ) (w : World Shared (Call M))
      → 1 ≤ total tcp_requests (exchange http net timer client horizon parts body cutoff w).1.trace
  unfolding await
  exchange-asks parts body cutoff w =
      let future = net.tcp_request w.trace parts body in
      rw
        (trace-wait cutoff future.delay future.value (record w {
          shared = net.others w.trace w.shared;
          trace = tcp_request parts body ∷ w.trace;
        }))
        (omega arith)

  answered-quiet :
      (uri : Uri) (result : Fallible (Response M)) (cutoff : Option ℕ) (w : World Shared (Call M))
      → total tcp_requests (answered http net timer client horizon uri result cutoff w).1.trace
        ≡ total tcp_requests w.trace
  answered-quiet uri (failure message) cutoff w = refl
  answered-quiet uri (success response) cutoff w =
      let m = maybe_update_alt_svc http horizon uri response in
      proceed-quiet {A = Unit} (λ _. pure (ok response)) cutoff (m cutoff w).0 (m cutoff w).1
        (λ a v. refl)
      ∙ ap (total tcp_requests)
          ((maybe_update_alt_svc-Sync http horizon uri response).same_trace cutoff w)

  answered_in_time-quiet :
      (uri : Uri) (result : Option (Fallible (Response M))) (cutoff : Option ℕ)
      (w : World Shared (Call M))
      → total tcp_requests
          (answered_in_time http net timer client horizon uri result cutoff w).1.trace
        ≡ total tcp_requests w.trace
  answered_in_time-quiet uri none cutoff w = refl
  answered_in_time-quiet uri (some result) cutoff w = answered-quiet uri result cutoff w

  over_tcp-asks :
      (d : Option ℕ) (uri : Uri) (parts : Parts M) (body : RequestBody) (cutoff : Option ℕ)
      (w : World Shared (Call M))
      → 1
        ≤ total tcp_requests
            (over_tcp http net timer client horizon d uri parts body cutoff w).1.trace
  unfolding over_tcp
  over_tcp-asks none uri parts body cutoff w =
      let r = exchange http net timer client horizon parts body cutoff w in
      rw
        (proceed-quiet (answered http net timer client horizon uri) cutoff r.0 r.1
          (λ a. answered-quiet uri a cutoff))
        (exchange-asks parts body cutoff w)
  over_tcp-asks (some d) uri parts body cutoff w =
      rw law.timeout_lem (elim (Bool-cases (reaches cutoff (w.clock + d))) [
        | inl e ↦ rw e (in_time (some (w.clock + d)) _)
        | inr e ↦ rw e (in_time cutoff _)
      ])
    where
      in_time :
          (own : Option ℕ) (o : Outcome (Option (Fallible (Response M))))
          → 1
            ≤ total tcp_requests
                (proceed cutoff
                  (answered_in_time http net timer client horizon uri)
                  o
                  (exchange http net timer client horizon parts body own w).1).1.trace
      in_time own o =
          rw
            (proceed-quiet (answered_in_time http net timer client horizon uri) cutoff o
              (exchange http net timer client horizon parts body own w).1
              (λ a. answered_in_time-quiet uri a cutoff))
            (exchange-asks parts body own w)

  after_phase-asks :
      (b : RequestBuilder M) (uri : Uri) (cutoff : Option ℕ) (w : World Shared (Call M))
      → http.builder_error b.method uri ≡ none
      → 1
        ≤ total tcp_requests (after_phase http net timer client horizon b uri none cutoff w).1.trace
  unfolding after_phase
  after_phase-asks b uri cutoff w valid =
      go _ (built-ok http net timer law client horizon b uri valid)
    where
      go :
          (request : Result (Parts M))
          → request ≡ ok (request_parts http net timer law client horizon b uri)
          → let m : H3 M (Result (Response M)) = elim request [
            | err e ↦ pure (err e)
            | ok parts ↦
                over_tcp http net timer client horizon
                  (or b.timeout client.default_timeout)
                  uri
                  parts
                  (into_body b.body)
          ] in
            1 ≤ total tcp_requests (m cutoff w).1.trace
      go (err e) h = cc
      go (ok parts) h =
          over_tcp-asks (or b.timeout client.default_timeout) uri parts (into_body b.body) cutoff w

  module _ (b : RequestBuilder M) (uri : Uri) (origin : Origin) (cutoff : Option ℕ)
      (w : World Shared (Call M)) where
    sent-Remembers :
        http.builder_error b.method uri ≡ none
        → from_uri uri ≡ some origin
        → let r = send_to http net timer client horizon b uri cutoff w in
          r.0 ≡ done (err timeout)
          → total tcp_requests r.1.trace ≡ 0
          → Remembers origin (r.1.clock + client.http3_negative_cache_duration) r.1.shared
    unfolding send_to after_phase
    sent-Remembers valid o = rw o (
        go phase.0 phase.1 (
          http3_phase-Noted http net timer law client horizon b uri origin
            (replayable_for_h3 b.body) cutoff w valid))
      where
        phase : Outcome (Option (Result (Response M))) × World Shared (Call M)
        phase =
            http3_phase http net timer client horizon b uri (some origin) (replayable_for_h3 b.body)
              cutoff w

        go :
            (o : Outcome (Option (Result (Response M)))) (v : World Shared (Call M))
            → Noted http net timer law client horizon origin o v
            → let r = proceed cutoff (after_phase http net timer client horizon b uri) o v in
              r.0 ≡ done (err timeout)
              → total tcp_requests r.1.trace ≡ 0
              → Remembers origin (r.1.clock + client.http3_negative_cache_duration) r.1.shared
        go (done (some (err x))) v n e t = n
        go (done (some (ok response))) v n e t = cc
        go (done none) v n e t = absurd (omega (arith, t, after_phase-asks b uri cutoff v valid))
        go cut v n e t = cc
        go hangs v n e t = cc
        go panicked v n e t = cc

    -- A request without a deferred error, to an https URL that parsed, and that can be built, has failed with
    -- `Timeout` before anything was asked over TCP, with a timer that does what is documented. Then
    -- every request to its origin that starts less than the time of the negative cache later, with the
    -- shared state as it was left and the lock of that cache not poisoned, goes over TCP alone.
    pub send_timed_out-Skips :
        (b' : RequestBuilder M) (uri' : Uri) (cutoff' : Option ℕ) (w' : World Shared (Call M))
        → b.deferred_error ≡ none
        → b.uri ≡ ok uri
        → http.builder_error b.method uri ≡ none
        → from_uri uri ≡ some origin
        → let r = send http net timer client horizon b cutoff w in
          r.0 ≡ done (err timeout)
          → total tcp_requests r.1.trace ≡ 0
          → w'.shared ≡ r.1.shared
          → w'.shared.negative_cache.poisoned ≡ false
          → w'.clock < r.1.clock + client.http3_negative_cache_duration
          → b'.uri ≡ ok uri'
          → from_uri uri' ≡ some origin
          → total other_calls (send http net timer client horizon b' cutoff' w').1.trace
            ≤ total other_calls w'.trace
    send_timed_out-Skips b' uri' cutoff' w' d u valid o =
        send-either http net timer client horizon After b uri d u (λ full e t s p l u' o'. cc)
          λ fit e t s p l u' o'.
            send-Skips http net timer law client horizon b' uri' origin cutoff' w' u' o'
              (skips w' _ _ s p l (sent-Remembers valid o e t).0)
      where
        After : H3 M (Result (Response M)) → Type 0
        After m =
            (m cutoff w).0 ≡ done (err timeout)
            → total tcp_requests (m cutoff w).1.trace ≡ 0
            → w'.shared ≡ (m cutoff w).1.shared
            → w'.shared.negative_cache.poisoned ≡ false
            → w'.clock < (m cutoff w).1.clock + client.http3_negative_cache_duration
            → b'.uri ≡ ok uri'
            → from_uri uri' ≡ some origin
            → total other_calls (send http net timer client horizon b' cutoff' w').1.trace
              ≤ total other_calls w'.trace
