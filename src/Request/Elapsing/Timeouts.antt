-- ===== src/Request/Elapsing/Timeouts.antt =====
-- `Error::Timeout` and the clock: the whole of `send`.
use mechanics_http_client.Prelude.{
  ℕ, ◌+◌, ◌≤◌, ◌≡◌, ◌≢◌, refl, ap, Option, none, some, arith, inl, inr, Bool-cases, or,
}
use mechanics_http_client.Text.{Text}
use mechanics_http_client.Error.{timeout, Result, ok, err}
use mechanics_http_client.Origin.{Origin, Uri, from_uri}
use mechanics_http_client.Async.{
  World, Outcome, done, cut, hangs, panicked, Timer, IsTimer, pure, proceed,
}
use mechanics_http_client.Async.Elapsing.{Elapses, Passed, Elapses-await, timeout-none}
use mechanics_http_client.Cache.{maybe_update_alt_svc}
use mechanics_http_client.Http.{
  Fallible, success, failure, Parts, RequestBody, Response, Call, tcp_request, ClientInner, Http,
  Network, Shared,
}
use mechanics_http_client.Http3.{H3}
use mechanics_http_client.Request.Builder.{RequestBuilder, replayable_for_h3, into_body}
use mechanics_http_client.Request.Elapsing.{Elapses-Rules}
use mechanics_http_client.Request.Errors.{NeverErr-bind, NeverErr-pure, try_http3-NeverErr}
use mechanics_http_client.Request.Fallback.{try_http3}
use mechanics_http_client.Request.Send.{
  settings, bounded_http3, http3_phase, exchange, answered, answered_in_time, over_tcp, after_phase,
  built, builder_headers, request_for_http3, send_to, send,
}
use mechanics_http_client.Request.Valid.{send-either}
use mechanics_http_client.Request.Walk.Fallback.{try_http3-walk}
use mechanics_http_client.Request.Walk.Sending.{http3_phase-walk}
use mechanics_http_client.Request.Elapsing.Phases.{
  deadline, Passed-le, map_legacy_error-ne_timeout, built-ne_timeout, bounded_http3-timeout,
}

module _ {M : Type 0} (http : Http M) (net : Network M) (timer : Timer Shared (Call M))
    (law : IsTimer timer) (client : ClientInner M) (horizon : ℕ) where
  module _ (b : RequestBuilder M) where
    abbrev limit : Option ℕ
    limit = or b.timeout client.default_timeout

    http3_phase-timeout :
        (uri : Uri) (origin : Option Origin) (body : Option (Option Text)) (cutoff : Option ℕ)
        (w : World Shared (Call M))
        → (http3_phase http net timer client horizon b uri origin body cutoff w).0
          ≡ done (some (err timeout))
        → Passed
            (deadline w.clock limit)
            (http3_phase http net timer client horizon b uri origin body cutoff w).1.clock
    unfolding http3_phase request_for_http3
    http3_phase-timeout uri none body cutoff w = λ x. cc
    http3_phase-timeout uri (some origin) none cutoff w = λ x. cc
    http3_phase-timeout uri (some origin) (some body) cutoff w =
        elim (Bool-cases client.http3_enabled) [
          | inl on ↦ rw on (
              attempted
                (built http "HTTP/3 request build: " b.method uri
                  (builder_headers http b.method uri client.default_headers b.headers))
                (built-ne_timeout http "HTTP/3 request build: " b.method uri _))
          | inr off ↦ rw off (λ x. cc)
        ]
      where
        attempted :
            (request : Result (Parts M))
            → request ≢ err timeout
            → let m : H3 M (Option (Result (Response M))) = elim request [
              | err e ↦ pure (some (err e))
              | ok parts ↦
                  bounded_http3 http net timer client horizon limit origin
                    (try_http3 net timer (settings http net timer client horizon) origin parts body)
            ] in
              (m cutoff w).0 ≡ done (some (err timeout))
              → Passed (deadline w.clock limit) (m cutoff w).1.clock
        attempted (err e) n = λ x. absurd (n (cc))
        attempted (ok parts) n =
            bounded_http3-timeout http net timer law client horizon limit origin _ cutoff w
              (try_http3-NeverErr net timer (settings http net timer client horizon) parts body
                origin)
              (try_http3-walk (Elapses-Rules net timer law (settings http net timer client horizon))
                parts body origin tt)

    answered-ne_timeout :
        (uri : Uri) (result : Fallible (Response M)) (cutoff : Option ℕ) (w : World Shared (Call M))
        → (answered http net timer client horizon uri result cutoff w).0 ≢ done (err timeout)
    answered-ne_timeout uri (failure message) cutoff w =
        λ x. map_legacy_error-ne_timeout message (cc)
    answered-ne_timeout uri (success response) cutoff w =
        NeverErr-bind (maybe_update_alt_svc http horizon uri response) (λ u. pure (ok response))
          (λ u. NeverErr-pure response) cutoff w timeout

    module _ (uri : Uri) (parts : Parts M) (body : RequestBody) (cutoff : Option ℕ)
        (w : World Shared (Call M)) where
      -- The TCP phase reports a timeout only past it.
      over_tcp-timeout :
          (d : Option ℕ)
          → (over_tcp http net timer client horizon d uri parts body cutoff w).0
            ≡ done (err timeout)
          → Passed
              (deadline w.clock d)
              (over_tcp http net timer client horizon d uri parts body cutoff w).1.clock
      unfolding over_tcp
      over_tcp-timeout none =
          go (exchange http net timer client horizon parts body cutoff w).0
            (exchange http net timer client horizon parts body cutoff w).1
        where
          go :
              (o : Outcome (Fallible (Response M))) (w' : World Shared (Call M))
              → (proceed cutoff (answered http net timer client horizon uri) o w').0
                ≡ done (err timeout)
              → ⊥
          go (done result) w' x = answered-ne_timeout uri result cutoff w' x
          go cut w' x = cc
          go hangs w' x = cc
          go panicked w' x = cc
      over_tcp-timeout (some d) =
          go (timer.timeout d (exchange http net timer client horizon parts body) cutoff w).0
            (timer.timeout d (exchange http net timer client horizon parts body) cutoff w).1
            (timeout-none timer law d (exchange http net timer client horizon parts body)
              (Elapses-await net.others (tcp_request parts body)
                (λ calls. net.tcp_request calls parts body))
              cutoff w)
        where
          go :
              (o : Outcome (Option (Fallible (Response M)))) (w' : World Shared (Call M))
              → (o ≡ done none → w.clock + d ≤ w'.clock)
              → (proceed cutoff (answered_in_time http net timer client horizon uri) o w').0
                ≡ done (err timeout)
              → w.clock + d
                ≤ (proceed cutoff (answered_in_time http net timer client horizon uri) o w').1.clock
          go (done (some result)) w' late x = absurd (answered-ne_timeout uri result cutoff w' x)
          go (done none) w' late x = late refl
          go cut w' late x = cc
          go hangs w' late x = cc
          go panicked w' late x = cc

    after_phase-timeout :
        (uri : Uri) (early : Option (Result (Response M))) (t : ℕ) (cutoff : Option ℕ)
        (w : World Shared (Call M))
        → t ≤ w.clock
        → (early ≡ some (err timeout) → Passed (deadline t limit) w.clock)
        → (after_phase http net timer client horizon b uri early cutoff w).0 ≡ done (err timeout)
        → Passed
            (deadline t limit)
            (after_phase http net timer client horizon b uri early cutoff w).1.clock
    unfolding after_phase
    after_phase-timeout uri (some (ok response)) t cutoff w later h = λ x. cc
    after_phase-timeout uri (some (err e)) t cutoff w later h = λ x. h (cc)
    after_phase-timeout uri none t cutoff w later h =
        sent
          (built http "request build: " b.method uri
            (builder_headers http b.method uri client.default_headers b.headers))
          (built-ne_timeout http "request build: " b.method uri _)
      where
        sent :
            (request : Result (Parts M))
            → request ≢ err timeout
            → let m : H3 M (Result (Response M)) = elim request [
              | err e ↦ pure (err e)
              | ok parts ↦ over_tcp http net timer client horizon limit uri parts (into_body b.body)
            ] in
              (m cutoff w).0 ≡ done (err timeout) → Passed (deadline t limit) (m cutoff w).1.clock
        sent (err e) n = λ x. absurd (n (cc))
        sent (ok parts) n = λ x.
            Passed-le limit t w.clock _ _ later (omega arith)
              (over_tcp-timeout uri parts (into_body b.body) cutoff w limit x)

    -- With a timer that does what is documented, a request without a deferred error, to a URL that
    -- parsed, fails with `Timeout` only once its own timeout, or else that of the client, has passed
    -- since the start of `send`; with neither of them, never.
    pub send-timeout :
        (uri : Uri) (cutoff : Option ℕ) (w : World Shared (Call M))
        → b.deferred_error ≡ none
        → b.uri ≡ ok uri
        → (send http net timer client horizon b cutoff w).0 ≡ done (err timeout)
        → Passed (deadline w.clock limit) (send http net timer client horizon b cutoff w).1.clock
    unfolding send_to
    send-timeout uri cutoff w d u =
        send-either http net timer client horizon
          (λ m.
            (m cutoff w).0 ≡ done (err timeout)
            → Passed (deadline w.clock limit) (m cutoff w).1.clock)
          b uri d u (λ full x. cc)
          λ fit.
            go (phase cutoff w).0 (phase cutoff w).1 (phase-Elapses.grows cutoff w)
              (http3_phase-timeout uri (from_uri uri) (replayable_for_h3 b.body) cutoff w)
      where
        phase : H3 M (Option (Result (Response M)))
        phase =
            http3_phase http net timer client horizon b uri (from_uri uri)
              (replayable_for_h3 b.body)

        phase-Elapses : Elapses phase
        phase-Elapses =
            http3_phase-walk http client horizon
              (Elapses-Rules net timer law (settings http net timer client horizon)) b uri
              (from_uri uri) (replayable_for_h3 b.body) (λ o e. tt)

        go :
            (o : Outcome (Option (Result (Response M)))) (w' : World Shared (Call M))
            → w.clock ≤ w'.clock
            → (o ≡ done (some (err timeout)) → Passed (deadline w.clock limit) w'.clock)
            → (proceed cutoff (after_phase http net timer client horizon b uri) o w').0
              ≡ done (err timeout)
            → Passed
                (deadline w.clock limit)
                (proceed cutoff (after_phase http net timer client horizon b uri) o w').1.clock
        go (done early) w' later h =
            after_phase-timeout uri early w.clock cutoff w' later (λ e. h (ap done e))
        go cut w' later h = λ x. cc
        go hangs w' later h = λ x. cc
        go panicked w' later h = λ x. cc
