-- ===== src/Request/Advertised/Sending.antt =====
-- `send` to an origin that is known to offer HTTP/3, at a server that answers.
use mechanics_http_client.Prelude.{
  ℕ, ◌+◌, ◌≤◌, ◌≡◌, refl, ap, ◌∙◌, true, Option, none, some, arith, or,
}
use mechanics_http_client.Text.{Text}
use mechanics_http_client.Error.{Result, ok, err}
use mechanics_http_client.Origin.{Origin, Uri, from_uri}
use mechanics_http_client.Async.{World, done, Timer, IsTimer}
use mechanics_http_client.Async.Giving.{
  Leaves, Gives, InTime, Gives-pure, Gives-le, Gives-bind, Gives-timeout,
}
use mechanics_http_client.Async.Spends.{total}
use mechanics_http_client.Http.{Response, Call, ClientInner, Http, Network, Shared}
use mechanics_http_client.Http3.{H3}
use mechanics_http_client.Http3.Effects.{Requests}
use mechanics_http_client.Http3.Serving.{Serves, h3_request_time}
use mechanics_http_client.Request.Advertised.{Attemptable, Obtains}
use mechanics_http_client.Request.Advertised.Attempting.{try_http3-Gives}
use mechanics_http_client.Request.Answers.Sending.{request_parts, request_for_http3-ok}
use mechanics_http_client.Request.Builder.{RequestBuilder, replayable_for_h3}
use mechanics_http_client.Request.Calls.Sending.{tcp_requests}
use mechanics_http_client.Request.Send.{
  settings, decided, after_http3, bounded_http3, http3_phase, after_phase, send_to, send,
}
use mechanics_http_client.Request.Valid.{HeadersFit, send-send_to}

module _ {M : Type 0} (http : Http M) (net : Network M) (timer : Timer Shared (Call M))
    (law : IsTimer timer) (client : ClientInner M) (horizon : ℕ) (response : Response M) (wait : ℕ)
    (serves : Serves net response wait) where
  abbrev time : ℕ
  time = h3_request_time + wait

  free : Requests {M = M} tcp_requests 0
  free = record {
    free_https = λ host. refl;
    free_socket = λ host port. refl;
    free_handshake = λ a host. refl;
    free_setup = refl;
    request_cost = λ parts. omega arith;
    free_data = λ bytes. refl;
    free_finish = refl;
    free_response = refl;
  }

  abbrev Decides : Option (Result (Response M)) → Type 0
  Decides early = early ≡ some (ok response)

  decided-Decides :
      (r : Result (Option (Response M)))
      → Obtains response r
      → Decides (decided http net timer client horizon r)
  decided-Decides (ok (some r)) h = ap (λ x. some (ok x)) h
  decided-Decides (ok none) h = elim h [ ]
  decided-Decides (err e) h = elim h [ ]

  bounded_http3-Gives :
      (d : Option ℕ) (origin : Origin) (attempt : H3 M (Result (Option (Response M))))
      (w : World Shared (Call M))
      → Leaves d time
      → Gives tcp_requests (Obtains response) time attempt w
      → Gives tcp_requests Decides
          (time + 0)
          (bounded_http3 http net timer client horizon d origin attempt)
          w
  unfolding bounded_http3 after_http3
  bounded_http3-Gives none origin attempt w l g =
      Gives-bind (Obtains response) Decides time 0 _ _ w g (λ r v h.
        Gives-pure Decides (decided http net timer client horizon r) v (decided-Decides r h))
  bounded_http3-Gives (some d) origin attempt w l g =
      Gives-bind (InTime (Obtains response)) Decides time 0 _
        (after_http3 http net timer client horizon origin) w
        (Gives-timeout (Obtains response) time d timer attempt w law l g) in_time
    where
      in_time :
          (r : Option (Result (Option (Response M)))) (v : World Shared (Call M))
          → InTime (Obtains response) r
          → Gives tcp_requests Decides 0 (after_http3 http net timer client horizon origin r) v
      in_time none v h = elim h [ ]
      in_time (some r) v h =
          Gives-pure Decides (decided http net timer client horizon r) v (decided-Decides r h)

  http3_phase-Gives :
      (b : RequestBuilder M) (uri : Uri) (origin : Origin) (body : Option Text)
      (w : World Shared (Call M))
      → client.http3_enabled ≡ true
      → http.builder_error b.method uri ≡ none
      → Leaves (or b.timeout client.default_timeout) time
      → Attemptable origin w.clock w.shared
      → Gives tcp_requests Decides
          (time + 0)
          (http3_phase http net timer client horizon b uri (some origin) (some body))
          w
  unfolding http3_phase
  http3_phase-Gives b uri origin body w on valid l a =
      rw (on, request_for_http3-ok http net timer law client horizon b uri valid)
        (bounded_http3-Gives (or b.timeout client.default_timeout) origin _ w l (
          try_http3-Gives net timer law (settings http net timer client horizon)
            {cost = tcp_requests} free response wait serves origin
            (request_parts http net timer law client horizon b uri) body w a))

  after_phase-Gives :
      (b : RequestBuilder M) (uri : Uri) (early : Option (Result (Response M)))
      (w : World Shared (Call M))
      → Decides early
      → Gives tcp_requests
          (λ r. r ≡ ok response)
          0
          (after_phase http net timer client horizon b uri early)
          w
  unfolding after_phase
  after_phase-Gives b uri early w h = rw h (Gives-pure _ (ok response) w refl)

  -- A request that can be built and sent again, whose headers fit, to an https URL, with HTTP/3 on, while the caches know where
  -- the origin offers it, no failure is remembered and the endpoint's lock is not poisoned: at a server
  -- that takes each step of HTTP/3 within the client's limit for it and answers within `wait`, with a
  -- timer that does what is documented, and unless a timeout or the owner is shorter, `send` returns the
  -- server's response, within the limits of the steps and `wait`, and sends nothing over TCP.
  pub send_http3 :
      (b : RequestBuilder M) (uri : Uri) (origin : Origin) (body : Option Text) (cutoff : Option ℕ)
      (w : World Shared (Call M))
      → b.deferred_error ≡ none
      → b.uri ≡ ok uri
      → http.builder_error b.method uri ≡ none
      → HeadersFit http net timer client horizon b uri
      → from_uri uri ≡ some origin
      → replayable_for_h3 b.body ≡ some body
      → client.http3_enabled ≡ true
      → Attemptable origin w.clock w.shared
      → Leaves (or b.timeout client.default_timeout) (h3_request_time + wait)
      → Leaves cutoff (w.clock + (h3_request_time + wait))
      → let r = send http net timer client horizon b cutoff w in
        (r.0 ≡ done (ok response))
        × (r.1.clock ≤ w.clock + (h3_request_time + wait))
        × (total tcp_requests r.1.trace ≡ total tcp_requests w.trace)
  unfolding send_to
  send_http3 b uri origin body cutoff w d u valid fit o replay on a limit owner =
      let sent : Gives tcp_requests (λ r. r ≡ ok response) time
          (send_to http net timer client horizon b uri) w =
        rw (o, replay)
          (Gives-le (time + 0 + 0) time _ w (omega arith) (
            Gives-bind Decides (λ r. r ≡ ok response) (time + 0) 0 _ _ w
              (http3_phase-Gives b uri origin body w on valid limit a)
              (after_phase-Gives b uri))) in
      let r = sent.gives cutoff owner in
      rw (send-send_to http net timer client horizon b uri d u fit)
        (r.is_done ∙ ap done r.holds, r.soon, r.free)
