-- ===== src/Request/Answers.antt =====
-- What `send` returns once a request is left to TCP.
pub mod Sending
use mechanics_http_client.Prelude.{
  ℕ, ◌+◌, ◌≤◌, ◌≡◌, refl, ap, ◌∙◌, sym, Bool, true, false, Option, none, some, List, arith, leb,
  min, inl, inr, Bool-cases, or, if◌then◌else◌, returns,
}
use mechanics_http_client.Text.{Text, codes, u16_max}
use mechanics_http_client.Error.{Error, timeout, Result, ok, err}
use mechanics_http_client.Origin.{Origin, Uri, from_uri, PortFits}
use mechanics_http_client.AltSvc.{AltSvcUpdate, clear, entry, nothing, parse_header}
use mechanics_http_client.AltSvc.Bounds.{longest, parse_str-returns}
use mechanics_http_client.Async.{
  Async, Future, World, Outcome, done, cut, hangs, panicked, Timer, IsTimer, pure, await, wait,
  never, proceed, reaches, at_deadline, within,
}
use mechanics_http_client.Cache.{maybe_update_alt_svc, update_for, store_update}
use mechanics_http_client.Cache.Effects.{maybe_update_alt_svc-Sync}
use mechanics_http_client.Http.{
  Fallible, success, failure, Parts, RequestBody, tcp_request, Response, Call, ClientInner, Http,
  Network, Shared,
}
use mechanics_http_client.Http3.{H3}
use mechanics_http_client.Request.Builder.{RequestBuilder, replayable_for_h3, into_body}
use mechanics_http_client.Request.OnlyTcp.{TcpOnly, http3_phase_tcp}
use mechanics_http_client.Request.Send.{
  map_legacy_error, merged_headers, builder_headers, built, http3_phase, exchange, answered,
  answered_in_time, over_tcp, after_phase, send_to, send,
}
use mechanics_http_client.Request.Valid.{send-send_to}

abbrev answer_of : {M : Type 0} → Fallible (Response M) → Result (Response M)
answer_of (success response) = ok response
answer_of (failure message) = err (map_legacy_error message)

-- The outcome of a request over TCP, by the timeout, the time until the server has answered, if it
-- ever does, and its answer.
abbrev pub tcp_outcome :
    {M : Type 0} → Option ℕ → Option ℕ → Fallible (Response M) → Outcome (Result (Response M))
tcp_outcome none none answer = hangs
tcp_outcome (some limit) none answer = done (err timeout)
tcp_outcome none (some d) answer = done (answer_of answer)
tcp_outcome (some limit) (some d) answer =
    if leb d limit then done (answer_of answer) else done (err timeout)

-- The time that it takes.
abbrev pub tcp_time : Option ℕ → Option ℕ → ℕ
tcp_time none none = 0
tcp_time (some limit) none = limit
tcp_time none (some d) = d
tcp_time (some limit) (some d) = min d limit

-- An instant with room for the longest age of an alternative.
abbrev pub HasRoom : ℕ → Option ℕ → ℕ → Type 0
HasRoom horizon none clock = Unit
HasRoom horizon (some d) clock = clock + d + longest ≤ horizon

module _ (horizon : ℕ) where
  parse_header-returns :
      (value : Option Text) (now origin_port : ℕ)
      → origin_port ≤ u16_max
      → now + longest ≤ horizon
      → (u : AltSvcUpdate) × (parse_header horizon value now origin_port ≡ returns u)
  unfolding parse_header
  parse_header-returns none now origin_port o room = (nothing, refl)
  parse_header-returns (some raw) now origin_port o room =
      parse_str-returns horizon raw now origin_port o room

module _ {M C : Type 0} (http : Http M) (horizon : ℕ) where
  update_for-done :
      (origin : Option Origin) (value : Option Text) (w : World Shared C)
      → ((o : Origin) → origin ≡ some o → o.port ≤ u16_max)
      → w.clock + longest ≤ horizon
      → (update_for http horizon origin value w).0 ≡ done tt
  update_for-done none value w h room = refl
  update_for-done (some origin) none w h room = refl
  update_for-done (some origin) (some value) w h room =
      let (u, e) =
        parse_header-returns horizon (http.to_str value) w.clock origin.port (h origin refl) room in
      rw e refl

  pub maybe_update_alt_svc-done :
      (uri : Uri) (response : Response M) (cutoff : Option ℕ) (w : World Shared C)
      → PortFits uri
      → w.clock + longest ≤ horizon
      → (maybe_update_alt_svc http horizon uri response cutoff w).0 ≡ done tt
  unfolding maybe_update_alt_svc
  maybe_update_alt_svc-done uri response cutoff w h room = update_for-done (from_uri uri) _ w h room

module _ {M : Type 0} (http : Http M) (net : Network M) (timer : Timer Shared (Call M))
    (law : IsTimer timer) (client : ClientInner M) (horizon : ℕ) where
  -- `r` is `outcome`, `time` after `start`.
  abbrev pub Ends : {A : Type 0} → Outcome A × World Shared (Call M) → ℕ → Outcome A → ℕ → Type 0
  Ends r start outcome time = (r.0 ≡ outcome) × (r.1.clock ≡ start + time)

  module _ (uri : Uri) (port : PortFits uri) where
    answered-Ends :
        (answer : Fallible (Response M)) (w : World Shared (Call M))
        → w.clock + longest ≤ horizon
        → Ends
            (answered http net timer client horizon uri answer none w)
            w.clock
            (done (answer_of answer))
            0
    answered-Ends (failure message) w room = (refl, omega arith)
    answered-Ends (success response) w room =
        rw (maybe_update_alt_svc-done http horizon uri response none w port room) (
          refl,
          (maybe_update_alt_svc-Sync http horizon uri response).same_clock none w ∙ omega arith,
        )

    -- The wait for the server without a cut-off, and with one.
    wait-none-Ends :
        (delay : Option ℕ) (answer : Fallible (Response M)) (w : World Shared (Call M))
        → HasRoom horizon delay w.clock
        → let r = wait none delay answer w in
          Ends
            (proceed none (answered http net timer client horizon uri) r.0 r.1)
            w.clock
            (tcp_outcome none delay answer)
            (tcp_time none delay)
    unfolding wait never
    wait-none-Ends none answer w room = (refl, omega arith)
    wait-none-Ends (some d) answer w room =
        let (o, t) = answered-Ends answer (record w { clock = w.clock + d }) room in
        (o, t ∙ omega arith)

    wait-some-Ends :
        (limit : ℕ) (delay : Option ℕ) (answer : Fallible (Response M)) (w : World Shared (Call M))
        → HasRoom horizon delay w.clock
        → let r = wait (some (w.clock + limit)) delay answer w in
          Ends
            (proceed none
              (answered_in_time http net timer client horizon uri)
              (at_deadline r.0)
              r.1)
            w.clock
            (tcp_outcome (some limit) delay answer)
            (tcp_time (some limit) delay)
    unfolding wait never
    wait-some-Ends limit none answer w room = (refl, ground arith)
    wait-some-Ends limit (some d) answer w room = elim (Bool-cases (leb d limit)) [
      | inl in_time ↦
          let reached : leb (w.clock + d) (w.clock + limit) ≡ true = ground arith in
          let shorter : min d limit ≡ d = ground arith in
          let (o, t) = answered-Ends answer (record w { clock = w.clock + d }) room in
          rw (reached, in_time, shorter) (o, t ∙ omega arith)
      | inr late ↦
          let missed : leb (w.clock + d) (w.clock + limit) ≡ false = ground arith in
          let shorter : min d limit ≡ limit = ground arith in
          rw (missed, late, shorter) (refl, ground arith)
    ]

    pub over_tcp-Ends :
        (limit : Option ℕ) (parts : Parts M) (body : RequestBody) (w : World Shared (Call M))
        → let future = net.tcp_request w.trace parts body in
          HasRoom horizon future.delay w.clock
          → Ends
              (over_tcp http net timer client horizon limit uri parts body none w)
              w.clock
              (tcp_outcome limit future.delay future.value)
              (tcp_time limit future.delay)
    unfolding over_tcp await
    over_tcp-Ends none parts body w room = wait-none-Ends _ _ _ room
    over_tcp-Ends (some limit) parts body w room =
        rw law.timeout_lem (wait-some-Ends limit _ _ _ room)
