-- ===== src/Request/Answers/Sending.antt =====
-- `send` of a request that is left to TCP.
use mechanics_http_client.Prelude.{ℕ, ◌+◌, ◌≡◌, refl, Option, none, List, or}
use mechanics_http_client.Error.{Result, ok, err}
use mechanics_http_client.Origin.{Uri, from_uri, PortFits}
use mechanics_http_client.Async.{Future, World, Outcome, Timer, IsTimer, pure}
use mechanics_http_client.Http.{Fallible, Parts, Response, Call, ClientInner, Http, Network, Shared}
use mechanics_http_client.Http3.{H3}
use mechanics_http_client.Request.Builder.{RequestBuilder, replayable_for_h3, into_body}
use mechanics_http_client.Request.OnlyTcp.{TcpOnly, http3_phase_tcp}
use mechanics_http_client.Request.Send.{
  merged_headers, builder_headers, built, request_for_http3, http3_phase, over_tcp, after_phase,
  send_to, send,
}
use mechanics_http_client.Request.Valid.{HeadersFit, send-send_to}
use mechanics_http_client.Request.Answers.{tcp_outcome, tcp_time, HasRoom, Ends, over_tcp-Ends}

module _ {M : Type 0} (http : Http M) (net : Network M) (timer : Timer Shared (Call M))
    (law : IsTimer timer) (client : ClientInner M) (horizon : ℕ) where
  -- The request that goes over TCP.
  abbrev pub request_parts : RequestBuilder M → Uri → Parts M
  request_parts b uri = record {
    method = b.method;
    uri = uri;
    headers = merged_headers http client.default_headers b.headers;
  }

  pub built-ok :
      (b : RequestBuilder M) (uri : Uri)
      → http.builder_error b.method uri ≡ none
      → built http "request build: " b.method uri
          (builder_headers http b.method uri client.default_headers b.headers)
        ≡ ok (request_parts b uri)
  built-ok b uri valid = rw (built, valid) (rw (builder_headers, valid) refl)

  pub request_for_http3-ok :
      (b : RequestBuilder M) (uri : Uri)
      → http.builder_error b.method uri ≡ none
      → request_for_http3 http b.method uri
          (builder_headers http b.method uri client.default_headers b.headers)
        ≡ ok (request_parts b uri)
  unfolding request_for_http3
  request_for_http3-ok b uri valid = rw (built, valid) (rw (builder_headers, valid) refl)

  module _ (b : RequestBuilder M) (uri : Uri) where
    abbrev pub phase :
        World Shared (Call M) → Outcome (Option (Result (Response M))) × World Shared (Call M)
    phase w =
        http3_phase http net timer client horizon b uri (from_uri uri) (replayable_for_h3 b.body)
          none w

    abbrev limit : Option ℕ
    limit = or b.timeout client.default_timeout

    -- What the server makes of the request, when the calls so far are `calls`.
    abbrev pub exchanged : List (Call M) → Future (Fallible (Response M))
    exchanged calls = net.tcp_request calls (request_parts b uri) (into_body b.body)

    after_phase-Ends :
        (w : World Shared (Call M))
        → http.builder_error b.method uri ≡ none
        → PortFits uri
        → HasRoom horizon (exchanged w.trace).delay w.clock
        → Ends http net timer law client horizon
            (after_phase http net timer client horizon b uri none none w)
            w.clock
            (tcp_outcome limit (exchanged w.trace).delay (exchanged w.trace).value)
            (tcp_time limit (exchanged w.trace).delay)
    unfolding after_phase
    after_phase-Ends w valid port room = go _ (built-ok b uri valid)
      where
        go :
            (request : Result (Parts M))
            → request ≡ ok (request_parts b uri)
            → let m : H3 M (Result (Response M)) = elim request [
              | err e ↦ pure (err e)
              | ok parts ↦ over_tcp http net timer client horizon limit uri parts (into_body b.body)
            ] in
              Ends http net timer law client horizon
                (m none w)
                w.clock
                (tcp_outcome limit (exchanged w.trace).delay (exchanged w.trace).value)
                (tcp_time limit (exchanged w.trace).delay)
        go (err e) h = cc
        go (ok parts) h =
            let same : parts ≡ request_parts b uri = cc in
            rw same (over_tcp-Ends http net timer law client horizon uri port limit _ _ w room)

    -- With HTTP/3 off, a URL without an https origin, or a streaming body, and otherwise under the same
    -- conditions, `send` asks the server at once: it returns what the server answers within the
    -- timeout, and `Timeout` at the timeout if that is nothing.
    pub send_only_tcp-tcp_outcome :
        (w : World Shared (Call M))
        → b.deferred_error ≡ none
        → b.uri ≡ ok uri
        → http.builder_error b.method uri ≡ none
        → HeadersFit http net timer client horizon b uri
        → PortFits uri
        → TcpOnly http net timer law client horizon b uri
        → HasRoom horizon (exchanged w.trace).delay w.clock
        → let r = send http net timer client horizon b none w in
          (r.0 ≡ tcp_outcome limit (exchanged w.trace).delay (exchanged w.trace).value)
          × (r.1.clock ≡ w.clock + tcp_time limit (exchanged w.trace).delay)
    unfolding send_to
    send_only_tcp-tcp_outcome w d u valid fit port only room =
        rw
          (
            send-send_to http net timer client horizon b uri d u fit,
            http3_phase_tcp http net timer law client horizon b uri only,
          )
          (after_phase-Ends w valid port room)
