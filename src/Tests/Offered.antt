-- ===== src/Tests/Offered.antt =====
-- The theorem on HTTP/3 at a server that answers, at a concrete input.
use mechanics_http_client.Prelude.{◌+◌, ◌≤◌, ◌≡◌, refl, none, arith}
use mechanics_http_client.Text.{str_eq}
use mechanics_http_client.Time.{from_millis}
use mechanics_http_client.Error.{ok}
use mechanics_http_client.Async.{done, timer, timer-IsTimer}
use mechanics_http_client.Async.Spends.{total}
use mechanics_http_client.AltSvc.{fresh}
use mechanics_http_client.Http3.Quic.{new_endpoint}
use mechanics_http_client.Http3.Serving.{Serves, h3_request_time}
use mechanics_http_client.Request.Advertised.{Attemptable, by_alt_svc}
use mechanics_http_client.Request.Advertised.Sending.{send_http3}
use mechanics_http_client.Request.Builder.{replayable_for_h3}
use mechanics_http_client.Request.Calls.Sending.{tcp_requests}
use mechanics_http_client.Request.Send.{send}
use mechanics_http_client.Tests.{
  alternative, alternatives, http, fast_network, client, origin, world, builder, response, uri,
  horizon,
}
use mechanics_http_client.Tests.Sharing.{uri_origin, builder_fits}

fast_network-Serves : Serves fast_network response (from_millis 20)
unfolding new_endpoint
fast_network-Serves = record {
  endpoint_made = λ calls. tt;
  resolves = λ calls host port. record {
    after = from_millis 10;
    delay_is = refl;
    after_le = omega arith;
    value_holds = tt;
  };
  connects = λ calls e addr host. tt;
  shakes_hands = λ calls c. record {
    after = from_millis 7;
    delay_is = refl;
    after_le = omega arith;
    value_holds = tt;
  };
  sets_up = λ calls c. record {
    after = from_millis 1;
    delay_is = refl;
    after_le = omega arith;
    value_holds = tt;
  };
  opens = λ calls sender parts. record {
    after = from_millis 1;
    delay_is = refl;
    after_le = omega arith;
    value_holds = tt;
  };
  takes_data = λ calls stream bytes. record {
    after = from_millis 1;
    delay_is = refl;
    after_le = omega arith;
    value_holds = tt;
  };
  takes_end = λ calls stream. record {
    after = from_millis 1;
    delay_is = refl;
    after_le = omega arith;
    value_holds = tt;
  };
  responds = λ calls stream. record {
    after = from_millis 20;
    delay_is = refl;
    after_le = omega arith;
    value_holds = refl;
  };
}

world-Attemptable : Attemptable origin 0 world.shared
unfolding alternatives str_eq fresh
world-Attemptable = record {
  not_failed = refl;
  healthy = refl;
  advertised = by_alt_svc alternative refl refl;
}

-- Under the client's timeout of 3 seconds; the response follows after 20 milliseconds.
send_http3_example :
    let r =
      send http fast_network timer client horizon (record builder { timeout = none }) none world in
    (r.0 ≡ done (ok response))
    × (r.1.clock ≤ h3_request_time + from_millis 20)
    × (total tcp_requests r.1.trace ≡ 0)
unfolding replayable_for_h3
send_http3_example =
    send_http3 http fast_network timer timer-IsTimer client horizon response (from_millis 20)
      fast_network-Serves (record builder { timeout = none }) uri origin none none world refl refl
      refl builder_fits uri_origin refl refl world-Attemptable (omega arith) tt
