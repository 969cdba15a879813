-- ===== src/Tests/Runs.antt =====
-- Runs of `send` and of reading its response.
use mechanics_http_client.Prelude.{◌≡◌, refl, none, some}
use mechanics_http_client.Text.{str_eq}
use mechanics_http_client.Time.{from_secs, from_millis, add_instant}
use mechanics_http_client.Error.{Result, ok}
use mechanics_http_client.Origin.{insert, remove, origin_eq, from_uri}
use mechanics_http_client.Async.{Outcome, World, done, timer, await}
use mechanics_http_client.Http.{Response, Call, Shared, Network}
use mechanics_http_client.Cache.{
  insert_negative, negative_cache_hit, alt_svc_entry, maybe_update_alt_svc,
}
use mechanics_http_client.AltSvc.{fresh}
use mechanics_http_client.HttpsRr.{https_rr_entry, select}
use mechanics_http_client.Http3.{request}
use mechanics_http_client.Request.Fallback.{try_http3, request_http3_with_stale_retry}
use mechanics_http_client.Request.Send.{headers_fit, send}
use mechanics_http_client.Tests.{
  HeaderMap, lookup, alternatives, http, network, fast_network, client, origin, world, builder,
  response, horizon,
}

-- `send`, with what it calls.
unfoldable pub run_send :
    Network HeaderMap → Outcome (Result (Response HeaderMap)) × World Shared (Call HeaderMap)
unfolding send str_eq from_uri insert remove origin_eq await insert_negative negative_cache_hit
    alt_svc_entry fresh try_http3 request_http3_with_stale_retry request https_rr_entry select
    maybe_update_alt_svc lookup alternatives add_instant headers_fit
run_send net = send http net timer client horizon builder none world

-- By HTTP/3: look up, connect, set up, send, finish and receive.
answers_over_http3 : (run_send fast_network).0 ≡ done (ok response)
unfolding run_send
answers_over_http3 = refl

takes_40_milliseconds : (run_send fast_network).1.clock ≡ from_millis 40
unfolding run_send
takes_40_milliseconds = refl

-- With a handshake that hangs: 10 + 500 milliseconds of HTTP/3, 5 of HTTPS records and 30 of TCP.
falls_back : (run_send network).0 ≡ done (ok response)
unfolding run_send
falls_back = refl

takes_545_milliseconds : (run_send network).1.clock ≡ from_millis 545
unfolding run_send
takes_545_milliseconds = refl

remembers_the_failure :
    (run_send network).1.shared.negative_cache.content origin ≡ some (from_secs 300)
unfolding run_send
remembers_the_failure = refl
