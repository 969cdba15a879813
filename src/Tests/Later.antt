-- ===== src/Tests/Later.antt =====
-- The theorem on what follows a timeout in the HTTP/3 phase, at a concrete input.
use mechanics_http_client.Prelude.{Option, ◌≤◌, ◌≡◌, refl, false, none, some, [], arith}
use mechanics_http_client.Text.{str_eq}
use mechanics_http_client.Time.{from_secs, from_millis, add_instant}
use mechanics_http_client.Error.{timeout, Result, err}
use mechanics_http_client.Origin.{insert, remove, origin_eq, from_uri}
use mechanics_http_client.AltSvc.{fresh}
use mechanics_http_client.Async.{World, Outcome, done, await, timer, timer-IsTimer}
use mechanics_http_client.Async.Spends.{total}
use mechanics_http_client.Http.{Response, Call, Shared}
use mechanics_http_client.Cache.{
  insert_negative, negative_cache_hit, alt_svc_entry, maybe_update_alt_svc,
}
use mechanics_http_client.HttpsRr.{https_rr_entry, select}
use mechanics_http_client.Http3.{request}
use mechanics_http_client.Request.Builder.{RequestBuilder}
use mechanics_http_client.Request.Calls.Sending.{tcp_requests}
use mechanics_http_client.Request.Fallback.{try_http3, request_http3_with_stale_retry}
use mechanics_http_client.Request.OnlyTcp.{other_calls}
use mechanics_http_client.Request.Errors.{http3_phase_error}
use mechanics_http_client.Request.Remembering.Sending.{send_timed_out-Skips}
use mechanics_http_client.Request.Send.{headers_fit, http3_phase, send}
use mechanics_http_client.Tests.{
  HeaderMap, lookup, alternatives, http, network, client, origin, world, builder, uri, horizon,
}
use mechanics_http_client.Tests.Sharing.{uri_origin}

-- Too little time for the handshake, which hangs.
abbrev impatient : RequestBuilder HeaderMap
impatient = record builder { timeout = some (from_millis 300) }

unfoldable run_impatient : Outcome (Result (Response HeaderMap)) × World Shared (Call HeaderMap)
unfolding send str_eq from_uri insert remove origin_eq await insert_negative negative_cache_hit
    alt_svc_entry fresh try_http3 request_http3_with_stale_retry request https_rr_entry select
    maybe_update_alt_svc lookup alternatives add_instant headers_fit
run_impatient = send http network timer client horizon impatient none world

times_out : run_impatient.0 ≡ done (err timeout)
unfolding run_impatient
times_out = refl

asks_nothing : total tcp_requests run_impatient.1.trace ≡ 0
unfolding run_impatient
asks_nothing = refl

stops_at : run_impatient.1.clock ≡ from_millis 300
unfolding run_impatient
stops_at = refl

unlocked_still : run_impatient.1.shared.negative_cache.poisoned ≡ false
unfolding run_impatient
unlocked_still = refl

run_impatient-send : run_impatient ≡ send http network timer client horizon impatient none world
unfolding run_impatient
run_impatient-send = refl

-- 200 seconds later.
abbrev later : World Shared (Call HeaderMap)
later = record { clock = from_secs 200; shared = run_impatient.1.shared; trace = [] }

send_timed_out-Skips_example :
    total other_calls (send http network timer client horizon builder none later).1.trace ≤ 0
unfolding run_impatient
send_timed_out-Skips_example =
    send_timed_out-Skips http network timer timer-IsTimer client horizon impatient uri origin none
      world builder uri none later refl refl refl uri_origin times_out asks_nothing refl
      unlocked_still (omega (arith, stops_at)) refl uri_origin

-- The HTTP/3 phase alone.
unfoldable run_phase :
    Outcome (Option (Result (Response HeaderMap))) × World Shared (Call HeaderMap)
unfolding http3_phase str_eq insert remove origin_eq await insert_negative negative_cache_hit
    alt_svc_entry fresh try_http3 request_http3_with_stale_retry request https_rr_entry select
    lookup alternatives add_instant
run_phase =
    http3_phase http network timer client horizon impatient uri (some origin) (some none) none world

phase_times_out : run_phase.0 ≡ done (some (err timeout))
unfolding run_phase
phase_times_out = refl

http3_phase_error_example : timeout ≡ timeout
unfolding run_phase
http3_phase_error_example =
    http3_phase_error http network timer timer-IsTimer client horizon impatient uri (some origin)
      (some none) timeout none world refl phase_times_out
