-- ===== src/Tests/Answers.antt =====
-- The theorems on what `send` returns over TCP at concrete inputs.
use mechanics_http_client.Prelude.{Option}
use mechanics_http_client.Text.{str_eq}
use mechanics_http_client.Time.{add_instant}
use mechanics_http_client.Error.{Result}
use mechanics_http_client.Origin.{insert, remove, origin_eq, from_uri}
use mechanics_http_client.AltSvc.{fresh}
use mechanics_http_client.Async.{World, Outcome, await, timer, timer-IsTimer}
use mechanics_http_client.Http.{Response, Call, Shared}
use mechanics_http_client.Cache.{insert_negative, negative_cache_hit, alt_svc_entry}
use mechanics_http_client.HttpsRr.{https_rr_entry, select}
use mechanics_http_client.Http3.{request}
use mechanics_http_client.Request.Answers.Sending.{phase}
use mechanics_http_client.Request.Builder.{replayable_for_h3}
use mechanics_http_client.Request.Fallback.{try_http3, request_http3_with_stale_retry}
use mechanics_http_client.Request.Send.{http3_phase}
use mechanics_http_client.Tests.{
  HeaderMap, lookup, alternatives, http, network, client, world, builder, uri, horizon,
}

abbrev run_phase : Outcome (Option (Result (Response HeaderMap))) × World Shared (Call HeaderMap)
unfolding http3_phase str_eq from_uri insert remove origin_eq await insert_negative
    negative_cache_hit alt_svc_entry fresh try_http3 request_http3_with_stale_retry request
    https_rr_entry select lookup alternatives add_instant replayable_for_h3
run_phase = phase http network timer timer-IsTimer client horizon builder uri world
