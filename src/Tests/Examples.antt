-- ===== src/Tests/Examples.antt =====
-- The theorems at concrete inputs.
use mechanics_http_client.Prelude.{
  ℕ, ◌≤◌, ◌<◌, ◌≡◌, ◌≢◌, ◌↔◌, inl, inr, refl, true, false, none, some, List, [], ◌∷◌, ◌++◌, arith,
  length, Bool-cases,
}
use mechanics_http_client.Text.{Text, codes, str_eq}
use mechanics_http_client.Time.{from_secs, from_millis}
use mechanics_http_client.Error.{ok, err, invalid_header, body_too_large}
use mechanics_http_client.Origin.{Origin, origin_eq}
use mechanics_http_client.Async.{hangs, done, timer, timer-IsTimer}
use mechanics_http_client.Async.Spends.{total}
use mechanics_http_client.Http.{Polled, frame, data_frame, other_frame, streaming_body}
use mechanics_http_client.Cache.{insert_negative, negative_cache_hit, alt_svc_entry}
use mechanics_http_client.Cache.Negative.{
  negative_cache_hit-insert_negative, negative_cache_hit-insert_negative_ne,
}
use mechanics_http_client.Http3.{connection}
use mechanics_http_client.Http3.Timing.{connection_deadline}
use mechanics_http_client.Request.Builder.{new, streaming}
use mechanics_http_client.Request.Builder.Ops.{header_op, timeout_op, chain}
use mechanics_http_client.Request.Calls.Sending.{h3_requests, tcp_requests, send_calls_bounded}
use mechanics_http_client.Request.Configuration.{
  values, IsHeaderMap, values-merged_headers, send-configuration_error,
}
use mechanics_http_client.Request.Fallback.{
  Settings, Http3RequestTarget, request_http3_with_stale_retry,
}
use mechanics_http_client.Request.Memory.{Accounted, request_http3_with_stale_retry-Accounted}
use mechanics_http_client.Request.OnlyTcp.{other_calls, send_only_tcp}
use mechanics_http_client.Request.Send.{merged_headers, send}
use mechanics_http_client.Request.Timing.Sending.{send_deadline}
use mechanics_http_client.Response.{collect_body_with_cap}
use mechanics_http_client.Response.Collecting.{
  payload, IsComplete, collect_body_with_cap-ok_iff, collect_body_with_cap_too_large,
}
use mechanics_http_client.Tests.{
  http, network, client, origin, world, builder, parts, uri, horizon, HeaderMap,
}

abbrev settings : Settings
settings = record { horizon = horizon; negative_duration = from_secs 300 }

abbrev target : Http3RequestTarget
target = record {
  origin = origin;
  target = record { host = codes "a.example"; port = 8443 };
  authority_host = codes "a.example";
  addresses = [];
}

-- Dropped after 100 milliseconds, while the handshake goes on.
request_http3_with_stale_retry-Accounted_example :
    let r =
      request_http3_with_stale_retry network timer settings target parts none 0
        (some (from_millis 100))
        world in
    Accounted origin 0 (from_secs 300) r.0 r.1
request_http3_with_stale_retry-Accounted_example =
    request_http3_with_stale_retry-Accounted network timer settings target parts none 0
      (some (from_millis 100)) world

send_deadline_example :
    ((send http network timer client horizon builder none world).1.clock ≤ from_secs 2)
    × ((send http network timer client horizon builder none world).0 ≢ hangs)
send_deadline_example =
    send_deadline http network timer timer-IsTimer client horizon (from_secs 1) builder refl none
      world tt

send_calls_bounded_example :
    (total h3_requests (send http network timer client horizon builder none world).1.trace ≤ 4)
    × (total tcp_requests (send http network timer client horizon builder none world).1.trace ≤ 1)
send_calls_bounded_example =
    send_calls_bounded http network timer timer-IsTimer client horizon builder none world

-- The second header has no value that is valid.
send-configuration_error_example :
    send http network timer client horizon
      (chain http
        (timeout_op 5 ∷ header_op (some (codes "x")) none ∷ header_op none none ∷ [])
        (new http (codes "GET") []))
      none
      world
    ≡ (
      done (err (invalid_header (codes "header `" ++ (codes "x" ++ codes "` value rejected")))),
      world,
    )
send-configuration_error_example =
    send-configuration_error http network timer client horizon (codes "GET") []
      (timeout_op 5 ∷ header_op (some (codes "x")) none ∷ header_op none none ∷ []) _ none world
      refl

send_only_tcp_example :
    total other_calls
      (send http network timer client horizon
        (record builder { body = streaming (streaming_body 1) })
        none
        world).1.trace
    ≤ 0
send_only_tcp_example =
    send_only_tcp http network timer timer-IsTimer client horizon
      (record builder { body = streaming (streaming_body 1) }) uri none world refl (inr (inr refl))

-- After 299 seconds the origin is still skipped.
negative_cache_hit-insert_negative_example :
    let w = (insert_negative horizon (from_secs 300) origin 0 none world).1 in
    ((negative_cache_hit origin (from_secs 299) none w).0 ≡ done true)
    × ((alt_svc_entry origin (from_secs 299) none w).0 ≡ done none)
negative_cache_hit-insert_negative_example =
    negative_cache_hit-insert_negative horizon (from_secs 300) origin 0 none world (from_secs 299)
      refl refl (omega arith)

abbrev other : Origin
other = record origin { port = 8443 }

differ : origin_eq origin other ≡ false
unfolding origin_eq str_eq
differ = refl

negative_cache_hit-insert_negative_ne_example :
    let w = (insert_negative horizon (from_secs 300) origin 0 none world).1 in
    ((negative_cache_hit other 7 none w).0 ≡ (negative_cache_hit other 7 none world).0)
    × ((alt_svc_entry other 7 none w).0 ≡ (alt_svc_entry other 7 none world).0)
negative_cache_hit-insert_negative_ne_example =
    negative_cache_hit-insert_negative_ne horizon (from_secs 300) origin 0 none world other 7 differ
      (omega arith)

-- The handshake never ends; the connection is given up all the same.
connection_deadline_example :
    ((connection network timer (codes "a.example") 8443 [] none world).1.clock ≤ from_millis 1150)
    × ((connection network timer (codes "a.example") 8443 [] none world).0 ≢ hangs)
connection_deadline_example =
    connection_deadline network timer timer-IsTimer (codes "a.example") 8443 [] none world tt

abbrev body : List (Polled Text)
body = frame (data_frame (codes "hel")) ∷ frame other_frame ∷ frame (data_frame (codes "lo")) ∷ []

collect_body_with_cap-ok_iff_example :
    (collect_body_with_cap 5 [] body ≡ ok (codes "hello"))
    ↔ (IsComplete body × (codes "hello" ≡ payload body) × (length (payload body) ≤ 5))
collect_body_with_cap-ok_iff_example =
    collect_body_with_cap-ok_iff 5 (omega arith) body (codes "hello")

abbrev cap : ℕ
cap = 4

over_four : collect_body_with_cap cap [] body ≡ err (body_too_large 4 3)
unfolding collect_body_with_cap
over_four = refl

collect_body_with_cap_too_large_example : (cap ≡ 4) × (3 ≤ cap) × (cap < length (payload body))
collect_body_with_cap_too_large_example =
    collect_body_with_cap_too_large cap (omega arith) body 4 3 over_four

values-append :
    (m : HeaderMap) (n v name : Text)
    → values name (m ++ ((n, v) ∷ [])) ≡ values name m ++ values name ((n, v) ∷ [])
values-append [] n v name = refl
values-append ((n', v') ∷ m) n v name = elim (Bool-cases (str_eq n' name)) [
  | inl e ↦ rw (e, values-append m n v name) refl
  | inr e ↦ rw (e, values-append m n v name) refl
]

http-IsHeaderMap : IsHeaderMap http
http-IsHeaderMap = record { values-empty = λ name. refl; values-append = values-append }

-- Both values of `accept` are sent.
values-merged_headers_example :
    values (codes "accept") (merged_headers http client.default_headers builder.headers)
    ≡ codes "text/html" ∷ codes "text/plain" ∷ []
unfolding str_eq
values-merged_headers_example =
    values-merged_headers http http-IsHeaderMap client.default_headers builder.headers
      (codes "accept")
