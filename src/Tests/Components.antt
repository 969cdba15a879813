-- ===== src/Tests/Components.antt =====
-- The theorems on the client builder, the caches and the bodies at concrete inputs.
use mechanics_http_client.Prelude.{
  ◌≤◌, ◌≡◌, refl, true, false, Option, none, some, List, [], ◌∷◌, ◌++◌, arith, returns, Bool-cases,
  inl, inr,
}
use mechanics_http_client.Text.{Text, codes, str_eq, trim, eq_ignore_ascii_case}
use mechanics_http_client.Time.{from_secs}
use mechanics_http_client.Error.{ok, err, cancelled, invalid_header}
use mechanics_http_client.Origin.{from_uri}
use mechanics_http_client.Async.{World, done, timer, timer-IsTimer}
use mechanics_http_client.Async.Spends.{total}
use mechanics_http_client.Http.{
  Fallible, success, failure, Call, Shared, frame, failed, data_frame, HttpsRecord, HttpsRrEntry,
  Response,
}
use mechanics_http_client.AltSvc.{parse_header, parse_str, clear}
use mechanics_http_client.Cache.{alt_svc_entry, maybe_update_alt_svc}
use mechanics_http_client.Cache.Updates.{alt_svc_entry-maybe_update_alt_svc}
use mechanics_http_client.Client.{Client, default, build, no_state}
use mechanics_http_client.Client.Ops.{
  ClientOp, timeout_op, user_agent_op, default_headers_op, http3_op, default_header_op, chain,
}
use mechanics_http_client.Client.Settings.{build-settings, build-rejected, build-user_agent}
use mechanics_http_client.Http3.Body.{
  RequestStream, RecvPoll, waiting, gave, new, over, poll_frame, cancels, PollFrame,
  H3ResponseBodyState,
}
use mechanics_http_client.Http3.Body.Frames.{
  Gives, later, chunk, broken, polls, polls-Gives, polls_for, poll_frame-cancels, is_data,
}
use mechanics_http_client.HttpsRr.{parse_https_record, select}
use mechanics_http_client.HttpsRr.Choice.{select-first_h3}
use mechanics_http_client.Request.OnlyTcp.{other_calls}
use mechanics_http_client.Request.Send.{send}
use mechanics_http_client.Request.Skipped.{send-Skips}
use mechanics_http_client.Response.{
  Codecs, bytes_with_cap, into_body, collect_mhc_body_with_cap, decompress, and_then, ◌>>=◌,
}
use mechanics_http_client.Response.Collecting.{bytes_with_cap-into_body}
use mechanics_http_client.Response.Streaming.{stream_bytes, stream_bytes-Gives}
use mechanics_http_client.Tests.{
  HeaderMap, http, network, client, origin, uri, world, builder, response, lookup, without, horizon,
}

-- A stream that is the list of what its polls give.
abbrev Chunks : Type 0
Chunks = List (Option (Fallible (Option Text)))

abbrev poll : Chunks → RecvPoll Chunks Chunks
poll [] = gave [] (success none)
poll (none ∷ rest) = waiting rest
poll (some result ∷ rest) = gave rest result

abbrev stream : RequestStream Chunks Chunks
stream = record { recv_data = λ chunks. chunks; poll = poll }

abbrev broken_off : Chunks
broken_off =
    some (success (some (codes "hel")))
    ∷ none
    ∷ some (success (some (codes "lo")))
    ∷ some (failure (codes "reset"))
    ∷ []

abbrev gives : Gives stream broken_off (
    frame (data_frame (codes "hel"))
    ∷ frame (data_frame (codes "lo"))
    ∷ failed (cancelled (codes "reset"))
    ∷ [])
gives = chunk refl (later refl (chunk refl (broken refl)))

polls-Gives_example :
    polls stream 7 (new broken_off)
    ≡ returns (
      frame (data_frame (codes "hel"))
          ∷ frame (data_frame (codes "lo"))
          ∷ failed (cancelled (codes "reset"))
          ∷ [],
      over,
    )
unfolding polls_for
polls-Gives_example = polls-Gives stream 3 gives

poll_frame-cancels_example :
    (step : PollFrame × H3ResponseBodyState Chunks Chunks) × (poll_frame stream (new broken_off)
      ≡ returns step)
    × (cancels step.1 ≡ is_data stream step.0)
poll_frame-cancels_example = poll_frame-cancels stream (new broken_off)

abbrev calls : List (ClientOp HeaderMap)
calls =
    timeout_op 5
    ∷ user_agent_op (some (codes "a"))
    ∷ http3_op false
    ∷ timeout_op 7
    ∷ user_agent_op (some (codes "b"))
    ∷ default_headers_op []
    ∷ []

build-settings_example :
    (c : Client HeaderMap) × (build http network.rustls
        (success tt)
        (chain http calls (default http))
      ≡ ok c)
    × (c.inner.default_timeout ≡ some 7)
    × (c.inner.http3_enabled ≡ false)
    × (c.inner.http3_negative_cache_duration ≡ from_secs 300)
    × (c.shared ≡ no_state)
build-settings_example = build-settings http (codes "root" ∷ []) calls refl

-- Two invalid headers, of which the first counts.
build-rejected_example :
    build http network.rustls (success tt) (
      chain http
        (timeout_op 5 ∷ user_agent_op none ∷ default_header_op none none ∷ [])
        (default http))
    ≡ err (invalid_header (codes "User-Agent value rejected"))
build-rejected_example =
    build-rejected http (timeout_op 5 ∷ user_agent_op none ∷ default_header_op none none ∷ [])
      (invalid_header (codes "User-Agent value rejected")) network.rustls (success tt) refl

str_eq_refl : (t : Text) → str_eq t t ≡ true
unfolding str_eq
str_eq_refl [] = refl
str_eq_refl (c ∷ t) = ground (arith, str_eq_refl t)

lookup-insert :
    (m : HeaderMap) (name value : Text)
    → lookup name (without name m ++ ((name, value) ∷ [])) ≡ some value
unfolding lookup without
lookup-insert [] name value = rw str_eq_refl refl
lookup-insert ((n, v) ∷ m) name value = elim (Bool-cases (str_eq n name)) [
  | inl e ↦ rw e (lookup-insert m name value)
  | inr e ↦ rw (e, e) (lookup-insert m name value)
]

build-user_agent_example :
    (c : Client HeaderMap) × (build http network.rustls
        (success tt)
        (chain http calls (default http))
      ≡ ok c)
    × (http.get c.inner.default_headers (codes "user-agent") ≡ some (codes "b"))
build-user_agent_example =
    build-user_agent http lookup-insert (codes "root" ∷ []) calls (codes "b") refl refl

-- The world after a failure five seconds ago.
abbrev after_failure : World Shared (Call HeaderMap)
after_failure = record world {
  clock = from_secs 5;
  shared = record world.shared {
    negative_cache = record { poisoned = false; content = λ key. some (from_secs 300) };
  };
}

from_uri-uri : from_uri uri ≡ some origin
unfolding from_uri str_eq
from_uri-uri = refl

send-Skips_example :
    total other_calls (send http network timer client horizon builder none after_failure).1.trace
    ≤ 0
send-Skips_example =
    send-Skips http network timer timer-IsTimer client horizon builder uri origin none after_failure
      refl from_uri-uri
      (record { until = from_secs 300; healthy = refl; cached = refl; live = omega arith })

abbrev plain : HttpsRecord
plain = record { port = none; address_hints = []; has_alpn = λ protocol. false; expires_at = 9 }

abbrev with_h3 : HttpsRecord
with_h3 = record {
  port = some 8443;
  address_hints = [];
  has_alpn = λ protocol. true;
  expires_at = 8;
}

select-first_h3_example :
    select 443 none (plain ∷ with_h3 ∷ [])
    ≡ some (record { port = 8443; addresses = []; has_h3 = true; expires_at = 8 })
unfolding parse_https_record
select-first_h3_example = select-first_h3 443 (plain ∷ with_h3 ∷ [])

abbrev stored : HttpsRrEntry
stored = record { port = 8443; addresses = []; has_h3 = true; expires_at = 8 }

abbrev clearing : Response HeaderMap
clearing = record response { headers = (codes "alt-svc", codes "clear") ∷ [] }

found : http.get clearing.headers (codes "alt-svc") ≡ some (codes "clear")
unfolding lookup str_eq
found = refl

cleared : parse_header horizon (some (codes "clear")) 0 443 ≡ returns clear
unfolding parse_header parse_str eq_ignore_ascii_case trim
cleared = refl

alt_svc_entry-maybe_update_alt_svc_example :
    (alt_svc_entry origin 7 none (maybe_update_alt_svc http horizon uri clearing none world).1).0
    ≡ done none
alt_svc_entry-maybe_update_alt_svc_example =
    alt_svc_entry-maybe_update_alt_svc http horizon uri origin clearing (codes "clear") clear none
      world 7 from_uri-uri found cleared refl

abbrev codecs : Codecs
codecs = record {
  gzip = λ bytes. failure (codes "corrupt");
  zlib = λ bytes. success bytes;
  brotli = λ bytes. success bytes;
}

bytes_with_cap-into_body_example : bytes_with_cap http codecs 5 response ≡ (
    into_body response
    >>= (λ body. collect_mhc_body_with_cap 5 [] body)
    >>= decompress codecs
        (and_then (http.get response.headers (codes "content-encoding")) http.to_str))
bytes_with_cap-into_body_example = bytes_with_cap-into_body http codecs 5 response

-- Seven polls, of which one finds nothing and three come after the end.
stream_bytes-Gives_example :
    stream_bytes stream http codecs 7 broken_off response
    ≡ returns (err (cancelled (codes "reset")))
unfolding polls_for
stream_bytes-Gives_example = stream_bytes-Gives stream http codecs 3 gives response
