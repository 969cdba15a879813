-- ===== src/Tests/Ported.antt =====
-- The unit tests of src/request.rs and src/alt_svc.rs that need no network, as functions of the
-- instant at which they run, and that they pass.
use mechanics_http_client.Prelude.{
  ℕ, ◌+◌, ◌≤◌, ◌≡◌, refl, Bool, true, false, not, ◌&&◌, none, some, Option, [], ◌∷◌, arith, ltb,
  ◌==◌, returns, is_some, Run,
}
use mechanics_http_client.Text.{
  codes, str_eq, trim, eq_ignore_ascii_case, byte_len, split_once, rsplit_once, strip_prefix,
  strip_suffix, parse_unsigned,
}
use mechanics_http_client.Time.{from_secs, add_instant}
use mechanics_http_client.Origin.{Origin, insert, remove, origin_eq}
use mechanics_http_client.AltSvc.{AltSvcUpdate, clear, entry, nothing, parse_str, parse_authority}
use mechanics_http_client.AltSvc.Split.{next, split_quoted}
use mechanics_http_client.Async.{World, Outcome, done, await, Timer, timer}
use mechanics_http_client.Error.{Result, ok}
use mechanics_http_client.Cache.{insert_negative}
use mechanics_http_client.Client.{no_state}
use mechanics_http_client.Client.Inspection.{
  insert_alt_svc_for_test, has_alt_svc_for_test, has_negative_for_test,
}
use mechanics_http_client.Http.{Shared, Call, Network, Parts, Response}
use mechanics_http_client.Http3.{H3, request}
use mechanics_http_client.Request.Fallback.{
  request_http3_with_stale_retry, Settings, arm, disarm, drop_guard, h3_stream_failure_action,
  retry_fresh_h3, use_tcp, H3StreamFailureAction,
}
use mechanics_http_client.Tests.{network, horizon, parts}

abbrev origin : Origin
origin = record { host = codes "example.com"; port = 443 }

abbrev at : ℕ → Shared → World Shared Unit
at t s = record { clock = t; shared = s; trace = [] }

module _ (settings : Settings) where
  unfoldable h3_attempt_cancellation_guard_negative_caches_on_drop : ℕ → Bool
  h3_attempt_cancellation_guard_negative_caches_on_drop t =
      let s =
        insert_alt_svc_for_test origin
          (record { host = none; port = 443; expires_at = t + from_secs 60 }) no_state in
      let dropped = (drop_guard settings (arm origin) none (at t s)).1.shared in
      has_alt_svc_for_test s origin
      && has_negative_for_test dropped origin
      && not (has_alt_svc_for_test dropped origin)

  unfoldable h3_attempt_cancellation_guard_disarms_after_completion : ℕ → Bool
  h3_attempt_cancellation_guard_disarms_after_completion t = not (
      has_negative_for_test
        (drop_guard settings (disarm (arm origin)) none (at t no_state)).1.shared origin)

abbrev is_retry : H3StreamFailureAction → Bool
is_retry retry_fresh_h3 = true
is_retry use_tcp = false

unfoldable h3_stream_failure_after_retry_budget_uses_tcp_fallback : Bool
unfolding h3_stream_failure_action
h3_stream_failure_after_retry_budget_uses_tcp_fallback =
    is_retry (h3_stream_failure_action true 0) && not (is_retry (h3_stream_failure_action true 1))

unfoldable h3_stream_failure_after_request_started_uses_tcp_fallback : Bool
unfolding h3_stream_failure_action
h3_stream_failure_after_request_started_uses_tcp_fallback =
    not (is_retry (h3_stream_failure_action false 0))

abbrev is_entry : ℕ → Run AltSvcUpdate → Bool
is_entry now (returns (entry e)) = not (is_some e.host) && e.port == 8443 && ltb now e.expires_at
is_entry now _ = false

abbrev is_nothing : Run AltSvcUpdate → Bool
is_nothing (returns nothing) = true
is_nothing _ = false

abbrev is_clear : Run AltSvcUpdate → Bool
is_clear (returns clear) = true
is_clear _ = false

module _ (horizon : ℕ) where
  unfoldable parses_h3_authority_and_max_age : ℕ → Bool
  unfolding parse_str eq_ignore_ascii_case trim byte_len next split_quoted split_once
      parse_authority strip_prefix strip_suffix rsplit_once parse_unsigned str_eq add_instant
  parses_h3_authority_and_max_age now =
      is_entry now (parse_str horizon (codes "h3=\":8443\"; ma=60") now 443)

  unfoldable ignores_draft_h3_variants : ℕ → Bool
  unfolding parse_str eq_ignore_ascii_case trim byte_len next split_quoted split_once
      parse_authority strip_prefix strip_suffix rsplit_once parse_unsigned str_eq add_instant
  ignores_draft_h3_variants now =
      is_nothing (parse_str horizon (codes "h3-29=\":443\"; ma=60") now 443)

  unfoldable parses_clear : ℕ → Bool
  unfolding parse_str eq_ignore_ascii_case trim byte_len next split_quoted split_once
      parse_authority strip_prefix strip_suffix rsplit_once parse_unsigned str_eq add_instant
  parses_clear now = is_clear (parse_str horizon (codes "clear") now 443)

  draft : (now : ℕ) → ignores_draft_h3_variants now ≡ true
  unfolding ignores_draft_h3_variants
  draft now = refl

  cleared : (now : ℕ) → parses_clear now ≡ true
  unfolding parses_clear
  cleared now = refl

  parsed : (now : ℕ) → now + from_secs 60 ≤ horizon → parses_h3_authority_and_max_age now ≡ true
  unfolding parses_h3_authority_and_max_age
  parsed now room = ground arith

budget : h3_stream_failure_after_retry_budget_uses_tcp_fallback ≡ true
unfolding h3_stream_failure_after_retry_budget_uses_tcp_fallback
budget = refl

started : h3_stream_failure_after_request_started_uses_tcp_fallback ≡ true
unfolding h3_stream_failure_after_request_started_uses_tcp_fallback
started = refl

module _ (settings : Settings) where
  dropped_armed :
      (t : ℕ)
      → t + settings.negative_duration ≤ settings.horizon
      → h3_attempt_cancellation_guard_negative_caches_on_drop settings t ≡ true
  unfolding h3_attempt_cancellation_guard_negative_caches_on_drop drop_guard insert_negative
      add_instant insert remove origin_eq str_eq
  dropped_armed t room = ground arith

  dropped_disarmed :
      (t : ℕ) → h3_attempt_cancellation_guard_disarms_after_completion settings t ≡ true
  unfolding h3_attempt_cancellation_guard_disarms_after_completion drop_guard
  dropped_disarmed t = refl

-- The test with nobody behind the UDP port: the network is one on which no handshake ends.
module _ {M : Type 0} (net : Network M) (timer : Timer Shared (Call M)) (settings : Settings) where
  abbrev blackhole_request : Parts M → H3 M (Option (Result (Option (Response M))))
  blackhole_request parts cutoff w =
      let origin : Origin = record { host = codes "localhost"; port = 4433 } in
      timer.timeout (from_secs 2)
        (request_http3_with_stale_retry net timer settings
          (record {
            origin = origin;
            target = origin;
            authority_host = codes "localhost";
            addresses = codes "127.0.0.1" ∷ [];
          })
          parts none w.clock)
        cutoff w

  abbrev is_left_to_tcp : Outcome (Option (Result (Option (Response M)))) → Bool
  is_left_to_tcp (done (some (ok none))) = true
  is_left_to_tcp _ = false

  unfoldable h3_missing_udp_listener_falls_back_before_request_timeout : Parts M → ℕ → Bool
  unfolding request_http3_with_stale_retry
  h3_missing_udp_listener_falls_back_before_request_timeout parts t =
      let r = blackhole_request parts none (record { clock = t; shared = no_state; trace = [] }) in
      is_left_to_tcp r.0
      && has_negative_for_test r.1.shared (record { host = codes "localhost"; port = 4433 })

falls_back_in_time :
    h3_missing_udp_listener_falls_back_before_request_timeout network timer
      (record { horizon = horizon; negative_duration = from_secs 300 })
      parts
      7
    ≡ true
unfolding h3_missing_udp_listener_falls_back_before_request_timeout request await insert_negative
    add_instant insert remove origin_eq str_eq
falls_back_in_time = refl
