-- ===== src/Request/Blocked/Attempting.antt =====
-- From a handshake that never ends to the end of `try_http3`.
use mechanics_http_client.Prelude.{
  ℕ, ◌+◌, ◌≤◌, ◌≡◌, refl, Bool, true, false, Option, none, some, List, arith, if◌then◌else◌,
  Bool-cases, inl, inr,
}
use mechanics_http_client.Text.{Text}
use mechanics_http_client.Time.{from_millis}
use mechanics_http_client.Error.{Result, ok}
use mechanics_http_client.Origin.{Origin}
use mechanics_http_client.Async.{World, Timer, IsTimer, pure, ◌>>=◌}
use mechanics_http_client.Cache.Effects.{
  insert_negative-Certain, negative_cache_hit-Sync, alt_svc_entry-Sync,
  negative_cache_hit-ne_panicked, alt_svc_entry-ne_panicked,
}
use mechanics_http_client.HttpsRr.Effects.{
  cached_entry-Sync, store_lookup-Sync, cached_entry-ne_panicked, store_lookup-ne_panicked,
}
use mechanics_http_client.Async.Giving.{Gives, Gives-pure, Gives-le, Gives-bind, Gives-after}
use mechanics_http_client.AltSvc.{AltSvcEntry}
use mechanics_http_client.Http.{
  Fallible, success, failure, IpAddr, Parts, Response, Call, HttpsRrEntry, lookup_https, Shared,
  Network,
}
use mechanics_http_client.Cache.{insert_negative, negative_cache_hit, alt_svc_entry}
use mechanics_http_client.HttpsRr.{
  https_rr_entry, cached_entry, store_lookup, lookup, selected, https_rr_lookup_timeout,
}
use mechanics_http_client.Http3.{
  H3, Attempt, accepted, refused, handshake_failed, stream_failed, try, sender_of, open_stream,
  request,
}
use mechanics_http_client.Request.Blocked.{Blocked, IsFailure, blocked_time, connection-Gives}
use mechanics_http_client.Request.Fallback.{
  Settings, Http3RequestTarget, give_up, after_attempt, attempts, request_http3_with_stale_retry,
  via_alt_svc, via_https_rr, or_https_rr, by_alternatives, try_http3,
}
use mechanics_http_client.Async.Stopping.{Anything, no_cost, any_mapped_call-Gives, Sync-Gives}
use mechanics_http_client.Request.Giving.{guarded-Gives}

abbrev FailsHandshake : {A : Type 0} → Attempt A → Type 0
FailsHandshake (accepted a) = ⊥
FailsHandshake (refused (handshake_failed e)) = Unit
FailsHandshake (refused (stream_failed r)) = ⊥

-- HTTP/3 leaves the request to TCP.
abbrev pub Leave : {A : Type 0} → Result (Option A) → Type 0
Leave r = r ≡ ok none

abbrev second_time : ℕ
second_time = 0 + (https_rr_lookup_timeout + 0) + (blocked_time + 0 + 0)

-- What HTTP/3 takes at most, before it leaves the request to TCP.
abbrev pub given_up_time : ℕ
given_up_time = from_millis 1450

module _ {M : Type 0} (net : Network M) (timer : Timer Shared (Call M)) (law : IsTimer timer)
    (blocked : Blocked net) where
  request-Gives :
      (target : Origin) (host : Text) (addresses : List IpAddr) (parts : Parts M)
      (body : Option Text) (w : World Shared (Call M))
      → Gives no_cost FailsHandshake
          (blocked_time + 0)
          (request net timer target host addresses parts body)
          w
  unfolding request
  request-Gives target host addresses parts body w =
      Gives-bind IsFailure FailsHandshake blocked_time 0 _ _ w
        (connection-Gives net timer law blocked host target.port addresses w) refuse
    where
      refuse :
          (connected : Fallible ℕ) (v : World Shared (Call M))
          → IsFailure connected
          → Gives no_cost FailsHandshake 0
              (try (sender_of connected) (open_stream net timer parts body))
              v
      refuse (success s) v h = elim h [ ]
      refuse (failure e) v h = Gives-pure FailsHandshake (refused (handshake_failed e)) v tt

  module _ (s : Settings) (parts : Parts M) (body : Option Text) (t : ℕ)
      (room : t + s.negative_duration ≤ s.horizon) where
    give_up-Gives :
        (origin : Origin) (w : World Shared (Call M))
        → Gives no_cost Leave 0 (give_up net timer s origin t) w
    give_up-Gives origin w =
        Gives-after (λ u v. Unit) Leave 0 (insert_negative s.horizon s.negative_duration origin t)
          (λ u. pure (ok none)) w
          (insert_negative-Certain s.horizon s.negative_duration origin t w room)
          (λ u v h. Gives-pure Leave (ok none) v refl)

    retry-Gives :
        (target : Http3RequestTarget) (w : World Shared (Call M))
        → Gives no_cost Leave
            (blocked_time + 0 + 0)
            (request_http3_with_stale_retry net timer s target parts body t)
            w
    unfolding request_http3_with_stale_retry attempts after_attempt
    retry-Gives target w =
        Gives-bind FailsHandshake Leave (blocked_time + 0) 0 _ _ w
          (guarded-Gives s FailsHandshake (blocked_time + 0) target.origin _ w
            (request-Gives target.target target.authority_host target.addresses parts body w))
          after
      where
        after :
            (result : Attempt (Response M)) (v : World Shared (Call M))
            → FailsHandshake result
            → Gives no_cost Leave 0
                (after_attempt net timer s
                  (attempts net timer s 1 1 target parts body t)
                  target.origin
                  t
                  0
                  result)
                v
        after (accepted r) v h = elim h [ ]
        after (refused (handshake_failed e)) v h = give_up-Gives target.origin v
        after (refused (stream_failed r)) v h = elim h [ ]

    via_alt_svc-Gives :
        (e : Option AltSvcEntry) (origin : Origin) (w : World Shared (Call M))
        → Gives no_cost Leave
            (blocked_time + 0 + 0)
            (via_alt_svc net timer s e origin parts body t)
            w
    unfolding via_alt_svc
    via_alt_svc-Gives none origin w =
        Gives-le 0 (blocked_time + 0 + 0) (pure (ok none)) w (omega arith)
          (Gives-pure Leave (ok none) w refl)
    via_alt_svc-Gives (some e) origin w = retry-Gives _ w

    via_https_rr-Gives :
        (e : Option HttpsRrEntry) (origin : Origin) (w : World Shared (Call M))
        → Gives no_cost Leave
            (blocked_time + 0 + 0)
            (via_https_rr net timer s e origin parts body t)
            w
    unfolding via_https_rr
    via_https_rr-Gives none origin w =
        Gives-le 0 (blocked_time + 0 + 0) (pure (ok none)) w (omega arith)
          (Gives-pure Leave (ok none) w refl)
    via_https_rr-Gives (some e) origin w = elim (Bool-cases e.has_h3) [
      | inl with_h3 ↦ rw with_h3 (retry-Gives _ w)
      | inr without ↦ rw without (
          Gives-le 0 (blocked_time + 0 + 0) (pure (ok none)) w (omega arith)
            (Gives-pure Leave (ok none) w refl))
    ]

    https_rr_entry-Gives :
        (origin : Origin) (w : World Shared (Call M))
        → Gives no_cost Anything
            (0 + (https_rr_lookup_timeout + 0))
            (https_rr_entry net timer origin t)
            w
    unfolding https_rr_entry lookup
    https_rr_entry-Gives origin w =
        Gives-bind Anything Anything 0 (https_rr_lookup_timeout + 0) (cached_entry origin t) _ w
          (Sync-Gives _ w (cached_entry-Sync origin t)
            (λ cutoff. cached_entry-ne_panicked origin t cutoff w))
          from_cache
      where
        from_cache :
            (cached : Option HttpsRrEntry) (v : World Shared (Call M))
            → Anything cached
            → Gives no_cost Anything
                (https_rr_lookup_timeout + 0)
                (elim cached [
                  | some e ↦ pure (some e)
                  | none ↦
                      timer.timeout https_rr_lookup_timeout (lookup net origin)
                      >>= store_lookup origin
                ])
                v
        from_cache (some e) v h =
            Gives-le 0 (https_rr_lookup_timeout + 0) (pure (some e)) v (omega arith)
              (Gives-pure Anything (some e) v tt)
        from_cache none v h =
            Gives-bind Anything Anything https_rr_lookup_timeout 0
              (timer.timeout https_rr_lookup_timeout (lookup net origin)) (store_lookup origin) v
              (any_mapped_call-Gives timer law net.others (lookup_https origin.host)
                (λ calls. net.lookup_https calls origin.host) (selected origin.port)
                https_rr_lookup_timeout v)
              (λ r u k.
                Sync-Gives _ u (store_lookup-Sync origin r)
                  (λ cutoff. store_lookup-ne_panicked origin r cutoff u))

    second-Gives :
        (origin : Origin) (first : Result (Option (Response M))) (w : World Shared (Call M))
        → Leave first
        → Gives no_cost Leave second_time (or_https_rr net timer s origin parts body t first) w
    unfolding or_https_rr
    second-Gives origin first w left = rw left (
        Gives-bind Anything Leave (0 + (https_rr_lookup_timeout + 0)) (blocked_time + 0 + 0)
          (https_rr_entry net timer origin t) (λ e. via_https_rr net timer s e origin parts body t)
          w (https_rr_entry-Gives origin w) (λ found v k. via_https_rr-Gives found origin v))

    by_alternatives-Gives :
        (origin : Origin) (w : World Shared (Call M))
        → Gives no_cost Leave given_up_time (by_alternatives net timer s origin parts body t) w
    unfolding by_alternatives
    by_alternatives-Gives origin w =
        Gives-le (0 + (blocked_time + 0 + 0 + second_time)) given_up_time _ w (omega arith) (
          Gives-bind Anything Leave 0 (blocked_time + 0 + 0 + second_time) (alt_svc_entry origin t)
            _ w
            (Sync-Gives _ w (alt_svc_entry-Sync origin t)
              (λ cutoff. alt_svc_entry-ne_panicked origin t cutoff w))
            (λ e v h.
              Gives-bind Leave Leave (blocked_time + 0 + 0) second_time
                (via_alt_svc net timer s e origin parts body t)
                (or_https_rr net timer s origin parts body t) v (via_alt_svc-Gives e origin v)
                (second-Gives origin)))

  pub try_http3-Gives :
      (s : Settings) (origin : Origin) (parts : Parts M) (body : Option Text)
      (w : World Shared (Call M))
      → w.clock + s.negative_duration ≤ s.horizon
      → Gives no_cost Leave given_up_time (try_http3 net timer s origin parts body) w
  unfolding try_http3
  try_http3-Gives s origin parts body w room = record {
    gives =
        (Gives-le (0 + given_up_time) given_up_time (negative_cache_hit origin w.clock >>= on_hit) w
          (omega arith)
          (Gives-bind Anything Leave 0 given_up_time (negative_cache_hit origin w.clock) on_hit w
            (Sync-Gives _ w (negative_cache_hit-Sync origin w.clock)
              (λ cutoff. negative_cache_hit-ne_panicked origin w.clock cutoff w))
            on_hit-Gives)).gives;
  }
    where
      on_hit : Bool → H3 M (Result (Option (Response M)))
      on_hit hit =
          if hit then pure (ok none) else by_alternatives net timer s origin parts body w.clock

      on_hit-Gives :
          (hit : Bool) (v : World Shared (Call M))
          → Anything hit
          → Gives no_cost Leave given_up_time (on_hit hit) v
      on_hit-Gives true v h =
          Gives-le 0 given_up_time (pure (ok none)) v (omega arith)
            (Gives-pure Leave (ok none) v refl)
      on_hit-Gives false v h = by_alternatives-Gives s parts body w.clock room origin v
