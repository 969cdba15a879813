-- ===== src/Request/Fallback.antt =====
-- src/request.rs: the opportunistic HTTP/3 attempt: the cancellation guard, the retry on a fresh
-- connection, and `try_http3`.
use mechanics_http_client.Prelude.{
  ℕ, zero, suc, ◌+◌, Bool, true, false, ◌&&◌, Option, none, some, List, [], ◌==◌, if◌then◌else◌,
  unwrap_or,
}
use mechanics_http_client.Text.{Text}
use mechanics_http_client.Error.{Result, ok, err}
use mechanics_http_client.Origin.{Origin}
use mechanics_http_client.Async.{
  Async, Outcome, done, cut, hangs, panicked, World, Timer, pure, now, ◌>>=◌, ◌>>◌,
}
use mechanics_http_client.Http.{IpAddr, Parts, Response, Call, HttpsRrEntry, Shared, Network}
use mechanics_http_client.AltSvc.{AltSvcEntry}
use mechanics_http_client.Cache.{insert_negative, negative_cache_hit, alt_svc_entry}
use mechanics_http_client.HttpsRr.{https_rr_entry}
use mechanics_http_client.Http3.{
  H3, Attempt, accepted, refused, handshake_failed, stream_failed, request,
}

pub data H3StreamFailureAction : Type 0 where
  retry_fresh_h3 use_tcp : H3StreamFailureAction

unfoldable pub h3_stream_failure_action : Bool → ℕ → H3StreamFailureAction
h3_stream_failure_action retry_without_h3 attempt =
    if retry_without_h3 && attempt == 0 then retry_fresh_h3 else use_tcp

-- `H3AttemptCancellationGuard`
pub record Guard : Type 0 where
  pub origin : Origin
  pub armed : Bool

abbrev pub arm : Origin → Guard
arm origin = record { origin = origin; armed = true }

abbrev pub disarm : Guard → Guard
disarm guard = record guard { armed = false }

pub record Http3RequestTarget : Type 0 where
  pub origin : Origin
  pub target : Origin
  pub authority_host : Text
  pub addresses : List IpAddr

-- What the client knows of time and of itself.
pub record Settings : Type 0 where
  pub horizon : ℕ
  pub negative_duration : ℕ

-- A panic in a destructor takes the place of what was coming out.
abbrev pub unwound : {A : Type 0} → Outcome A → Outcome Unit → Outcome A
unwound o panicked = panicked
unwound o _ = o

module _ {C : Type 0} (settings : Settings) where
  abbrev pub remember_failure : Origin → ℕ → Async Shared C Unit
  remember_failure = insert_negative settings.horizon settings.negative_duration

  -- `Drop::drop` of the guard
  unfoldable pub drop_guard : Guard → Async Shared C Unit
  drop_guard guard cutoff w =
      if guard.armed then remember_failure guard.origin w.clock cutoff w else (done tt, w)

  -- The end of the guarded call: disarmed if it returned, dropped armed if it was cut or panicked.
  abbrev pub leave :
      {A : Type 0} → Guard → Option ℕ → Outcome A → World Shared C → Outcome A × World Shared C
  leave guard cutoff (done a) w =
      let r = drop_guard (disarm guard) cutoff w in (unwound (done a) r.0, r.1)
  leave guard cutoff cut w = let r = drop_guard guard cutoff w in (unwound cut r.0, r.1)
  leave guard cutoff hangs w = (hangs, w)
  leave guard cutoff panicked w = let r = drop_guard guard cutoff w in (unwound panicked r.0, r.1)

  unfoldable pub guarded : {A : Type 0} → Origin → Async Shared C A → Async Shared C A
  unfolding drop_guard
  guarded origin m cutoff w = let r = m cutoff w in leave (arm origin) cutoff r.0 r.1

module _ {M : Type 0} (net : Network M) (timer : Timer Shared (Call M)) (settings : Settings) where
  abbrev pub give_up : Origin → ℕ → H3 M (Result (Option (Response M)))
  give_up origin t = do remember_failure settings origin t; pure (ok none)

  -- What one round of the loop does with the result of its attempt; `again` is the next round.
  unfoldable pub after_attempt :
      H3 M (Result (Option (Response M)))
      → Origin
      → ℕ
      → ℕ
      → Attempt (Response M)
      → H3 M (Result (Option (Response M)))
  unfolding h3_stream_failure_action
  after_attempt again origin t attempt (accepted response) = pure (ok (some response))
  after_attempt again origin t attempt (refused (handshake_failed message)) = give_up origin t
  after_attempt again origin t attempt (refused (stream_failed retry_without_h3)) =
      elim (h3_stream_failure_action retry_without_h3 attempt) [
        | retry_fresh_h3 ↦ again
        | use_tcp ↦ give_up origin t
      ]

  -- The loop of `request_http3_with_stale_retry`: the rounds left, and `attempt`.
  unfoldable pub attempts :
      ℕ → ℕ → Http3RequestTarget → Parts M → Option Text → ℕ → H3 M (Result (Option (Response M)))
  unfolding guarded after_attempt
  attempts zero attempt target parts body t = give_up target.origin t
  attempts (suc rounds) attempt target parts body t = do
    result ←
        guarded settings target.origin
          (request net timer target.target target.authority_host target.addresses parts body)
    after_attempt (attempts rounds (attempt + 1) target parts body t) target.origin t attempt result

  unfoldable pub request_http3_with_stale_retry :
      Http3RequestTarget → Parts M → Option Text → ℕ → H3 M (Result (Option (Response M)))
  unfolding attempts
  request_http3_with_stale_retry target parts body t = attempts 2 0 target parts body t

  -- The attempt by a cached `Alt-Svc` entry, if there is one.
  unfoldable pub via_alt_svc :
      Option AltSvcEntry → Origin → Parts M → Option Text → ℕ → H3 M (Result (Option (Response M)))
  via_alt_svc none origin parts body t = pure (ok none)
  via_alt_svc (some e) origin parts body t =
      let authority_host = unwrap_or e.host origin.host in
      request_http3_with_stale_retry
        (record {
          origin = origin;
          target = record { host = authority_host; port = e.port };
          authority_host = authority_host;
          addresses = [];
        })
        parts body t

  -- The attempt by an HTTPS record, if there is one and it has h3.
  unfoldable pub via_https_rr :
      Option HttpsRrEntry → Origin → Parts M → Option Text → ℕ → H3 M (Result (Option (Response M)))
  via_https_rr none origin parts body t = pure (ok none)
  via_https_rr (some e) origin parts body t =
      if e.has_h3
      then request_http3_with_stale_retry
          (record {
            origin = origin;
            target = record origin { port = e.port };
            authority_host = origin.host;
            addresses = e.addresses;
          })
          parts body t
      else pure (ok none)

  -- The second half of `try_http3`, after what the `Alt-Svc` entry came to.
  unfoldable pub or_https_rr :
      Origin
      → Parts M
      → Option Text
      → ℕ
      → Result (Option (Response M))
      → H3 M (Result (Option (Response M)))
  unfolding via_https_rr
  or_https_rr origin parts body t (ok (some response)) = pure (ok (some response))
  or_https_rr origin parts body t (err e) = pure (err e)
  or_https_rr origin parts body t (ok none) = do
    discovered ← https_rr_entry net timer origin t
    via_https_rr discovered origin parts body t

  unfoldable pub by_alternatives :
      Origin → Parts M → Option Text → ℕ → H3 M (Result (Option (Response M)))
  unfolding via_alt_svc or_https_rr
  by_alternatives origin parts body t = do
    alternative ← alt_svc_entry origin t
    first ← via_alt_svc alternative origin parts body t
    or_https_rr origin parts body t first

  unfoldable pub try_http3 : Origin → Parts M → Option Text → H3 M (Result (Option (Response M)))
  unfolding by_alternatives
  try_http3 origin parts body = do
    t ← now
    hit ← negative_cache_hit origin t
    if hit then pure (ok none) else by_alternatives origin parts body t
