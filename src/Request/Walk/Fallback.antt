-- ===== src/Request/Walk/Fallback.antt =====
-- The walk through the HTTP/3 attempts of a request.
use mechanics_http_client.Prelude.{
  ℕ, zero, suc, ◌+◌, true, false, Option, none, some, if◌then◌else◌, inl, inr, Bool-cases,
}
use mechanics_http_client.Text.{Text}
use mechanics_http_client.Error.{Result, ok, err}
use mechanics_http_client.Origin.{Origin}
use mechanics_http_client.AltSvc.{AltSvcEntry}
use mechanics_http_client.Async.{Timer, pure, ◌>>=◌}
use mechanics_http_client.Http.{HttpsRrEntry, Parts, Response, Call, lookup_https, Network, Shared}
use mechanics_http_client.HttpsRr.{lookup, store_lookup, https_rr_lookup_timeout, https_rr_entry}
use mechanics_http_client.Http3.{H3, Attempt, accepted, refused, handshake_failed, stream_failed}
use mechanics_http_client.Request.Fallback.{
  Settings, H3StreamFailureAction, retry_fresh_h3, use_tcp, h3_stream_failure_action,
  Http3RequestTarget, give_up, after_attempt, attempts, request_http3_with_stale_retry, via_alt_svc,
  via_https_rr, or_https_rr, by_alternatives, try_http3,
}
use mechanics_http_client.Request.Walk.{Rules}
use mechanics_http_client.Request.Walk.Connection.{request-walk}

module _ {M : Type 0} {net : Network M} {timer : Timer Shared (Call M)} {s : Settings}
    {IsMine : Origin → Type 0} {IsPast : ℕ → Type 0} {P : (A : Type 0) → H3 M A → Type 0}
    (r : Rules net timer s IsMine IsPast P) where
  lookup-walk : (origin : Origin) → P _ (lookup net origin)
  unfolding lookup
  lookup-walk origin =
      r.on_bind _ _
        (r.on_await (lookup_https origin.host) (λ calls. net.lookup_https calls origin.host))
        (λ x. r.on_pure _)

  https_rr_entry-walk :
      (origin : Origin) (t : ℕ) → IsMine origin → IsPast t → P _ (https_rr_entry net timer origin t)
  unfolding https_rr_entry
  https_rr_entry-walk origin t o p = r.on_bind _ _ (r.on_cached_entry origin t o p) rest
    where
      rest :
          (cached : Option HttpsRrEntry)
          → P _ (elim cached [
            | some e ↦ pure (some e)
            | none ↦
                timer.timeout https_rr_lookup_timeout (lookup net origin) >>= store_lookup origin
          ])
      rest (some e) = r.on_pure _
      rest none =
          r.on_bind _ _ (r.on_timeout https_rr_lookup_timeout _ (lookup-walk origin))
            (λ looked_up. r.on_store_lookup origin looked_up o)

  give_up-walk :
      (origin : Origin) (t : ℕ) → IsMine origin → IsPast t → P _ (give_up net timer s origin t)
  give_up-walk origin t o p = r.on_bind _ _ (r.on_insert_negative origin t o p) (λ u. r.on_pure _)

  after_attempt-walk :
      (again : H3 M (Result (Option (Response M)))) (origin : Origin) (t attempt : ℕ)
      (result : Attempt (Response M))
      → IsMine origin
      → IsPast t
      → P _ again
      → P _ (after_attempt net timer s again origin t attempt result)
  unfolding after_attempt
  after_attempt-walk again origin t attempt (accepted x) o p h = r.on_pure _
  after_attempt-walk again origin t attempt (refused (handshake_failed x)) o p h =
      give_up-walk origin t o p
  after_attempt-walk again origin t attempt (refused (stream_failed x)) o p h =
      by_action (h3_stream_failure_action x attempt)
    where
      by_action :
          (action : H3StreamFailureAction)
          → P _ (elim action [ retry_fresh_h3 ↦ again | use_tcp ↦ give_up net timer s origin t ])
      by_action retry_fresh_h3 = h
      by_action use_tcp = give_up-walk origin t o p

  attempts-walk :
      (rounds attempt : ℕ) (target : Http3RequestTarget) (parts : Parts M) (body : Option Text)
      (t : ℕ)
      → IsMine target.origin
      → IsPast t
      → P _ (attempts net timer s rounds attempt target parts body t)
  unfolding attempts
  attempts-walk zero attempt target parts body t o p = give_up-walk target.origin t o p
  attempts-walk (suc rounds) attempt target parts body t o p =
      r.on_bind _ _
        (r.on_guarded target.origin _ o
          (request-walk r target.target target.authority_host target.addresses parts body))
        (λ result.
          after_attempt-walk _ target.origin t attempt result o p
            (attempts-walk rounds (attempt + 1) target parts body t o p))

  module _ (parts : Parts M) (body : Option Text) where
    retry-walk :
        (target : Http3RequestTarget) (t : ℕ)
        → IsMine target.origin
        → IsPast t
        → P _ (request_http3_with_stale_retry net timer s target parts body t)
    unfolding request_http3_with_stale_retry
    retry-walk target t o p = attempts-walk 2 0 target parts body t o p

    via_alt_svc-walk :
        (e : Option AltSvcEntry) (origin : Origin) (t : ℕ)
        → IsMine origin
        → IsPast t
        → P _ (via_alt_svc net timer s e origin parts body t)
    unfolding via_alt_svc
    via_alt_svc-walk none origin t o p = r.on_pure _
    via_alt_svc-walk (some e) origin t o p = retry-walk _ t o p

    via_https_rr-walk :
        (e : Option HttpsRrEntry) (origin : Origin) (t : ℕ)
        → IsMine origin
        → IsPast t
        → P _ (via_https_rr net timer s e origin parts body t)
    unfolding via_https_rr
    via_https_rr-walk none origin t o p = r.on_pure _
    via_https_rr-walk (some e) origin t o p = elim (Bool-cases e.has_h3) [
      | inl with_h3 ↦ rw with_h3 (retry-walk _ t o p)
      | inr without ↦ rw without (r.on_pure _)
    ]

    or_https_rr-walk :
        (origin : Origin) (t : ℕ) (first : Result (Option (Response M)))
        → IsMine origin
        → IsPast t
        → P _ (or_https_rr net timer s origin parts body t first)
    unfolding or_https_rr
    or_https_rr-walk origin t (ok (some x)) o p = r.on_pure _
    or_https_rr-walk origin t (err e) o p = r.on_pure _
    or_https_rr-walk origin t (ok none) o p =
        r.on_bind _ _ (https_rr_entry-walk origin t o p) (λ e. via_https_rr-walk e origin t o p)

    by_alternatives-walk :
        (origin : Origin) (t : ℕ)
        → IsMine origin
        → IsPast t
        → P _ (by_alternatives net timer s origin parts body t)
    unfolding by_alternatives
    by_alternatives-walk origin t o p = r.on_bind _ _ (r.on_alt_svc_entry origin t o p) λ e.
        r.on_bind _ _ (via_alt_svc-walk e origin t o p)
          (λ first. or_https_rr-walk origin t first o p)

    pub try_http3-walk :
        (origin : Origin) → IsMine origin → P _ (try_http3 net timer s origin parts body)
    unfolding try_http3
    try_http3-walk origin o = r.on_now _ λ t p.
        r.on_bind _ _ (r.on_negative_cache_hit origin t o p) λ hit.
          elim hit
            as (λ h.
              P _ (if h then pure (ok none) else by_alternatives net timer s origin parts body t)) [
                | true ↦ r.on_pure _
                | false ↦ by_alternatives-walk origin t o p
              ]
