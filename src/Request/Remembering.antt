-- ===== src/Request/Remembering.antt =====
-- What the client remembers of a `send` that timed out in its HTTP/3 phase.
pub mod Sending
use mechanics_http_client.Prelude.{
  ℕ, ◌+◌, ◌≤◌, ◌<◌, ◌≡◌, ◌≢◌, refl, ap, true, false, Option, none, some, ◌∷◌, inl, inr, Bool-cases,
  or, arith,
}
use mechanics_http_client.Text.{Text}
use mechanics_http_client.Error.{Error, timeout, Result, ok, err}
use mechanics_http_client.Origin.{Origin, Uri, from_uri}
use mechanics_http_client.Async.{
  World, Outcome, done, cut, hangs, panicked, Timer, IsTimer, pure, proceed, reaches, await, wait,
  never,
}
use mechanics_http_client.Async.Spends.{total}
use mechanics_http_client.Http.{
  Parts, RequestBody, Response, Call, tcp_request, ClientInner, Http, Network, Shared,
}
use mechanics_http_client.Cache.Effects.{insert_negative-Sync}
use mechanics_http_client.Cache.Negative.{Remembers, Recorded, insert_negative-Recorded}
use mechanics_http_client.Http3.{H3}
use mechanics_http_client.Request.Builder.{RequestBuilder, replayable_for_h3, into_body}
use mechanics_http_client.Request.Calls.Sending.{tcp_requests}
use mechanics_http_client.Request.Errors.{
  NeverErr, try_http3-NeverErr, at_deadline-ne, at_cutoff-ne,
}
use mechanics_http_client.Request.Fallback.{remember_failure, try_http3}
use mechanics_http_client.Request.Send.{
  settings, decided, bounded_http3, after_http3, http3_phase, request_for_http3, exchange, over_tcp,
  after_phase, send_to, send,
}

module _ {M : Type 0} (http : Http M) (net : Network M) (timer : Timer Shared (Call M))
    (law : IsTimer timer) (client : ClientInner M) (horizon : ℕ) where
  -- A phase that ended in an error has left its memory, dated from its end.
  abbrev pub Noted :
      Origin → Outcome (Option (Result (Response M))) → World Shared (Call M) → Type 0
  Noted origin (done (some (err e))) w =
      Remembers origin (w.clock + client.http3_negative_cache_duration) w.shared
  Noted origin _ w = Unit

  decided-Noted :
      (origin : Origin) (r : Result (Option (Response M))) (w : World Shared (Call M))
      → ((e : Error) → r ≢ err e)
      → Noted origin (done (decided http net timer client horizon r)) w
  decided-Noted origin (ok (some response)) w n = tt
  decided-Noted origin (ok none) w n = tt
  decided-Noted origin (err e) w n = absurd (n e refl)

  after_http3-Noted :
      (origin : Origin) (o : Outcome (Option (Result (Option (Response M))))) (cutoff : Option ℕ)
      (w : World Shared (Call M))
      → ((e : Error) → o ≢ done (some (err e)))
      → let r = proceed cutoff (after_http3 http net timer client horizon origin) o w in
        Noted origin r.0 r.1
  unfolding after_http3
  after_http3-Noted origin (done (some r)) cutoff w n =
      decided-Noted origin r w (λ e q. n e (ap (λ x. done (some x)) q))
  after_http3-Noted origin (done none) cutoff w n =
      let recorded =
        remember_failure (settings http net timer client horizon) origin w.clock cutoff w in
      go recorded.0 recorded.1
        ((insert_negative-Sync horizon client.http3_negative_cache_duration origin
            w.clock).same_clock
          cutoff w)
        (insert_negative-Recorded horizon client.http3_negative_cache_duration origin w.clock cutoff
          w)
    where
      go :
          (o' : Outcome Unit) (w' : World Shared (Call M))
          → w'.clock ≡ w.clock
          → Recorded origin (w.clock + client.http3_negative_cache_duration) o' w'
          → let r =
              proceed {A = Unit} {B = Option (Result (Response M))} cutoff
                (λ _. pure (some (err timeout)))
                o'
                w' in
            Noted origin r.0 r.1
      go (done u) w' c h = rw c h
      go cut w' c h = tt
      go hangs w' c h = tt
      go panicked w' c h = tt
  after_http3-Noted origin cut cutoff w n = tt
  after_http3-Noted origin hangs cutoff w n = tt
  after_http3-Noted origin panicked cutoff w n = tt

  bounded_http3-Noted :
      (d : Option ℕ) (origin : Origin) (attempt : H3 M (Result (Option (Response M))))
      (cutoff : Option ℕ) (w : World Shared (Call M))
      → NeverErr attempt
      → let r = bounded_http3 http net timer client horizon d origin attempt cutoff w in
        Noted origin r.0 r.1
  unfolding bounded_http3
  bounded_http3-Noted none origin attempt cutoff w n =
      go (attempt cutoff w).0 (attempt cutoff w).1 (n cutoff w)
    where
      go :
          (o : Outcome (Result (Option (Response M)))) (w' : World Shared (Call M))
          → ((e : Error) → o ≢ done (err e))
          → let r = proceed cutoff (λ r. pure (decided http net timer client horizon r)) o w' in
            Noted origin r.0 r.1
      go (done r) w' k = decided-Noted origin r w' (λ e q. k e (ap done q))
      go cut w' k = tt
      go hangs w' k = tt
      go panicked w' k = tt
  bounded_http3-Noted (some d) origin attempt cutoff w n =
      rw law.timeout_lem (elim (Bool-cases (reaches cutoff (w.clock + d))) [
        | inl e ↦ rw e (
            after_http3-Noted origin _ cutoff _
              (λ x. at_deadline-ne _ x (n (some (w.clock + d)) w x)))
        | inr e ↦ rw e (after_http3-Noted origin _ cutoff _ (λ x. at_cutoff-ne _ x (n cutoff w x)))
      ])

  pub http3_phase-Noted :
      (b : RequestBuilder M) (uri : Uri) (origin : Origin) (body : Option (Option Text))
      (cutoff : Option ℕ) (w : World Shared (Call M))
      → http.builder_error b.method uri ≡ none
      → let r = http3_phase http net timer client horizon b uri (some origin) body cutoff w in
        Noted origin r.0 r.1
  unfolding http3_phase request_for_http3
  http3_phase-Noted b uri origin none cutoff w h = tt
  http3_phase-Noted b uri origin (some body) cutoff w h = elim (Bool-cases client.http3_enabled) [
    | inl on ↦
        rw (on, h)
          (bounded_http3-Noted (or b.timeout client.default_timeout) origin _ cutoff w
            (try_http3-NeverErr net timer (settings http net timer client horizon) _ body origin))
    | inr off ↦ rw off tt
  ]
