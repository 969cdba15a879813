-- ===== src/Request/Elapsing/Phases.antt =====
-- `Error::Timeout` and the clock: the HTTP/3 phase under its timeout.
use mechanics_http_client.Prelude.{
  ℕ, ◌+◌, ◌≤◌, ◌≡◌, ◌≢◌, refl, ap, String, ◌++◌, Option, none, some, arith, inl, inr, Bool-cases,
}
use mechanics_http_client.Text.{Text, codes}
use mechanics_http_client.Error.{Error, timeout, Result, ok, err}
use mechanics_http_client.Origin.{Origin, Uri}
use mechanics_http_client.Async.{
  World, Outcome, done, cut, hangs, panicked, Timer, IsTimer, pure, proceed, reaches,
}
use mechanics_http_client.Async.Elapsing.{Elapses, Passed, timeout-none}
use mechanics_http_client.Http.{Parts, Response, Call, ClientInner, Http, Network, Shared}
use mechanics_http_client.Http3.{H3}
use mechanics_http_client.Request.Elapsing.{Elapses-Rules}
use mechanics_http_client.Request.Errors.{NeverErr, at_deadline-ne, at_cutoff-ne}
use mechanics_http_client.Request.Send.{
  settings, map_legacy_error, decided, after_http3, bounded_http3, built,
}
use mechanics_http_client.Request.Walk.Sending.{after_http3-walk}

-- The instant a limit runs out, from an instant on.
abbrev pub deadline : ℕ → Option ℕ → Option ℕ
deadline t none = none
deadline t (some d) = some (t + d)

pub Passed-le :
    (limit : Option ℕ) (t t' clock clock' : ℕ)
    → t ≤ t'
    → clock ≤ clock'
    → Passed (deadline t' limit) clock
    → Passed (deadline t limit) clock'
Passed-le none t t' clock clock' h k p = p
Passed-le (some d) t t' clock clock' h k p = omega arith

pub map_legacy_error-ne_timeout : (message : Text) → map_legacy_error message ≢ timeout
unfolding map_legacy_error
map_legacy_error-ne_timeout message = ground arith

module _ {M : Type 0} (http : Http M) where
  pub built-ne_timeout :
      (prefix : String) (method : Text) (uri : Uri) (headers : M)
      → built http prefix method uri headers ≢ err timeout
  built-ne_timeout prefix method uri headers = by_error (http.builder_error method uri)
    where
      by_error :
          (o : Option Text)
          → ◌≢◌ {A = Result (Parts M)}
              (elim o [
                | none ↦ ok (record { method = method; uri = uri; headers = headers })
                | some e ↦ err (Error.internal (codes prefix ++ e))
              ])
              (err timeout)
      by_error none e = cc
      by_error (some x) e = cc

module _ {M : Type 0} (http : Http M) (net : Network M) (timer : Timer Shared (Call M))
    (law : IsTimer timer) (client : ClientInner M) (horizon : ℕ) where
  timeout-ne_err :
      (d : ℕ) (attempt : H3 M (Result (Option (Response M)))) (cutoff : Option ℕ)
      (w : World Shared (Call M)) (e : Error)
      → NeverErr attempt
      → (timer.timeout d attempt cutoff w).0 ≢ done (some (err e))
  timeout-ne_err d attempt cutoff w e n =
      rw law.timeout_lem (elim (Bool-cases (reaches cutoff (w.clock + d))) [
        | inl h ↦ rw h (at_deadline-ne _ e (n (some (w.clock + d)) w e))
        | inr h ↦ rw h (at_cutoff-ne _ e (n cutoff w e))
      ])

  decided-ne :
      (r : Result (Option (Response M)))
      → ((e : Error) → r ≢ err e)
      → (e : Error) → decided http net timer client horizon r ≢ some (err e)
  decided-ne (ok none) n e x = cc
  decided-ne (ok (some response)) n e x = cc
  decided-ne (err e') n e x = n e' refl

  pub bounded_http3-timeout :
      (limit : Option ℕ) (origin : Origin) (attempt : H3 M (Result (Option (Response M))))
      (cutoff : Option ℕ) (w : World Shared (Call M))
      → NeverErr attempt
      → Elapses attempt
      → (bounded_http3 http net timer client horizon limit origin attempt cutoff w).0
        ≡ done (some (err timeout))
      → Passed
          (deadline w.clock limit)
          (bounded_http3 http net timer client horizon limit origin attempt cutoff w).1.clock
  unfolding bounded_http3 after_http3
  bounded_http3-timeout none origin attempt cutoff w n l =
      go (attempt cutoff w).0 (attempt cutoff w).1 (n cutoff w)
    where
      go :
          (o : Outcome (Result (Option (Response M)))) (w' : World Shared (Call M))
          → ((e : Error) → o ≢ done (err e))
          → (proceed cutoff (λ r. pure (decided http net timer client horizon r)) o w').0
            ≡ done (some (err timeout))
          → ⊥
      go (done r) w' k x = decided-ne r (λ e q. k e (ap done q)) timeout (cc)
      go cut w' k x = cc
      go hangs w' k x = cc
      go panicked w' k x = cc
  bounded_http3-timeout (some d) origin attempt cutoff w n l =
      go (timer.timeout d attempt cutoff w).0 (timer.timeout d attempt cutoff w).1
        (λ e. timeout-ne_err d attempt cutoff w e n) (timeout-none timer law d attempt l cutoff w)
    where
      go :
          (o : Outcome (Option (Result (Option (Response M))))) (w' : World Shared (Call M))
          → ((e : Error) → o ≢ done (some (err e)))
          → (o ≡ done none → w.clock + d ≤ w'.clock)
          → (proceed cutoff (after_http3 http net timer client horizon origin) o w').0
            ≡ done (some (err timeout))
          → w.clock + d
            ≤ (proceed cutoff (after_http3 http net timer client horizon origin) o w').1.clock
      go (done (some r)) w' k late x =
          absurd (decided-ne r (λ e q. k e (ap (λ z. done (some z)) q)) timeout (cc))
      go (done none) w' k late x = omega (
        arith,
        late refl,
        (after_http3-walk http client horizon
              (Elapses-Rules net timer law (settings http net timer client horizon)) origin none
              tt).grows
            cutoff w',
      )
      go cut w' k late x = cc
      go hangs w' k late x = cc
      go panicked w' k late x = cc
