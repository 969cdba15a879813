-- ===== src/Request/Memory.antt =====
-- What the HTTP/3 attempts leave in the negative cache.
use mechanics_http_client.Prelude.{ℕ, zero, suc, ◌+◌, ◌≡◌, ◌⊎◌, inl, inr, true, Option, none, some}
use mechanics_http_client.Text.{Text}
use mechanics_http_client.Error.{Result, ok, err}
use mechanics_http_client.Origin.{Origin}
use mechanics_http_client.Async.{Outcome, done, cut, hangs, panicked, World, Timer, proceed, pure}
use mechanics_http_client.Http.{Parts, Response, Call, Network, Shared}
use mechanics_http_client.Cache.Negative.{Remembers, Recorded, insert_negative-Recorded}
use mechanics_http_client.Cache.Effects.{insert_negative-Sync}
use mechanics_http_client.Http3.{
  H3, Attempt, accepted, refused, handshake_failed, stream_failed, request,
}
use mechanics_http_client.Request.Fallback.{
  arm, drop_guard, leave, unwound, guarded, Settings, remember_failure, Http3RequestTarget, give_up,
  after_attempt, attempts, H3StreamFailureAction, h3_stream_failure_action, retry_fresh_h3, use_tcp,
  request_http3_with_stale_retry,
}

-- The state after `request_http3_with_stale_retry`, which was given the instant `t`: it comes back
-- without a response only with the failure remembered from `t`, never with an error; dropped while
-- it waits, it has the failure remembered from the instant of the drop. Where recording a failure
-- panicked, the negative cache is poisoned.
abbrev pub Accounted :
    {R C : Type 0} → Origin → ℕ → ℕ → Outcome (Result (Option R)) → World Shared C → Type 0
Accounted origin t duration (done (ok (some response))) w = Unit
Accounted origin t duration (done (ok none)) w = Remembers origin (t + duration) w.shared
Accounted origin t duration (done (err e)) w = ⊥
Accounted origin t duration cut w = Remembers origin (w.clock + duration) w.shared
Accounted origin t duration hangs w = Unit
Accounted origin t duration panicked w =
    (w.shared.negative_cache.poisoned ≡ true) ⊎ Remembers origin (w.clock + duration) w.shared

-- The state after a guarded call that did not return.
abbrev Guarded : {A C : Type 0} → Origin → ℕ → Outcome A → World Shared C → Type 0
Guarded origin duration (done a) w = Unit
Guarded origin duration cut w = Remembers origin (w.clock + duration) w.shared
Guarded origin duration hangs w = Unit
Guarded origin duration panicked w =
    (w.shared.negative_cache.poisoned ≡ true) ⊎ Remembers origin (w.clock + duration) w.shared

module _ {C : Type 0} (s : Settings) (origin : Origin) where
  cut-Guarded :
      (A : Type 0) (o : Outcome Unit) (w : World Shared C)
      → Recorded origin (w.clock + s.negative_duration) o w
      → Guarded {A = A} origin s.negative_duration (unwound cut o) w
  cut-Guarded A (done u) w h = h
  cut-Guarded A cut w h = absurd h
  cut-Guarded A hangs w h = absurd h
  cut-Guarded A panicked w h = inl h

  panicked-Guarded :
      (A : Type 0) (o : Outcome Unit) (w : World Shared C)
      → Recorded origin (w.clock + s.negative_duration) o w
      → Guarded {A = A} origin s.negative_duration (unwound panicked o) w
  panicked-Guarded A (done u) w h = inr h
  panicked-Guarded A cut w h = absurd h
  panicked-Guarded A hangs w h = absurd h
  panicked-Guarded A panicked w h = inl h

  -- The guard records the failure at the clock that the dropped call has stopped at.
  dropped :
      (cutoff : Option ℕ) (w : World Shared C)
      → let r = remember_failure s origin w.clock cutoff w in
        Recorded origin (r.1.clock + s.negative_duration) r.0 r.1
  dropped cutoff w =
      rw ((insert_negative-Sync s.horizon s.negative_duration origin w.clock).same_clock cutoff w)
        (insert_negative-Recorded s.horizon s.negative_duration origin w.clock cutoff w)

  leave-Guarded :
      {A : Type 0} (cutoff : Option ℕ) (o : Outcome A) (w : World Shared C)
      → let r = leave s (arm origin) cutoff o w in Guarded origin s.negative_duration r.0 r.1
  unfolding drop_guard
  leave-Guarded {A} cutoff (done a) w = tt
  leave-Guarded {A} cutoff cut w = cut-Guarded A _ _ (dropped cutoff w)
  leave-Guarded {A} cutoff hangs w = tt
  leave-Guarded {A} cutoff panicked w = panicked-Guarded A _ _ (dropped cutoff w)

module _ {M : Type 0} (net : Network M) (timer : Timer Shared (Call M)) (s : Settings) where
  give_up-Accounted :
      (origin : Origin) (t : ℕ) (cutoff : Option ℕ) (w : World Shared (Call M))
      → let r = give_up net timer s origin t cutoff w in
        Accounted origin t s.negative_duration r.0 r.1
  give_up-Accounted origin t cutoff w =
      go (remember_failure s origin t cutoff w).0 (remember_failure s origin t cutoff w).1
        (insert_negative-Recorded s.horizon s.negative_duration origin t cutoff w)
    where
      go :
          (o : Outcome Unit) (w' : World Shared (Call M))
          → Recorded origin (t + s.negative_duration) o w'
          → let r =
              proceed {A = Unit} {B = Result (Option (Response M))} cutoff
                (λ _. pure (ok none))
                o
                w' in
            Accounted origin t s.negative_duration r.0 r.1
      go (done u) w' h = h
      go cut w' h = absurd h
      go hangs w' h = absurd h
      go panicked w' h = inl h

  after_attempt-Accounted :
      (again : H3 M (Result (Option (Response M)))) (origin : Origin) (t attempt : ℕ)
      (result : Attempt (Response M)) (cutoff : Option ℕ) (w : World Shared (Call M))
      → ((v : World Shared (Call M))
          → let r = again cutoff v in Accounted origin t s.negative_duration r.0 r.1)
      → let r = after_attempt net timer s again origin t attempt result cutoff w in
        Accounted origin t s.negative_duration r.0 r.1
  unfolding after_attempt
  after_attempt-Accounted again origin t attempt (accepted x) cutoff w h = tt
  after_attempt-Accounted again origin t attempt (refused (handshake_failed x)) cutoff w h =
      give_up-Accounted origin t cutoff w
  after_attempt-Accounted again origin t attempt (refused (stream_failed x)) cutoff w h =
      next (h3_stream_failure_action x attempt)
    where
      next :
          (action : H3StreamFailureAction)
          → let r : H3 M (Result (Option (Response M))) = elim action [
            | retry_fresh_h3 ↦ again
            | use_tcp ↦ give_up net timer s origin t
          ] in
            Accounted origin t s.negative_duration (r cutoff w).0 (r cutoff w).1
      next retry_fresh_h3 = h w
      next use_tcp = give_up-Accounted origin t cutoff w

  attempts-Accounted :
      (rounds attempt : ℕ) (target : Http3RequestTarget) (parts : Parts M) (body : Option Text)
      (t : ℕ) (cutoff : Option ℕ) (w : World Shared (Call M))
      → let r = attempts net timer s rounds attempt target parts body t cutoff w in
        Accounted target.origin t s.negative_duration r.0 r.1
  unfolding attempts
  attempts-Accounted zero attempt target parts body t cutoff w =
      give_up-Accounted target.origin t cutoff w
  attempts-Accounted (suc rounds) attempt target parts body t cutoff w =
      go (guarded s target.origin attempted cutoff w).0
        (guarded s target.origin attempted cutoff w).1
        (leave-Guarded s target.origin cutoff (attempted cutoff w).0 (attempted cutoff w).1)
        (λ v. attempts-Accounted rounds (attempt + 1) target parts body t cutoff v)
    where
      attempted : H3 M (Attempt (Response M))
      attempted = request net timer target.target target.authority_host target.addresses parts body

      go :
          (o : Outcome (Attempt (Response M))) (w' : World Shared (Call M))
          → Guarded target.origin s.negative_duration o w'
          → ((v : World Shared (Call M))
              → let r = attempts net timer s rounds (attempt + 1) target parts body t cutoff v in
                Accounted target.origin t s.negative_duration r.0 r.1)
          → let r =
              proceed cutoff
                (after_attempt net timer s
                  (attempts net timer s rounds (attempt + 1) target parts body t)
                  target.origin
                  t
                  attempt)
                o
                w' in
            Accounted target.origin t s.negative_duration r.0 r.1
      go (done result) w' g ih =
          after_attempt-Accounted _ target.origin t attempt result cutoff w' ih
      go cut w' g ih = g
      go hangs w' g ih = tt
      go panicked w' g ih = g

  -- However the network behaves and whenever the future is dropped, the attempts over HTTP/3 at one
  -- target account for their failure: without a response the origin is in the negative cache and
  -- its `Alt-Svc` entry is gone, unless a lock is poisoned, and they never end in an error.
  pub request_http3_with_stale_retry-Accounted :
      (target : Http3RequestTarget) (parts : Parts M) (body : Option Text) (t : ℕ)
      (cutoff : Option ℕ) (w : World Shared (Call M))
      → let r = request_http3_with_stale_retry net timer s target parts body t cutoff w in
        Accounted target.origin t s.negative_duration r.0 r.1
  unfolding request_http3_with_stale_retry
  request_http3_with_stale_retry-Accounted target parts body t =
      attempts-Accounted 2 0 target parts body t
