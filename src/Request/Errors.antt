-- ===== src/Request/Errors.antt =====
-- The errors that the HTTP/3 phase of `send` can end in.
use mechanics_http_client.Prelude.{
  ℕ, ◌+◌, ◌≡◌, ◌≢◌, refl, ap, subst, true, false, Option, none, some, inl, inr, Bool-cases, or,
  if◌then◌else◌,
}
use mechanics_http_client.Text.{Text}
use mechanics_http_client.Error.{Error, timeout, Result, ok, err}
use mechanics_http_client.Origin.{Origin, Uri}
use mechanics_http_client.AltSvc.{AltSvcEntry}
use mechanics_http_client.Async.{
  Async, World, Outcome, done, cut, hangs, panicked, Timer, IsTimer, pure, now, proceed, reaches,
  ◌>>=◌, at_deadline, at_cutoff,
}
use mechanics_http_client.Http.{
  HttpsRrEntry, Parts, Response, Call, ClientInner, Http, Network, Shared,
}
use mechanics_http_client.Cache.{negative_cache_hit, alt_svc_entry}
use mechanics_http_client.HttpsRr.{https_rr_entry}
use mechanics_http_client.Http3.{H3}
use mechanics_http_client.Request.Builder.{RequestBuilder}
use mechanics_http_client.Request.Fallback.{
  Settings, remember_failure, Http3RequestTarget, request_http3_with_stale_retry, via_alt_svc,
  via_https_rr, or_https_rr, by_alternatives, try_http3,
}
use mechanics_http_client.Request.Memory.{Accounted, request_http3_with_stale_retry-Accounted}
use mechanics_http_client.Request.Send.{
  settings, bounded_http3, after_http3, http3_phase, request_for_http3, decided,
}

-- No run of `m` comes to an error.
abbrev pub NeverErr : {C A : Type 0} → Async Shared C (Result A) → Type 0
NeverErr {C} m =
    (cutoff : Option ℕ) (w : World Shared C) (e : Error) → (m cutoff w).0 ≢ done (err e)

module _ {C : Type 0} where
  pub NeverErr-bind :
      {A B : Type 0} (m : Async Shared C A) (f : A → Async Shared C (Result B))
      → ((a : A) → NeverErr (f a))
      → NeverErr (m >>= f)
  NeverErr-bind m f h cutoff w e = go (m cutoff w).0 (m cutoff w).1
    where
      go : (o : Outcome _) (w' : World Shared C) → (proceed cutoff f o w').0 ≢ done (err e)
      go (done a) w' = h a cutoff w' e
      go cut w' = λ x. cc
      go hangs w' = λ x. cc
      go panicked w' = λ x. cc

  pub NeverErr-pure : {A : Type 0} (a : A) → NeverErr {C = C} (pure (ok a))
  NeverErr-pure a cutoff w e x = cc

  -- With a first part that never errs, the rest need not pass an error on.
  NeverErr-then :
      {A B : Type 0} (m : Async Shared C (Result A)) (f : Result A → Async Shared C (Result B))
      → NeverErr m
      → ((a : A) → NeverErr (f (ok a)))
      → NeverErr (m >>= f)
  NeverErr-then m f n h cutoff w e = go (m cutoff w).0 (m cutoff w).1 (n cutoff w)
    where
      go :
          (o : Outcome (Result _)) (w' : World Shared C)
          → ((e' : Error) → o ≢ done (err e'))
          → (proceed cutoff f o w').0 ≢ done (err e)
      go (done (ok a)) w' k = h a cutoff w' e
      go (done (err e')) w' k = absurd (k e' refl)
      go cut w' k = λ x. cc
      go hangs w' k = λ x. cc
      go panicked w' k = λ x. cc

  Accounted-ne_err :
      {R : Type 0} (origin : Origin) (t d : ℕ) (o : Outcome (Result (Option R)))
      (w : World Shared C) (e : Error)
      → Accounted origin t d o w
      → o ≢ done (err e)
  Accounted-ne_err origin t d (done (ok (some r))) w e a = λ x. cc
  Accounted-ne_err origin t d (done (ok none)) w e a = λ x. cc
  Accounted-ne_err origin t d (done (err e')) w e a = absurd a
  Accounted-ne_err origin t d cut w e a = λ x. cc
  Accounted-ne_err origin t d hangs w e a = λ x. cc
  Accounted-ne_err origin t d panicked w e a = λ x. cc

module _ {M : Type 0} (net : Network M) (timer : Timer Shared (Call M)) (s : Settings)
    (parts : Parts M) (body : Option Text) where
  retry-NeverErr :
      (target : Http3RequestTarget) (t : ℕ)
      → NeverErr (request_http3_with_stale_retry net timer s target parts body t)
  retry-NeverErr target t cutoff w e =
      Accounted-ne_err target.origin t s.negative_duration _ _ e
        (request_http3_with_stale_retry-Accounted net timer s target parts body t cutoff w)

  via_alt_svc-NeverErr :
      (entry : Option AltSvcEntry) (origin : Origin) (t : ℕ)
      → NeverErr (via_alt_svc net timer s entry origin parts body t)
  unfolding via_alt_svc
  via_alt_svc-NeverErr none origin t = NeverErr-pure none
  via_alt_svc-NeverErr (some entry) origin t = retry-NeverErr _ t

  via_https_rr-NeverErr :
      (entry : Option HttpsRrEntry) (origin : Origin) (t : ℕ)
      → NeverErr (via_https_rr net timer s entry origin parts body t)
  unfolding via_https_rr
  via_https_rr-NeverErr none origin t = NeverErr-pure none
  via_https_rr-NeverErr (some entry) origin t = elim (Bool-cases entry.has_h3) [
    | inl with_h3 ↦ rw with_h3 (retry-NeverErr _ t)
    | inr without ↦ rw without (NeverErr-pure none)
  ]

  or_https_rr-NeverErr :
      (origin : Origin) (t : ℕ) (first : Option (Response M))
      → NeverErr (or_https_rr net timer s origin parts body t (ok first))
  unfolding or_https_rr
  or_https_rr-NeverErr origin t (some response) = NeverErr-pure (some response)
  or_https_rr-NeverErr origin t none =
      NeverErr-bind (https_rr_entry net timer origin t) _
        (λ entry. via_https_rr-NeverErr entry origin t)

  by_alternatives-NeverErr :
      (origin : Origin) (t : ℕ) → NeverErr (by_alternatives net timer s origin parts body t)
  unfolding by_alternatives
  by_alternatives-NeverErr origin t = NeverErr-bind (alt_svc_entry origin t) _ λ entry.
      NeverErr-then (via_alt_svc net timer s entry origin parts body t) _
        (via_alt_svc-NeverErr entry origin t) (or_https_rr-NeverErr origin t)

  pub try_http3-NeverErr : (origin : Origin) → NeverErr (try_http3 net timer s origin parts body)
  unfolding try_http3
  try_http3-NeverErr origin =
      NeverErr-bind now
        (λ t. negative_cache_hit origin t >>= λ hit.
          if hit then pure (ok none) else by_alternatives net timer s origin parts body t)
        λ t. NeverErr-bind (negative_cache_hit origin t) _ λ hit.
          elim hit
            as (λ h.
              NeverErr
                (if h then pure (ok none) else by_alternatives net timer s origin parts body t)) [
                  | true ↦ NeverErr-pure none
                  | false ↦ by_alternatives-NeverErr origin t
                ]

-- An outcome that is no error but the timeout.
abbrev pub OnlyTimeout : {R : Type 0} → Outcome (Option (Result R)) → Type 0
OnlyTimeout (done (some (err e))) = e ≡ timeout
OnlyTimeout _ = Unit

pub at_deadline-ne :
    {R : Type 0} (o : Outcome (Result R)) (e : Error)
    → o ≢ done (err e)
    → at_deadline o ≢ done (some (err e))
at_deadline-ne (done (ok a)) e n x = cc
at_deadline-ne (done (err e')) e n x = n (cc)
at_deadline-ne cut e n x = cc
at_deadline-ne hangs e n x = cc
at_deadline-ne panicked e n x = cc

pub at_cutoff-ne :
    {R : Type 0} (o : Outcome (Result R)) (e : Error)
    → o ≢ done (err e)
    → at_cutoff o ≢ done (some (err e))
at_cutoff-ne (done (ok a)) e n x = cc
at_cutoff-ne (done (err e')) e n x = n (cc)
at_cutoff-ne cut e n x = cc
at_cutoff-ne hangs e n x = cc
at_cutoff-ne panicked e n x = cc

module _ {M : Type 0} (http : Http M) (net : Network M) (timer : Timer Shared (Call M))
    (law : IsTimer timer) (client : ClientInner M) (horizon : ℕ) where
  decided-OnlyTimeout :
      (r : Result (Option (Response M)))
      → ((e : Error) → r ≢ err e)
      → OnlyTimeout (done (decided http net timer client horizon r))
  decided-OnlyTimeout (ok (some response)) n = tt
  decided-OnlyTimeout (ok none) n = tt
  decided-OnlyTimeout (err e) n = absurd (n e refl)

  after_http3-OnlyTimeout :
      (origin : Origin) (o : Outcome (Option (Result (Option (Response M))))) (cutoff : Option ℕ)
      (w : World Shared (Call M))
      → ((e : Error) → o ≢ done (some (err e)))
      → OnlyTimeout (proceed cutoff (after_http3 http net timer client horizon origin) o w).0
  unfolding after_http3
  after_http3-OnlyTimeout origin (done (some r)) cutoff w n =
      decided-OnlyTimeout r (λ e q. n e (ap (λ x. done (some x)) q))
  after_http3-OnlyTimeout origin (done none) cutoff w n =
      go (remember_failure (settings http net timer client horizon) origin w.clock cutoff w).0
        (remember_failure (settings http net timer client horizon) origin w.clock cutoff w).1
    where
      go :
          (o' : Outcome Unit) (w' : World Shared (Call M))
          → OnlyTimeout {R = Response M}
              (proceed {A = Unit} cutoff (λ _. pure (some (err timeout))) o' w').0
      go (done u) w' = refl
      go cut w' = tt
      go hangs w' = tt
      go panicked w' = tt
  after_http3-OnlyTimeout origin cut cutoff w n = tt
  after_http3-OnlyTimeout origin hangs cutoff w n = tt
  after_http3-OnlyTimeout origin panicked cutoff w n = tt

  bounded_http3-OnlyTimeout :
      (d : Option ℕ) (origin : Origin) (attempt : H3 M (Result (Option (Response M))))
      (cutoff : Option ℕ) (w : World Shared (Call M))
      → NeverErr attempt
      → OnlyTimeout (bounded_http3 http net timer client horizon d origin attempt cutoff w).0
  unfolding bounded_http3
  bounded_http3-OnlyTimeout none origin attempt cutoff w n =
      go (attempt cutoff w).0 (attempt cutoff w).1 (n cutoff w)
    where
      go :
          (o : Outcome (Result (Option (Response M)))) (w' : World Shared (Call M))
          → ((e : Error) → o ≢ done (err e))
          → OnlyTimeout
              (proceed cutoff (λ r. pure (decided http net timer client horizon r)) o w').0
      go (done r) w' k = decided-OnlyTimeout r (λ e q. k e (ap done q))
      go cut w' k = tt
      go hangs w' k = tt
      go panicked w' k = tt
  bounded_http3-OnlyTimeout (some d) origin attempt cutoff w n =
      rw law.timeout_lem (elim (Bool-cases (reaches cutoff (w.clock + d))) [
        | inl e ↦ rw e (
            after_http3-OnlyTimeout origin _ cutoff _
              (λ x. at_deadline-ne _ x (n (some (w.clock + d)) w x)))
        | inr e ↦
            rw e (after_http3-OnlyTimeout origin _ cutoff _ (λ x. at_cutoff-ne _ x (n cutoff w x)))
      ])

  http3_phase-OnlyTimeout :
      (b : RequestBuilder M) (uri : Uri) (origin : Option Origin) (body : Option (Option Text))
      (cutoff : Option ℕ) (w : World Shared (Call M))
      → http.builder_error b.method uri ≡ none
      → OnlyTimeout (http3_phase http net timer client horizon b uri origin body cutoff w).0
  unfolding http3_phase request_for_http3
  http3_phase-OnlyTimeout b uri none body cutoff w h = tt
  http3_phase-OnlyTimeout b uri (some origin) none cutoff w h = tt
  http3_phase-OnlyTimeout b uri (some origin) (some body) cutoff w h =
      elim (Bool-cases client.http3_enabled) [
        | inl on ↦
            rw (on, h)
              (bounded_http3-OnlyTimeout (or b.timeout client.default_timeout) origin _ cutoff w (
                try_http3-NeverErr net timer (settings http net timer client horizon) _ body
                  origin))
        | inr off ↦ rw off tt
      ]

  -- With a timer that does what is documented, and a request that can be built: if the HTTP/3 phase
  -- ends `send` with an error, the error is the timeout. It does not return an error of name
  -- resolution, of the QUIC handshake or of HTTP/3.
  pub http3_phase_error :
      (b : RequestBuilder M) (uri : Uri) (origin : Option Origin) (body : Option (Option Text))
      (e : Error) (cutoff : Option ℕ) (w : World Shared (Call M))
      → http.builder_error b.method uri ≡ none
      → (http3_phase http net timer client horizon b uri origin body cutoff w).0
        ≡ done (some (err e))
      → e ≡ timeout
  http3_phase_error b uri origin body e cutoff w h x =
      subst OnlyTimeout x (http3_phase-OnlyTimeout b uri origin body cutoff w h)
