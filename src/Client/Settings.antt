-- ===== src/Client/Settings.antt =====
-- The client that a chain of builder calls comes to.
use mechanics_http_client.Prelude.{
  ◌≡◌, refl, sym, ap, ◌∙◌, true, Option, none, some, List, [], ◌∷◌, arith, or, unwrap_or,
}
use mechanics_http_client.Text.{Text, codes}
use mechanics_http_client.Time.{from_secs}
use mechanics_http_client.Error.{Error, ok, err}
use mechanics_http_client.Tls.{webpki_roots_client_config}
use mechanics_http_client.Http.{Fallible, success, Rustls, Http}
use mechanics_http_client.Client.{
  ClientBuilder, Client, no_state, made, with_user_agent, build, default,
}
use mechanics_http_client.Client.Ops.{
  ClientOp, rejected, first_rejected, sets_timeout, sets_http3, sets_negative, sets_user_agent,
  last_set, apply, chain,
}
use mechanics_http_client.Client.Calls.{
  rejected-apply, timeout-apply, negative-apply, user_agent-apply, http3-apply,
}

or_assoc : {A : Type 0} (a b c : Option A) → or (or a b) c ≡ or a (or b c)
or_assoc none b c = refl
or_assoc (some x) b c = refl

or-none : {A : Type 0} (a : Option A) → or a none ≡ a
or-none none = refl
or-none (some x) = refl

unwrap_or-or :
    {A : Type 0} (x x' : Option A) (y : A) → unwrap_or x (unwrap_or x' y) ≡ unwrap_or (or x x') y
unwrap_or-or none x' y = refl
unwrap_or-or (some a) x' y = refl

-- A provider that supports the default protocol versions, and some roots.
abbrev pub supported : List Text → Rustls
supported roots = record { safe_default_protocol_versions = success tt; tls_server_roots = roots }

module _ {M : Type 0} (http : Http M) where
  rejected-chain :
      (ops : List (ClientOp M)) (b : ClientBuilder M)
      → (chain http ops b).invalid_default_header ≡ or b.invalid_default_header (first_rejected ops)
  rejected-chain [] b = ground arith
  rejected-chain (op ∷ ops) b =
      rejected-chain ops (apply http op b)
      ∙ ap (λ e. or e (first_rejected ops)) (rejected-apply http op b)
      ∙ or_assoc b.invalid_default_header (rejected op) (first_rejected ops)

  -- A field that each call either leaves or sets holds what the last call set, if any.
  field-chain :
      {A B : Type 0} (field_of : ClientBuilder M → B) (sets : ClientOp M → Option A)
      (set : Option A → B → B)
      → ((y : B) → set none y ≡ y)
      → ((x x' : Option A) (y : B) → set x (set x' y) ≡ set (or x x') y)
      → ((op : ClientOp M) (b : ClientBuilder M)
          → field_of (apply http op b) ≡ set (sets op) (field_of b))
      → (ops : List (ClientOp M)) (b : ClientBuilder M)
      → field_of (chain http ops b) ≡ set (last_set sets ops) (field_of b)
  field-chain field_of sets set nothing twice one [] b = sym (nothing (field_of b))
  field-chain field_of sets set nothing twice one (op ∷ ops) b =
      field-chain field_of sets set nothing twice one ops (apply http op b)
      ∙ ap (set (last_set sets ops)) (one op b)
      ∙ twice (last_set sets ops) (sets op) (field_of b)

  option_field-chain :
      {A : Type 0} (field_of : ClientBuilder M → Option A) (sets : ClientOp M → Option A)
      → ((op : ClientOp M) (b : ClientBuilder M)
          → field_of (apply http op b) ≡ or (sets op) (field_of b))
      → (ops : List (ClientOp M)) → field_of (default http) ≡ none
      → field_of (chain http ops (default http)) ≡ last_set sets ops
  option_field-chain field_of sets one ops d =
      field-chain field_of sets or (λ y. refl) (λ x x' y. sym (or_assoc x x' y)) one ops
        (default http)
      ∙ ap (or (last_set sets ops)) d
      ∙ or-none (last_set sets ops)

  build-some :
      (rustls : Rustls) (dns : Fallible Unit) (b : ClientBuilder M) (e : Error)
      → b.invalid_default_header ≡ some e
      → build http rustls dns b ≡ err e
  unfolding build
  build-some rustls dns b e h = rw h refl

  build-none :
      (roots : List Text) (b : ClientBuilder M)
      → b.invalid_default_header ≡ none
      → build http (supported roots) (success tt) b ≡ ok (made http b)
  unfolding build webpki_roots_client_config
  build-none roots b h = rw h refl

  -- A client builder with an invalid header among its calls does not build: `build` gives the error of
  -- the first such call, whatever the setup of TLS and of the resolver come to.
  pub build-rejected :
      (ops : List (ClientOp M)) (e : Error) (rustls : Rustls) (dns : Fallible Unit)
      → first_rejected ops ≡ some e
      → build http rustls dns (chain http ops (default http)) ≡ err e
  unfolding default
  build-rejected ops e rustls dns h =
      build-some rustls dns _ e (rejected-chain ops (default http) ∙ h)

  -- Without an invalid header, and with TLS and the resolver set up, a client is built. Its timeout,
  -- its use of HTTP/3 and the time of its negative cache are what the last call about them set, and
  -- else none, on and five minutes; its caches are empty and it has no endpoint.
  pub build-settings :
      (roots : List Text) (ops : List (ClientOp M))
      → first_rejected ops ≡ none
      → (client : Client M) × (build http
            (supported roots)
            (success tt)
            (chain http ops (default http))
          ≡ ok client)
        × (client.inner.default_timeout ≡ last_set sets_timeout ops)
        × (client.inner.http3_enabled ≡ unwrap_or (last_set sets_http3 ops) true)
        × (client.inner.http3_negative_cache_duration
            ≡ unwrap_or (last_set sets_negative ops) (from_secs 300))
        × (client.shared ≡ no_state)
  unfolding default
  build-settings roots ops h = (
    made http (chain http ops (default http)),
    build-none roots _ (rejected-chain ops (default http) ∙ h),
    option_field-chain (λ b. b.timeout) sets_timeout (timeout-apply http) ops refl,
    field-chain (λ b. b.http3_enabled) sets_http3 unwrap_or (λ y. refl) unwrap_or-or
        (http3-apply http) ops (default http),
    ap (λ o. unwrap_or o (from_secs 300))
        (option_field-chain (λ b. b.http3_negative_cache_duration) sets_negative
          (negative-apply http) ops refl),
    refl,
  )

  -- With a header map whose `insert` is documented, the last valid user agent of the chain is the
  -- value of `user-agent` among the default headers, whatever default headers the chain sets.
  pub build-user_agent :
      ((m : M) (name value : Text) → http.get (http.insert m name value) name ≡ some value)
      → (roots : List Text) (ops : List (ClientOp M)) (ua : Text) → first_rejected ops ≡ none
      → last_set sets_user_agent ops ≡ some ua
      → (client : Client M) × (build http
            (supported roots)
            (success tt)
            (chain http ops (default http))
          ≡ ok client)
        × (http.get client.inner.default_headers (codes "user-agent") ≡ some ua)
  unfolding default
  build-user_agent law roots ops ua h u = (
    made http (chain http ops (default http)),
    build-none roots _ (rejected-chain ops (default http) ∙ h),
    ap
          (λ a.
            http.get (with_user_agent http a (chain http ops (default http)).default_headers)
              (codes "user-agent"))
          (option_field-chain (λ b. b.user_agent) sets_user_agent (user_agent-apply http) ops refl
            ∙ u)
        ∙ law _ (codes "user-agent") ua,
  )
