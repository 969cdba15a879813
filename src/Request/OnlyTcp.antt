-- ===== src/Request/OnlyTcp.antt =====
-- The requests that `send` keeps away from HTTP/3.
use mechanics_http_client.Prelude.{
  subst, false, ℕ, ◌≤◌, ◌≡◌, ◌⊎◌, inl, inr, refl, Bool, true, false, Option, none, some, arith,
}
use mechanics_http_client.Text.{Text}
use mechanics_http_client.Error.{ok}
use mechanics_http_client.Origin.{Origin, Uri, from_uri}
use mechanics_http_client.Async.{World, Timer, IsTimer, pure}
use mechanics_http_client.Async.Spends.{total}
use mechanics_http_client.Http.{Call, tcp_request, ClientInner, Http, Network, Shared}
use mechanics_http_client.Request.Builder.{
  RequestBuilder, RequestPayload, replayable, streaming, empty, replayable_for_h3,
}
use mechanics_http_client.Request.Calls.Tcp.{after_phase-Spends}
use mechanics_http_client.Request.Valid.{send-cases}
use mechanics_http_client.Request.Send.{http3_phase, send_to, send}

-- Every call but a request over TCP.
abbrev pub other_calls : {M : Type 0} → Call M → ℕ
other_calls (tcp_request parts body) = 0
other_calls _ = 1

abbrev is_streaming : RequestPayload → Bool
is_streaming (streaming body) = true
is_streaming _ = false

module _ {M : Type 0} (http : Http M) (net : Network M) (timer : Timer Shared (Call M))
    (law : IsTimer timer) (client : ClientInner M) (horizon : ℕ) where
  -- What keeps a request to a URL away from HTTP/3.
  abbrev pub TcpOnly : RequestBuilder M → Uri → Type 0
  TcpOnly b uri =
      (client.http3_enabled ≡ false) ⊎ ((from_uri uri ≡ none) ⊎ (is_streaming b.body ≡ true))

  http3_phase_disabled :
      (b : RequestBuilder M) (uri : Uri) (origin : Option Origin) (body : Option (Option Text))
      → client.http3_enabled ≡ false
      → http3_phase http net timer client horizon b uri origin body ≡ pure none
  unfolding http3_phase
  http3_phase_disabled b uri none body h = refl
  http3_phase_disabled b uri (some origin) none h = refl
  http3_phase_disabled b uri (some origin) (some body) h = rw h refl

  not_replayable :
      (body : RequestPayload) → is_streaming body ≡ true → replayable_for_h3 body ≡ none
  unfolding replayable_for_h3
  not_replayable empty h = cc
  not_replayable (replayable bytes) h = cc
  not_replayable (streaming body) h = refl

  http3_phase_streaming :
      (b : RequestBuilder M) (uri : Uri) (origin : Option Origin)
      → http3_phase http net timer client horizon b uri origin none ≡ pure none
  unfolding http3_phase
  http3_phase_streaming b uri none = refl
  http3_phase_streaming b uri (some origin) = refl

  http3_phase_no_origin :
      (b : RequestBuilder M) (uri : Uri) (origin : Option Origin) (body : Option (Option Text))
      → origin ≡ none
      → http3_phase http net timer client horizon b uri origin body ≡ pure none
  unfolding http3_phase
  http3_phase_no_origin b uri none body h = refl
  http3_phase_no_origin b uri (some origin) body h = cc

  pub http3_phase_tcp :
      (b : RequestBuilder M) (uri : Uri)
      → TcpOnly b uri
      → http3_phase http net timer client horizon b uri (from_uri uri) (replayable_for_h3 b.body)
        ≡ pure none
  http3_phase_tcp b uri (inl off) = http3_phase_disabled b uri _ _ off
  http3_phase_tcp b uri (inr (inl n)) = http3_phase_no_origin b uri _ _ n
  http3_phase_tcp b uri (inr (inr stream)) =
      rw (not_replayable b.body stream) (http3_phase_streaming b uri (from_uri uri))

  -- With a timer that does what is documented, a request to a URL that parsed goes over TCP alone
  -- when HTTP/3 is off, when the URL is not of the scheme `https` with a host, or when the body is
  -- streaming: `send` makes no call to name resolution, QUIC or HTTP/3, whatever is cached.
  pub send_only_tcp :
      (b : RequestBuilder M) (uri : Uri) (cutoff : Option ℕ) (w : World Shared (Call M))
      → b.uri ≡ ok uri
      → TcpOnly b uri
      → total other_calls (send http net timer client horizon b cutoff w).1.trace
        ≤ total other_calls w.trace
  unfolding send_to
  send_only_tcp b uri cutoff w u h =
      send-cases http net timer client horizon
        (λ m. total other_calls (m cutoff w).1.trace ≤ total other_calls w.trace) b
        (λ e. omega arith) (λ uri' u' full. omega arith)
        (λ uri' u'.
          subst
            (λ x.
              total other_calls (send_to http net timer client horizon b x cutoff w).1.trace
              ≤ total other_calls w.trace)
            (let e : ok uri ≡ ok uri' = cc in cc) sent)
    where
      sent :
          total other_calls (send_to http net timer client horizon b uri cutoff w).1.trace
          ≤ total other_calls w.trace
      sent = rw (http3_phase_tcp b uri h) (
          omega (
            arith,
            (after_phase-Spends http net timer law client horizon {cost = other_calls} {j = 0}
                  (λ parts body. omega arith) b uri none).spends
                cutoff w,
          ))
