-- ===== src/Request/Valid.antt =====
-- `send` of a builder in which nothing is wrong.
use mechanics_http_client.Prelude.{
  ℕ, ◌≡◌, refl, sym, subst, Bool, true, false, Option, none, some, if◌then◌else◌,
}
use mechanics_http_client.Error.{Error, Result, ok, err}
use mechanics_http_client.Origin.{Uri}
use mechanics_http_client.Async.{Timer, pure, panic}
use mechanics_http_client.Http.{Response, Call, ClientInner, Http, Network, Shared}
use mechanics_http_client.Http3.{H3}
use mechanics_http_client.Request.Builder.{RequestBuilder}
use mechanics_http_client.Request.Send.{headers_fit, send_to, merge_and_send, send}

module _ {M : Type 0} (http : Http M) (net : Network M) (timer : Timer Shared (Call M))
    (client : ClientInner M) (horizon : ℕ) where
  -- The headers of the client and of the request fit into one header map.
  abbrev pub HeadersFit : RequestBuilder M → Uri → Type 0
  HeadersFit b uri = headers_fit http b.method uri client.default_headers b.headers ≡ true

  -- What holds of the ends of `send` and of the rest of it holds of `send`.
  pub send-cases {ℓ} :
      (P : H3 M (Result (Response M)) → Type ℓ) (b : RequestBuilder M)
      → ((e : Error) → P (pure (err e)))
      → ((uri : Uri)
          → b.uri ≡ ok uri
          → headers_fit http b.method uri client.default_headers b.headers ≡ false
          → P panic)
      → ((uri : Uri) → b.uri ≡ ok uri → P (send_to http net timer client horizon b uri))
      → P (send http net timer client horizon b)
  unfolding send merge_and_send
  send-cases P b on_error on_full on_rest = by_error b.deferred_error
    where
      by_room :
          (uri : Uri) (fit : Bool)
          → b.uri ≡ ok uri
          → headers_fit http b.method uri client.default_headers b.headers ≡ fit
          → P (if fit then send_to http net timer client horizon b uri else panic)
      by_room uri true u h = on_rest uri u
      by_room uri false u h = on_full uri u h

      by_uri :
          (r : Result Uri)
          → b.uri ≡ r
          → P (elim r [
            | err x ↦ pure (err x)
            | ok u ↦ merge_and_send http net timer client horizon b u
          ])
      by_uri (err x) u = on_error x
      by_uri (ok uri) u = by_room uri _ u refl

      by_error :
          (e : Option Error)
          → P (elim e [
            | some x ↦ pure (err x)
            | none ↦ elim b.uri [
              | err x ↦ pure (err x)
              | ok u ↦ merge_and_send http net timer client horizon b u
            ]
          ])
      by_error (some x) = on_error x
      by_error none = by_uri b.uri refl

  send-merge_and_send :
      (b : RequestBuilder M) (uri : Uri)
      → b.deferred_error ≡ none
      → b.uri ≡ ok uri
      → send http net timer client horizon b ≡ merge_and_send http net timer client horizon b uri
  unfolding send
  send-merge_and_send b uri = go b.deferred_error b.uri
    where
      go :
          (e : Option Error) (r : Result Uri)
          → e ≡ none
          → r ≡ ok uri
          → let m : H3 M (Result (Response M)) = elim e [
            | some x ↦ pure (err x)
            | none ↦ elim r [
              | err x ↦ pure (err x)
              | ok u ↦ merge_and_send http net timer client horizon b u
            ]
          ] in
            m ≡ merge_and_send http net timer client horizon b uri
      go (some x) r p q = cc
      go none r p q = rw q refl

  -- Where the headers may not fit, `send` may panic instead.
  pub send-either {ℓ} :
      (P : H3 M (Result (Response M)) → Type ℓ) (b : RequestBuilder M) (uri : Uri)
      → b.deferred_error ≡ none
      → b.uri ≡ ok uri
      → (headers_fit http b.method uri client.default_headers b.headers ≡ false → P panic)
      → (HeadersFit b uri → P (send_to http net timer client horizon b uri))
      → P (send http net timer client horizon b)
  unfolding merge_and_send
  send-either P b uri d u on_full on_rest =
      subst P (sym (send-merge_and_send b uri d u)) (by_room _ refl)
    where
      by_room :
          (fit : Bool)
          → headers_fit http b.method uri client.default_headers b.headers ≡ fit
          → P (if fit then send_to http net timer client horizon b uri else panic)
      by_room true h = on_rest h
      by_room false h = on_full h

  pub send-send_to :
      (b : RequestBuilder M) (uri : Uri)
      → b.deferred_error ≡ none
      → b.uri ≡ ok uri
      → HeadersFit b uri
      → send http net timer client horizon b ≡ send_to http net timer client horizon b uri
  send-send_to b uri d u fit =
      send-either (λ m. m ≡ send_to http net timer client horizon b uri) b uri d u (λ h. cc)
        λ h. refl
