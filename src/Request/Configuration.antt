-- ===== src/Request/Configuration.antt =====
-- `send` and the configuration of a request: its errors and its headers.
use mechanics_http_client.Prelude.{
  ℕ, ◌≡◌, inl, inr, refl, sym, ap, ◌∙◌, Option, none, some, List, [], ◌∷◌, ◌++◌, append-nil,
  append_assoc, if◌then◌else◌, Bool-cases, or,
}
use mechanics_http_client.Text.{Text, str_eq}
use mechanics_http_client.Error.{Error, Result, ok, err}
use mechanics_http_client.Origin.{Uri}
use mechanics_http_client.Async.{World, done, Timer}
use mechanics_http_client.Http.{Call, ClientInner, Http, Network, Shared}
use mechanics_http_client.Request.Builder.{RequestBuilder, new, checked_uri}
use mechanics_http_client.Request.Builder.Ops.{Op, chain, first_error, deferred-chain, uri-chain}
use mechanics_http_client.Request.Send.{append_all, merged_headers, send}

-- The values of a header among the pairs of a map.
abbrev pub values : Text → List (Text × Text) → List Text
values name [] = []
values name ((n, v) ∷ pairs) = if str_eq n name then v ∷ values name pairs else values name pairs

-- What the client relies on of `http::HeaderMap`: `append` adds a value behind those that the name
-- has, and `iter` yields all of them in order.
pub record IsHeaderMap {M : Type 0} (http : Http M) : Type 0 where
  pub values-empty : (name : Text) → values name (http.iter http.empty) ≡ []
  pub values-append :
      (m : M) (n v name : Text)
      → values name (http.iter (http.append m n v))
        ≡ values name (http.iter m) ++ values name ((n, v) ∷ [])

module _ {M : Type 0} (http : Http M) (law : IsHeaderMap http) where
  values-cons :
      (n v name : Text) (pairs : List (Text × Text))
      → values name ((n, v) ∷ pairs) ≡ values name ((n, v) ∷ []) ++ values name pairs
  values-cons n v name pairs = elim (Bool-cases (str_eq n name)) [
    | inl e ↦ rw e refl
    | inr e ↦ rw e refl
  ]

  values-append_all :
      (name : Text) (pairs : List (Text × Text)) (m : M)
      → values name (http.iter (append_all http m pairs))
        ≡ values name (http.iter m) ++ values name pairs
  unfolding append_all
  values-append_all name [] m = rw append-nil
  values-append_all name ((n, v) ∷ pairs) m =
      values-append_all name pairs (http.append m n v)
      ∙ ap (λ l. l ++ values name pairs) (law.values-append m n v name)
      ∙ append_assoc (values name (http.iter m)) _ _
      ∙ ap (λ l. values name (http.iter m) ++ l) (sym (values-cons n v name pairs))

  -- With a header map that does what is documented, the request carries, of every header, the default
  -- values and then the request's own: neither replaces the other.
  pub values-merged_headers :
      (defaults own : M) (name : Text)
      → values name (http.iter (merged_headers http defaults own))
        ≡ values name (http.iter defaults) ++ values name (http.iter own)
  unfolding merged_headers
  values-merged_headers defaults own name =
      values-append_all name (http.iter own) _
      ∙ ap (λ l. l ++ values name (http.iter own))
          (values-append_all name (http.iter defaults) http.empty
            ∙ ap (λ l. l ++ values name (http.iter defaults)) (law.values-empty name))

abbrev pub uri_error : Result Uri → Option Error
uri_error (ok uri) = none
uri_error (err e) = some e

module _ {M : Type 0} (http : Http M) (net : Network M) (timer : Timer Shared (Call M))
    (client : ClientInner M) (horizon : ℕ) where
  send_deferred :
      (b : RequestBuilder M) (e : Error) (cutoff : Option ℕ) (w : World Shared (Call M))
      → b.deferred_error ≡ some e
      → send http net timer client horizon b cutoff w ≡ (done (err e), w)
  unfolding send
  send_deferred b e cutoff w h = rw h refl

  send_invalid_uri :
      (b : RequestBuilder M) (e : Error) (cutoff : Option ℕ) (w : World Shared (Call M))
      → b.deferred_error ≡ none
      → b.uri ≡ err e
      → send http net timer client horizon b cutoff w ≡ (done (err e), w)
  unfolding send
  send_invalid_uri b e cutoff w h u = rw (h, u) refl

  -- The error that a chain of builder calls on a URL leads to: the first invalid header or body of
  -- the chain, and else what is wrong with the URL.
  abbrev pub configuration_error : List Op → Text → Option Error
  configuration_error ops url =
      or (first_error http ops) (uri_error (checked_uri url (http.parse_uri url)))

  -- Whatever calls configure a request, `send` returns its configuration error, if it has one: the
  -- first invalid header or body of the chain, and else what is wrong with the URL. It then does
  -- nothing else: no call is made, no time passes and no state changes.
  pub send-configuration_error :
      (method url : Text) (ops : List Op) (e : Error) (cutoff : Option ℕ)
      (w : World Shared (Call M))
      → configuration_error ops url ≡ some e
      → send http net timer client horizon (chain http ops (new http method url)) cutoff w
        ≡ (done (err e), w)
  unfolding new
  send-configuration_error method url ops e cutoff w h = by_first (first_error http ops) refl h
    where
      b : RequestBuilder M
      b = chain http ops (new http method url)

      by_uri :
          (u : Result Uri)
          → checked_uri url (http.parse_uri url) ≡ u
          → first_error http ops ≡ none
          → uri_error u ≡ some e
          → send http net timer client horizon b cutoff w ≡ (done (err e), w)
      by_uri (ok uri) q n x = cc
      by_uri (err e') q n x =
          send_invalid_uri b e cutoff w (deferred-chain http ops _ ∙ n)
            (uri-chain http ops _ ∙ q ∙ ap err (cc))

      by_first :
          (o : Option Error)
          → first_error http ops ≡ o
          → or o (uri_error (checked_uri url (http.parse_uri url))) ≡ some e
          → send http net timer client horizon b cutoff w ≡ (done (err e), w)
      by_first (some e') q x = send_deferred b e cutoff w (deferred-chain http ops _ ∙ q ∙ x)
      by_first none q x = by_uri (checked_uri url (http.parse_uri url)) refl q x
