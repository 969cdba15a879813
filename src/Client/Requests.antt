-- ===== src/Client/Requests.antt =====
-- src/client.rs: how a client is made without a builder, and how requests are started.
use mechanics_http_client.Text.{Text, codes}
use mechanics_http_client.Error.{Result}
use mechanics_http_client.Http.{Fallible, Rustls, Http}
use mechanics_http_client.Client.{ClientBuilder, Client, build}
use mechanics_http_client.Client
use mechanics_http_client.Request.Builder.{RequestBuilder, new}

module _ {M : Type 0} (http : Http M) where
  -- `Client::builder`, by `ClientBuilder::new`
  unfoldable pub builder : ClientBuilder M
  unfolding Client.new
  builder = Client.new http

  -- `Client::new`
  unfoldable pub new_client : Rustls → Fallible (Unit {0}) → Result (Client M)
  unfolding build builder
  new_client rustls dns = build http rustls dns builder

  -- `Client::request`; the client that the builder keeps is the argument of `send`.
  unfoldable pub request : Text → Text → RequestBuilder M
  unfolding new
  request method url = new http method url

  abbrev pub get : Text → RequestBuilder M
  get = request (codes "GET")

  abbrev pub post : Text → RequestBuilder M
  post = request (codes "POST")

  abbrev pub put : Text → RequestBuilder M
  put = request (codes "PUT")

  abbrev pub patch : Text → RequestBuilder M
  patch = request (codes "PATCH")

  abbrev pub delete : Text → RequestBuilder M
  delete = request (codes "DELETE")

  abbrev pub head : Text → RequestBuilder M
  head = request (codes "HEAD")
