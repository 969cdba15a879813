-- ===== src/Http3/Serving.antt =====
-- An HTTP/3 attempt at a server that answers.
pub mod Phases
pub mod Stream
use mechanics_http_client.Prelude.{
  ℕ, ◌+◌, ◌≤◌, ◌≡◌, refl, ap, Bool, true, false, Option, none, some, List, [], ◌∷◌, ◌++◌, arith,
  if◌then◌else◌,
}
use mechanics_http_client.Text.{Text, codes, decimal}
use mechanics_http_client.Time.{from_millis}
use mechanics_http_client.Origin.{Origin}
use mechanics_http_client.Async.{Async, Future, done, World, Timer, IsTimer, pure, ◌>>=◌, await}
use mechanics_http_client.Async.Giving.{
  Gives, Ready, InTime, Gives-pure, Gives-le, Gives-bind, Gives-after, Gives-await, Gives-timeout,
}
use mechanics_http_client.Http.{
  Fallible, success, failure, IpAddr, SocketAddr, Parts, Response, Call, lookup_socket_addrs,
  handshake, h3_setup, send_request, send_data, finish, recv_response, Shared, Network,
}
use mechanics_http_client.Http3.{
  H3, Attempt, accepted, refused, try_text, try, flatten, sender_of, opened, h3_connect_timeout,
  h3_dns_lookup_timeout, h3_stream_open_timeout, h3_stream_upload_timeout, first_socket_addr,
  endpoint, connecting, set_up, shake_hands, dial, dial_first, connection, h3_stream_phase, upload,
  receive, finish_upload, send_body, open_stream, request,
}
use mechanics_http_client.Http.{Endpoint}
use mechanics_http_client.Http3.Quic.{new_endpoint}

abbrev pub IsSuccess : {A : Type 0} → Fallible A → Type 0
IsSuccess (success a) = Unit
IsSuccess (failure e) = ⊥

abbrev pub IsAccepted : {A : Type 0} → Attempt A → Type 0
IsAccepted (accepted a) = Unit
IsAccepted (refused e) = ⊥

-- Some address was found.
abbrev pub IsFound : Fallible (List SocketAddr) → Type 0
IsFound (success (a ∷ addrs)) = Unit
IsFound (success []) = ⊥
IsFound (failure e) = ⊥

abbrev pub Responds : {M : Type 0} → Response M → Fallible (Response M) → Type 0
Responds response (success r) = r ≡ response
Responds response (failure e) = ⊥

-- Whatever calls were made, names resolve, QUIC and HTTP/3 come up and take the request, each within the
-- client's limit for it, and the response follows within `wait`.
pub record Serves {M : Type 0} (net : Network M) (response : Response M) (wait : ℕ) : Type 0 where
  pub endpoint_made :
      (calls : List (Call M)) → IsSuccess (new_endpoint (net.quinn calls) net.rustls)
  pub resolves :
      (calls : List (Call M)) (host : Text) (port : ℕ)
      → Ready IsFound h3_dns_lookup_timeout (net.lookup_socket_addrs calls host port)
  pub connects :
      (calls : List (Call M)) (e : Endpoint) (addr : SocketAddr) (host : Text)
      → IsSuccess (net.connect calls e addr host)
  pub shakes_hands :
      (calls : List (Call M)) (c : ℕ) → Ready IsSuccess h3_connect_timeout (net.handshake calls c)
  pub sets_up :
      (calls : List (Call M)) (quic : ℕ)
      → Ready IsSuccess h3_connect_timeout (net.h3_setup calls quic)
  pub opens :
      (calls : List (Call M)) (sender : ℕ) (parts : Parts M)
      → Ready IsSuccess h3_stream_open_timeout (net.send_request calls sender parts)
  pub takes_data :
      (calls : List (Call M)) (stream : ℕ) (bytes : Text)
      → Ready IsSuccess h3_stream_upload_timeout (net.send_data calls stream bytes)
  pub takes_end :
      (calls : List (Call M)) (stream : ℕ)
      → Ready IsSuccess h3_stream_upload_timeout (net.finish calls stream)
  pub responds :
      (calls : List (Call M)) (stream : ℕ)
      → Ready (Responds response) wait (net.recv_response calls stream)

-- The longest that an attempt takes before the response.
abbrev pub h3_request_time : ℕ
h3_request_time = from_millis 2300
