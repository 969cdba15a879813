-- ===== src/Request/Walk/Connection.antt =====
-- The walk through one HTTP/3 request and its connection.
use mechanics_http_client.Prelude.{ℕ, Option, none, some, List, [], ◌∷◌}
use mechanics_http_client.Text.{Text}
use mechanics_http_client.Origin.{Origin}
use mechanics_http_client.Async.{Future, Timer, ◌>>=◌, await}
use mechanics_http_client.Http.{
  Endpoint, Fallible, success, failure, IpAddr, SocketAddr, Parts, Call, lookup_socket_addrs,
  handshake, h3_setup, send_request, send_data, finish, recv_response, Network, Shared,
}
use mechanics_http_client.Http3.{
  H3, Attempt, accepted, refused, try_text, try, h3_connect_timeout, h3_dns_lookup_timeout,
  h3_stream_open_timeout, h3_stream_upload_timeout, first_socket_addr, set_up, shake_hands, dial,
  dial_first, connection, h3_stream_phase, upload, receive, finish_upload, send_body, open_stream,
  request, opened, sender_of,
}
use mechanics_http_client.Request.Fallback.{Settings}
use mechanics_http_client.Request.Walk.{Rules}

module _ {M : Type 0} {net : Network M} {timer : Timer Shared (Call M)} {s : Settings}
    {IsMine : Origin → Type 0} {IsPast : ℕ → Type 0} {P : (A : Type 0) → H3 M A → Type 0}
    (r : Rules net timer s IsMine IsPast P) where
  try_text-walk :
      {A B : Type 0} (x : Fallible A) (f : A → H3 M (Fallible B))
      → ((a : A) → P _ (f a))
      → P _ (try_text x f)
  try_text-walk (success a) f h = h a
  try_text-walk (failure e) f h = r.on_pure (failure e)

  try-walk :
      {A B : Type 0} (x : Attempt A) (f : A → H3 M (Attempt B))
      → ((a : A) → P _ (f a))
      → P _ (try x f)
  try-walk (accepted a) f h = h a
  try-walk (refused e) f h = r.on_pure (refused e)

  bounded-walk :
      {A B : Type 0} (d : ℕ) (call : Call M) (ask : List (Call M) → Future A)
      (f : Option A → H3 M B)
      → ((x : Option A) → P _ (f x))
      → P _ (timer.timeout d (await net.others call ask) >>= f)
  bounded-walk d call ask f h = r.on_bind _ f (r.on_timeout d _ (r.on_await call ask)) h

  first_socket_addr-walk :
      (host : Text) (port : ℕ) (addresses : List IpAddr)
      → P _ (first_socket_addr net timer host port addresses)
  unfolding first_socket_addr
  first_socket_addr-walk host port (ip ∷ rest) = r.on_pure _
  first_socket_addr-walk host port [] =
      bounded-walk h3_dns_lookup_timeout (lookup_socket_addrs host port) _ _ (λ x. r.on_pure _)

  set_up-walk : (quic : ℕ) → P _ (set_up net timer quic)
  unfolding set_up
  set_up-walk quic =
      bounded-walk h3_connect_timeout h3_setup (λ calls. net.h3_setup calls quic) _
        (λ x. r.on_pure _)

  shake_hands-walk :
      (addr : SocketAddr) (host : Text) (c : ℕ) → P _ (shake_hands net timer addr host c)
  unfolding shake_hands
  shake_hands-walk addr host c =
      bounded-walk h3_connect_timeout (handshake addr host) (λ calls. net.handshake calls c) _
        λ x. try_text-walk _ (set_up net timer) set_up-walk

  dial-walk : (e : Endpoint) (host : Text) (addr : SocketAddr) → P _ (dial net timer e host addr)
  unfolding dial
  dial-walk e host addr =
      r.on_bind _ _ (r.on_connecting e addr host)
        λ x. try_text-walk x (shake_hands net timer addr host) (shake_hands-walk addr host)

  dial_first-walk :
      (host : Text) (port : ℕ) (addresses : List IpAddr) (e : Endpoint)
      → P _ (dial_first net timer host port addresses e)
  unfolding dial_first
  dial_first-walk host port addresses e =
      r.on_bind _ _ (first_socket_addr-walk host port addresses)
        λ x. try_text-walk x (dial net timer e host) (dial-walk e host)

  connection-walk :
      (host : Text) (port : ℕ) (addresses : List IpAddr)
      → P _ (connection net timer host port addresses)
  unfolding connection
  connection-walk host port addresses = r.on_bind _ _ r.on_endpoint λ x.
      try_text-walk x (dial_first net timer host port addresses)
        (dial_first-walk host port addresses)

  phase-walk :
      {A : Type 0} (d : ℕ) (call : Call M) (ask : List (Call M) → Future (Fallible A))
      → P _ (h3_stream_phase net timer d (await net.others call ask))
  unfolding h3_stream_phase
  phase-walk d call ask = bounded-walk d call ask _ (λ x. r.on_pure _)

  receive-walk : (stream : ℕ) (u : Unit) → P _ (receive net timer stream u)
  unfolding receive
  receive-walk stream u =
      r.on_bind _ _ (r.on_await recv_response (λ calls. net.recv_response calls stream))
        (λ x. r.on_pure _)

  finish_upload-walk : (stream : ℕ) (u : Unit) → P _ (finish_upload net timer stream u)
  unfolding finish_upload
  finish_upload-walk stream u =
      r.on_bind _ _ (phase-walk h3_stream_upload_timeout finish (λ calls. net.finish calls stream))
        λ x. try-walk x (receive net timer stream) (receive-walk stream)

  upload-walk : (stream : ℕ) (body : Option Text) → P _ (upload net timer stream body)
  upload-walk stream none = r.on_pure _
  upload-walk stream (some bytes) =
      phase-walk h3_stream_upload_timeout (send_data bytes)
        (λ calls. net.send_data calls stream bytes)

  send_body-walk : (body : Option Text) (stream : ℕ) → P _ (send_body net timer body stream)
  unfolding send_body
  send_body-walk body stream =
      r.on_bind _ _ (upload-walk stream body)
        λ x. try-walk x (finish_upload net timer stream) (finish_upload-walk stream)

  open_stream-walk :
      (parts : Parts M) (body : Option Text) (sender : ℕ)
      → P _ (open_stream net timer parts body sender)
  unfolding open_stream
  open_stream-walk parts body sender =
      bounded-walk h3_stream_open_timeout (send_request parts)
        (λ calls. net.send_request calls sender parts) _
        λ x. try-walk (opened x) (send_body net timer body) (send_body-walk body)

  pub request-walk :
      (target : Origin) (host : Text) (addresses : List IpAddr) (parts : Parts M)
      (body : Option Text)
      → P _ (request net timer target host addresses parts body)
  unfolding request
  request-walk target host addresses parts body =
      r.on_bind _ _ (connection-walk host target.port addresses)
        λ x. try-walk (sender_of x) (open_stream net timer parts body) (open_stream-walk parts body)
