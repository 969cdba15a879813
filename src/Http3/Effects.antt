-- ===== src/Http3/Effects.antt =====
-- Calls and time of one HTTP/3 attempt.
use mechanics_http_client.Prelude.{ℕ, ◌+◌, ◌≤◌, ◌≡◌, refl, Option, none, some, List, [], ◌∷◌, arith}
use mechanics_http_client.Text.{Text}
use mechanics_http_client.Origin.{Origin}
use mechanics_http_client.Async.{Future, Timer, IsTimer, await}
use mechanics_http_client.Async.Spends.{
  Spends, Spends-pure, Spends-bind, Spends-le, Spends-await, Spends-timeout,
}
use mechanics_http_client.Async.Timing.{Obeys, Obeys-pure, Lasts, Lasts-pure, Lasts-le}
use mechanics_http_client.Async.Sync.{Sync, Sync-Spends}
use mechanics_http_client.Http.{
  Endpoint, Fallible, success, failure, IpAddr, SocketAddr, Parts, Call, lookup_socket_addrs,
  handshake, h3_setup, send_request, send_data, finish, recv_response, Shared, Network,
}
use mechanics_http_client.Http3.{
  H3, Attempt, accepted, refused, try_text, try, h3_connect_timeout, h3_dns_lookup_timeout,
  h3_stream_upload_timeout, first_socket_addr, endpoint, connecting, set_up, shake_hands, dial,
  dial_first, connection, h3_stream_phase, upload, receive, finish_upload, send_body, open_stream,
  request,
}

-- A cost of calls by which the request itself costs `k`, and what prepares it nothing.
pub record Requests {M : Type 0} (cost : Call M → ℕ) (k : ℕ) : Type 0 where
  pub free_https : (host : Text) → cost (Call.lookup_https host) ≡ 0
  pub free_socket : (host : Text) (port : ℕ) → cost (lookup_socket_addrs host port) ≡ 0
  pub free_handshake : (a : SocketAddr) (host : Text) → cost (handshake a host) ≡ 0
  pub free_setup : cost h3_setup ≡ 0
  pub request_cost : (parts : Parts M) → cost (send_request parts) ≤ k
  pub free_data : (bytes : Text) → cost (send_data bytes) ≡ 0
  pub free_finish : cost finish ≡ 0
  pub free_response : cost recv_response ≡ 0

module _ {M : Type 0} (net : Network M) (timer : Timer Shared (Call M)) where
  pub endpoint-Sync : Sync (endpoint net timer)
  unfolding endpoint
  endpoint-Sync = record {
    same_trace = λ cutoff w. ground arith;
    same_clock = λ cutoff w. ground arith;
    ends = λ cutoff w. ground arith;
    uncut = λ cutoff w. ground arith;
  }

  pub connecting-Sync :
      (e : Endpoint) (a : SocketAddr) (host : Text) → Sync (connecting net timer e a host)
  connecting-Sync e a host = record {
    same_trace = λ cutoff w. refl;
    same_clock = λ cutoff w. refl;
    ends = λ cutoff w x. cc;
    uncut = λ cutoff w x. cc;
  }

module _ {M : Type 0} {cost : Call M → ℕ} {A B : Type 0} (k : ℕ) where
  Spends-try_text :
      (r : Fallible A) (f : A → H3 M (Fallible B))
      → ((a : A) → Spends cost k (f a))
      → Spends cost k (try_text r f)
  Spends-try_text (success a) f s = s a
  Spends-try_text (failure e) f s = Spends-le 0 k (Spends-pure _) (omega arith)

  Spends-try :
      (r : Attempt A) (f : A → H3 M (Attempt B))
      → ((a : A) → Spends cost k (f a))
      → Spends cost k (try r f)
  Spends-try (accepted a) f s = s a
  Spends-try (refused e) f s = Spends-le 0 k (Spends-pure _) (omega arith)

module _ {M : Type 0} {A B : Type 0} (k : ℕ) where
  pub Lasts-try_text :
      (r : Fallible A) (f : A → H3 M (Fallible B))
      → ((a : A) → Lasts k (f a))
      → Lasts k (try_text r f)
  Lasts-try_text (success a) f s = s a
  Lasts-try_text (failure e) f s = Lasts-le 0 k (Lasts-pure _) (omega arith)

module _ {M : Type 0} {A B : Type 0} where
  pub Obeys-try :
      (r : Attempt A) (f : A → H3 M (Attempt B)) → ((a : A) → Obeys (f a)) → Obeys (try r f)
  Obeys-try (accepted a) f s = s a
  Obeys-try (refused e) f s = Obeys-pure _

module _ {M : Type 0} (net : Network M) (timer : Timer Shared (Call M)) (law : IsTimer timer) where
  module _ {cost : Call M → ℕ} {k : ℕ} (r : Requests cost k) where
    -- A bounded call that costs nothing.
    free_call :
        {A : Type 0} (d : ℕ) (call : Call M) (ask : List (Call M) → Future A)
        → cost call ≡ 0
        → Spends cost 0 (timer.timeout d (await net.others call ask))
    free_call d call ask h =
        Spends-timeout timer 0 d _ law (Spends-await 0 net.others call ask (omega arith))

    first_socket_addr-Spends :
        (host : Text) (port : ℕ) (addresses : List IpAddr)
        → Spends cost 0 (first_socket_addr net timer host port addresses)
    unfolding first_socket_addr
    first_socket_addr-Spends host port (ip ∷ rest) = Spends-pure _
    first_socket_addr-Spends host port [] =
        Spends-bind 0 0 _ _
          (free_call h3_dns_lookup_timeout (lookup_socket_addrs host port) _
            (r.free_socket host port))
          (λ x. Spends-pure _)

    set_up-Spends : (quic : ℕ) → Spends cost 0 (set_up net timer quic)
    unfolding set_up
    set_up-Spends quic =
        Spends-bind 0 0 _ _
          (free_call h3_connect_timeout h3_setup (λ calls. net.h3_setup calls quic) r.free_setup)
          (λ built. Spends-pure _)

    shake_hands-Spends :
        (addr : SocketAddr) (host : Text) (c : ℕ)
        → Spends cost 0 (shake_hands net timer addr host c)
    unfolding shake_hands
    shake_hands-Spends addr host c =
        Spends-bind 0 0 _ _
          (free_call h3_connect_timeout (handshake addr host) (λ calls. net.handshake calls c)
            (r.free_handshake addr host))
          (λ connected. Spends-try_text 0 _ (set_up net timer) set_up-Spends)

    dial-Spends :
        (e : Endpoint) (host : Text) (addr : SocketAddr)
        → Spends cost 0 (dial net timer e host addr)
    unfolding dial
    dial-Spends e host addr =
        Spends-bind 0 0 _ _ (Sync-Spends (connecting-Sync net timer e addr host) cost)
          (λ started. Spends-try_text 0 started _ (shake_hands-Spends addr host))

    connection-Spends :
        (host : Text) (port : ℕ) (addresses : List IpAddr)
        → Spends cost 0 (connection net timer host port addresses)
    unfolding connection dial_first
    connection-Spends host port addresses =
        Spends-bind 0 0 _ _ (Sync-Spends (endpoint-Sync net timer) cost) (λ made.
          Spends-try_text 0 made _ (λ e.
            Spends-bind 0 0 _ _ (first_socket_addr-Spends host port addresses)
              (λ found. Spends-try_text 0 found _ (dial-Spends e host))))

    h3_stream_phase-Spends :
        {A : Type 0} (d : ℕ) (call : Call M) (ask : List (Call M) → Future (Fallible A))
        → cost call ≡ 0
        → Spends cost 0 (h3_stream_phase net timer d (await net.others call ask))
    unfolding h3_stream_phase
    h3_stream_phase-Spends d call ask h =
        Spends-bind 0 0 _ _ (free_call d call ask h) (λ x. Spends-pure _)

    upload-Spends : (stream : ℕ) (body : Option Text) → Spends cost 0 (upload net timer stream body)
    upload-Spends stream none = Spends-pure _
    upload-Spends stream (some bytes) =
        h3_stream_phase-Spends h3_stream_upload_timeout (send_data bytes) _ (r.free_data bytes)

    receive-Spends : (stream : ℕ) (u : Unit) → Spends cost 0 (receive net timer stream u)
    unfolding receive
    receive-Spends stream u =
        Spends-bind 0 0 _ _
          (Spends-await 0 net.others recv_response _ (omega (arith, r.free_response)))
          (λ response. Spends-pure _)

    finish_upload-Spends :
        (stream : ℕ) (u : Unit) → Spends cost 0 (finish_upload net timer stream u)
    unfolding finish_upload
    finish_upload-Spends stream u =
        Spends-bind 0 0 _ _
          (h3_stream_phase-Spends h3_stream_upload_timeout finish (λ calls. net.finish calls stream)
            r.free_finish)
          (λ finished. Spends-try 0 finished _ (receive-Spends stream))

    send_body-Spends :
        (body : Option Text) (stream : ℕ) → Spends cost 0 (send_body net timer body stream)
    unfolding send_body
    send_body-Spends body stream =
        Spends-bind 0 0 _ _ (upload-Spends stream body)
          (λ uploaded. Spends-try 0 uploaded _ (finish_upload-Spends stream))

    open_stream-Spends :
        (parts : Parts M) (body : Option Text) (sender : ℕ)
        → Spends cost (k + 0) (open_stream net timer parts body sender)
    unfolding open_stream
    open_stream-Spends parts body sender =
        Spends-bind k 0 _ _
          (Spends-timeout timer k _ _ law (
            Spends-await k net.others (send_request parts)
              (λ calls. net.send_request calls sender parts) (r.request_cost parts)))
          (λ stream?. Spends-try 0 _ _ (send_body-Spends body))

    -- One attempt makes at most one request.
    pub request-Spends :
        (target : Origin) (host : Text) (addresses : List IpAddr) (parts : Parts M)
        (body : Option Text)
        → Spends cost k (request net timer target host addresses parts body)
    unfolding request
    request-Spends target host addresses parts body =
        Spends-le (0 + (k + 0)) k
          (Spends-bind 0 (k + 0) _ _ (connection-Spends host target.port addresses)
            (λ connected. Spends-try (k + 0) _ _ (open_stream-Spends parts body)))
          (omega arith)
