-- ===== src/Http3/Timing.antt =====
-- Time of one HTTP/3 attempt and of its connection.
use mechanics_http_client.Prelude.{ℕ, ◌+◌, ◌≤◌, ◌≢◌, Option, List, [], ◌∷◌, arith}
use mechanics_http_client.Text.{Text}
use mechanics_http_client.Time.{from_millis}
use mechanics_http_client.Async.{Future, World, hangs, Timer, IsTimer, await}
use mechanics_http_client.Async.Timing.{
  InTime, Obeys-await, Lasts, Lasts-pure, Lasts-bind, Lasts-le, Lasts-timeout,
}
use mechanics_http_client.Async.Sync.{Sync-Lasts}
use mechanics_http_client.Http.{
  Endpoint, IpAddr, SocketAddr, Call, lookup_socket_addrs, handshake, h3_setup, Shared, Network,
}
use mechanics_http_client.Http3.{
  h3_connect_timeout, h3_dns_lookup_timeout, first_socket_addr, set_up, shake_hands, dial,
  dial_first, connection,
}
use mechanics_http_client.Http3.Effects.{endpoint-Sync, connecting-Sync, Lasts-try_text}

module _ {M : Type 0} (net : Network M) (timer : Timer Shared (Call M)) (law : IsTimer timer) where
  bounded :
      {A : Type 0} (d : ℕ) (call : Call M) (ask : List (Call M) → Future A)
      → Lasts d (timer.timeout d (await net.others call ask))
  bounded d call ask = Lasts-timeout timer law d _ (Obeys-await net.others call ask)

  first_socket_addr-Lasts :
      (host : Text) (port : ℕ) (addresses : List IpAddr)
      → Lasts (h3_dns_lookup_timeout + 0) (first_socket_addr net timer host port addresses)
  unfolding first_socket_addr
  first_socket_addr-Lasts host port (ip ∷ rest) = Lasts-le 0 _ (Lasts-pure _) (omega arith)
  first_socket_addr-Lasts host port [] =
      Lasts-bind h3_dns_lookup_timeout 0 _ _
        (bounded h3_dns_lookup_timeout (lookup_socket_addrs host port)
          (λ calls. net.lookup_socket_addrs calls host port))
        (λ x. Lasts-pure _)

  set_up-Lasts : (quic : ℕ) → Lasts (h3_connect_timeout + 0) (set_up net timer quic)
  unfolding set_up
  set_up-Lasts quic =
      Lasts-bind h3_connect_timeout 0 _ _
        (bounded h3_connect_timeout h3_setup (λ calls. net.h3_setup calls quic)) (λ x. Lasts-pure _)

  shake_hands-Lasts :
      (addr : SocketAddr) (host : Text) (c : ℕ)
      → Lasts (h3_connect_timeout + (h3_connect_timeout + 0)) (shake_hands net timer addr host c)
  unfolding shake_hands
  shake_hands-Lasts addr host c =
      Lasts-bind h3_connect_timeout (h3_connect_timeout + 0) _ _
        (bounded h3_connect_timeout (handshake addr host) (λ calls. net.handshake calls c))
        (λ x. Lasts-try_text _ _ (set_up net timer) set_up-Lasts)

  dial-Lasts :
      (e : Endpoint) (host : Text) (addr : SocketAddr)
      → Lasts (0 + (h3_connect_timeout + (h3_connect_timeout + 0))) (dial net timer e host addr)
  unfolding dial
  dial-Lasts e host addr =
      Lasts-bind 0 _ _ _ (Sync-Lasts (connecting-Sync net timer e addr host))
        (λ started. Lasts-try_text _ started _ (shake_hands-Lasts addr host))

  pub connection-Lasts :
      (host : Text) (port : ℕ) (addresses : List IpAddr)
      → Lasts (from_millis 1150) (connection net timer host port addresses)
  unfolding connection dial_first
  connection-Lasts host port addresses =
      Lasts-le _ (from_millis 1150)
        (Lasts-bind 0 _ _ _ (Sync-Lasts (endpoint-Sync net timer)) (λ made.
          Lasts-try_text _ made _ (λ e.
            Lasts-bind (h3_dns_lookup_timeout + 0) _ _ _
              (first_socket_addr-Lasts host port addresses)
              (λ found. Lasts-try_text _ found _ (dial-Lasts e host)))))
        (omega arith)

  -- With a timer that does what is documented, resolving, connecting and setting up HTTP/3, started
  -- before the cut-off, are over after 1150 milliseconds, whatever the network does: the future
  -- neither hangs nor ends later.
  pub connection_deadline :
      (host : Text) (port : ℕ) (addresses : List IpAddr) (cutoff : Option ℕ)
      (w : World Shared (Call M))
      → InTime cutoff w
      → ((connection net timer host port addresses cutoff w).1.clock ≤ w.clock + from_millis 1150)
        × ((connection net timer host port addresses cutoff w).0 ≢ hangs)
  connection_deadline host port addresses cutoff w h =
      let l = connection-Lasts host port addresses in (l.lasts cutoff w h, l.returns cutoff w h)
