-- ===== src/Request/Blocked.antt =====
-- Where QUIC is blocked: no handshake ever ends.
pub mod Attempting
pub mod Sending
use mechanics_http_client.Prelude.{
  ℕ, ◌+◌, ◌≤◌, ◌≡◌, ◌≢◌, refl, Bool, true, false, Option, none, some, List, [], ◌∷◌, arith, ltb,
  leb, Bool-cases, inl, inr,
}
use mechanics_http_client.Text.{Text, codes}
use mechanics_http_client.Time.{from_millis, add_instant}
use mechanics_http_client.Origin.{Origin}
use mechanics_http_client.Async.{
  Future, World, Timer, IsTimer, pure, await, wait, never, at_deadline, Async, Outcome, done, cut,
  hangs, panicked, proceed, ◌>>=◌,
}
use mechanics_http_client.Async.Spends.{total}
use mechanics_http_client.Async.Giving.{
  Leaves, Gave, Gives, Certain, Gives-pure, Gives-le, Gives-bind, Gives-after, reaches-Leaves,
}
use mechanics_http_client.Http.{
  Fallible, success, failure, IpAddr, SocketAddr, Call, lookup_socket_addrs, handshake, Shared,
  Network,
}
use mechanics_http_client.Cache.{negative_until, insert_negative}
use mechanics_http_client.Http3.{
  H3, try_text, flatten, address_of, h3_connect_timeout, h3_dns_lookup_timeout, first_socket_addr,
  endpoint, connecting, set_up, shake_hands, dial, dial_first, connection, made_endpoint,
  or_new_endpoint,
}
use mechanics_http_client.Http3.Serving.Phases.{Usable, endpoint-Certain}
use mechanics_http_client.Async.Stopping.{Anything, no_cost, late-Gives, any_call-Gives}
use mechanics_http_client.Http.{Endpoint}
use mechanics_http_client.Http3.Quic.{new_endpoint}

abbrev pub Blocked : {M : Type 0} → Network M → Type 0
Blocked {M} net = (calls : List (Call M)) (c : ℕ) → (net.handshake calls c).delay ≡ none

abbrev pub IsFailure : {A : Type 0} → Fallible A → Type 0
IsFailure (success a) = ⊥
IsFailure (failure e) = Unit

-- The longest that it takes to give an attempt up.
abbrev pub blocked_time : ℕ
blocked_time = h3_dns_lookup_timeout + 0 + (h3_connect_timeout + 0)

module _ {M : Type 0} (net : Network M) (timer : Timer Shared (Call M)) (law : IsTimer timer)
    (blocked : Blocked net) where
  failed-Gives :
      {A B : Type 0} (k : ℕ) (r : Fallible A) (f : A → H3 M (Fallible B))
      (w : World Shared (Call M))
      → ((a : A) → Gives no_cost IsFailure k (f a) w)
      → Gives no_cost IsFailure k (try_text r f) w
  failed-Gives k (success a) f w g = g a
  failed-Gives k (failure e) f w g =
      Gives-le 0 k (pure (failure e)) w (omega arith) (Gives-pure IsFailure (failure e) w tt)

  shake_hands-Gives :
      (addr : SocketAddr) (host : Text) (c : ℕ) (w : World Shared (Call M))
      → Gives no_cost IsFailure (h3_connect_timeout + 0) (shake_hands net timer addr host c) w
  unfolding shake_hands
  shake_hands-Gives addr host c w =
      Gives-bind (λ r. r ≡ none) IsFailure h3_connect_timeout 0 _ late w
        (late-Gives timer law net.others (handshake addr host) (λ calls. net.handshake calls c)
          h3_connect_timeout w (blocked w.trace c))
        (λ r v e. rw e (Gives-pure IsFailure _ v tt))
    where
      late : Option (Fallible ℕ) → H3 M (Fallible ℕ)
      late connected =
          try_text (flatten (codes "HTTP/3 connect timed out after 500ms") connected)
            (set_up net timer)

  dial-Gives :
      (e : Endpoint) (host : Text) (addr : SocketAddr) (w : World Shared (Call M))
      → Gives no_cost IsFailure (h3_connect_timeout + 0) (dial net timer e host addr) w
  unfolding dial
  dial-Gives e host addr w =
      Gives-after (λ r v. Unit) IsFailure _ (connecting net timer e addr host)
        (λ started. try_text started (shake_hands net timer addr host)) w
        (record {
          answer = net.connect w.trace e addr host;
          after = w;
          gives = λ cutoff. refl;
          same_clock = refl;
          same_trace = refl;
          holds = tt;
        })
        (λ started v h. failed-Gives _ started _ v (λ c. shake_hands-Gives addr host c v))

  first_socket_addr-Gives :
      (host : Text) (port : ℕ) (addresses : List IpAddr) (w : World Shared (Call M))
      → Gives no_cost Anything
          (h3_dns_lookup_timeout + 0)
          (first_socket_addr net timer host port addresses)
          w
  unfolding first_socket_addr
  first_socket_addr-Gives host port (ip ∷ rest) w =
      Gives-le 0 (h3_dns_lookup_timeout + 0) _ w (omega arith) (Gives-pure Anything _ w tt)
  first_socket_addr-Gives host port [] w =
      Gives-bind Anything Anything h3_dns_lookup_timeout 0 _ _ w
        (any_call-Gives timer law net.others (lookup_socket_addrs host port)
          (λ calls. net.lookup_socket_addrs calls host port) h3_dns_lookup_timeout w)
        (λ r v h.
          Gives-pure Anything
            (address_of host port (flatten (codes "HTTP/3 DNS lookup timed out after 150ms") r)) v
            tt)

  dial_first-Gives :
      (host : Text) (port : ℕ) (addresses : List IpAddr) (e : Endpoint) (w : World Shared (Call M))
      → Gives no_cost IsFailure blocked_time (dial_first net timer host port addresses e) w
  unfolding dial_first
  dial_first-Gives host port addresses e w =
      Gives-bind Anything IsFailure (h3_dns_lookup_timeout + 0) _ _ _ w
        (first_socket_addr-Gives host port addresses w)
        (λ r v h. failed-Gives _ r _ v (λ addr. dial-Gives e host addr v))

  -- No connection comes about.
  pub connection-Gives :
      (host : Text) (port : ℕ) (addresses : List IpAddr) (w : World Shared (Call M))
      → Gives no_cost IsFailure blocked_time (connection net timer host port addresses) w
  unfolding connection
  connection-Gives host port addresses w =
      Gives-after (Usable net w) IsFailure blocked_time (endpoint net timer)
        (λ made. try_text made (dial_first net timer host port addresses)) w
        (endpoint-Certain net timer w)
        (λ made v h.
          failed-Gives blocked_time made _ v (λ e. dial_first-Gives host port addresses e v))
