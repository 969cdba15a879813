-- ===== src/Http3/Serving/Phases.antt =====
-- The connection of an attempt, step by step: each within its limit, and no call that costs.
use mechanics_http_client.Prelude.{
  Bool-cases, inl, inr, sym, ◌∙◌, ℕ, ◌+◌, ◌≡◌, refl, true, false, Option, none, some, List, [], ◌∷◌,
  arith,
}
use mechanics_http_client.Text.{Text, codes}
use mechanics_http_client.Async.{Future, World, Timer, IsTimer, pure, await}
use mechanics_http_client.Async.Giving.{
  Gives, Ready, InTime, Gives-pure, Gives-le, Gives-bind, Gives-after, Gives-await, Gives-timeout,
  Certain,
}
use mechanics_http_client.Http.{
  Fallible, success, failure, IpAddr, SocketAddr, Response, Call, lookup_socket_addrs, handshake,
  h3_setup, Shared, Network,
}
use mechanics_http_client.Http3.{
  H3, try_text, flatten, h3_connect_timeout, h3_dns_lookup_timeout, first_socket_addr, endpoint,
  connecting, set_up, shake_hands, dial, dial_first, connection,
}
use mechanics_http_client.Http.{Endpoint}
use mechanics_http_client.Http3.Quic.{new_endpoint}
use mechanics_http_client.Http3.{address_of, made_endpoint, or_new_endpoint}
use mechanics_http_client.Http3.Effects.{Requests}
use mechanics_http_client.Http3.Serving.{IsSuccess, IsFound, Serves}

-- The longest that it takes to have a connection.
abbrev pub connection_time : ℕ
connection_time = h3_dns_lookup_timeout + 0 + (h3_connect_timeout + (h3_connect_timeout + 0))

-- An endpoint is had if the lock is not poisoned and one can be made.
abbrev pub Usable :
    {M : Type 0}
    → Network M
    → World Shared (Call M)
    → Fallible Endpoint
    → World Shared (Call M)
    → Type 0
Usable net w made v =
    w.shared.endpoint.poisoned ≡ false
    → IsSuccess (new_endpoint (net.quinn w.trace) net.rustls)
    → IsSuccess made

module _ {M : Type 0} (net : Network M) (timer : Timer Shared (Call M))
    (w : World Shared (Call M)) where
  or_new_endpoint-Certain :
      (made : Fallible Endpoint) (content : Option Endpoint)
      → Certain
          (λ r v. IsSuccess made → IsSuccess r)
          (λ cutoff. or_new_endpoint net timer made content)
          w
  or_new_endpoint-Certain made (some e) = record {
    answer = success e;
    after = w;
    gives = λ cutoff. refl;
    same_clock = refl;
    same_trace = refl;
    holds = λ h. tt;
  }
  or_new_endpoint-Certain (success new) none = record {
    answer = success new;
    after = (made_endpoint net timer (success new) w).1;
    gives = λ cutoff. refl;
    same_clock = refl;
    same_trace = refl;
    holds = λ h. tt;
  }
  or_new_endpoint-Certain (failure e) none = record {
    answer = failure e;
    after = w;
    gives = λ cutoff. refl;
    same_clock = refl;
    same_trace = refl;
    holds = λ h. h;
  }

  -- The endpoint is there, or is made and cached, or is refused, at once.
  pub endpoint-Certain : Certain (Usable net w) (endpoint net timer) w
  unfolding endpoint
  endpoint-Certain = elim (Bool-cases w.shared.endpoint.poisoned) [
    | inl p ↦ record {
      answer = failure (codes "HTTP/3 endpoint lock poisoned");
      after = w;
      gives = λ cutoff. simp p refl;
      same_clock = refl;
      same_trace = refl;
      holds = λ h. let clash : true ≡ false = sym p ∙ h in cc;
    }
    | inr p ↦
        let c =
          or_new_endpoint-Certain (new_endpoint (net.quinn w.trace) net.rustls)
            w.shared.endpoint.content in
        record {
          answer = c.answer;
          after = c.after;
          gives = λ cutoff. simp p (c.gives cutoff);
          same_clock = c.same_clock;
          same_trace = c.same_trace;
          holds = λ h k. c.holds k;
        }
  ]

module _ {M : Type 0} (net : Network M) (timer : Timer Shared (Call M)) (law : IsTimer timer)
    {cost : Call M → ℕ} (free : Requests cost 0) (response : Response M) (wait : ℕ)
    (serves : Serves net response wait) where
  pub bounded :
      {A : Type 0} (Q : A → Type 0) (d : ℕ) (call : Call M) (ask : List (Call M) → Future A)
      (w : World Shared (Call M))
      → cost call ≡ 0
      → Ready Q d (ask w.trace)
      → Gives cost (InTime Q) d (timer.timeout d (await net.others call ask)) w
  bounded Q d call ask w c r =
      Gives-timeout Q d d timer _ w law (omega arith) (Gives-await Q d net.others call ask w c r)

  flattened-Gives :
      (late : Text) (r : Option (Fallible ℕ)) (w : World Shared (Call M))
      → InTime IsSuccess r
      → Gives cost IsSuccess 0 (pure (flatten late r)) w
  flattened-Gives late none w h = elim h [ ]
  flattened-Gives late (some r) w h = Gives-pure IsSuccess r w h

  pub try_text-Gives :
      {A B : Type 0} (Q : Fallible B → Type 0) (k : ℕ) (r : Fallible A) (f : A → H3 M (Fallible B))
      (w : World Shared (Call M))
      → IsSuccess r
      → ((a : A) → Gives cost Q k (f a) w)
      → Gives cost Q k (try_text r f) w
  try_text-Gives Q k (success a) f w h g = g a
  try_text-Gives Q k (failure e) f w h g = elim h [ ]

  set_up-Gives :
      (quic : ℕ) (w : World Shared (Call M))
      → Gives cost IsSuccess (h3_connect_timeout + 0) (set_up net timer quic) w
  unfolding set_up
  set_up-Gives quic w =
      Gives-bind (InTime IsSuccess) IsSuccess h3_connect_timeout 0 _ _ w
        (bounded IsSuccess h3_connect_timeout h3_setup _ w free.free_setup
          (serves.sets_up w.trace quic))
        (λ r v h. flattened-Gives _ r v h)

  shake_hands-Gives :
      (addr : SocketAddr) (host : Text) (c : ℕ) (w : World Shared (Call M))
      → Gives cost IsSuccess
          (h3_connect_timeout + (h3_connect_timeout + 0))
          (shake_hands net timer addr host c)
          w
  unfolding shake_hands
  shake_hands-Gives addr host c w =
      Gives-bind (InTime IsSuccess) IsSuccess h3_connect_timeout (h3_connect_timeout + 0) _ _ w
        (bounded IsSuccess h3_connect_timeout (handshake addr host) _ w
          (free.free_handshake addr host) (serves.shakes_hands w.trace c))
        (λ r v h. connected r v h)
    where
      connected :
          (r : Option (Fallible ℕ)) (v : World Shared (Call M))
          → InTime IsSuccess r
          → Gives cost IsSuccess
              (h3_connect_timeout + 0)
              (try_text
                (flatten (codes "HTTP/3 connect timed out after 500ms") r)
                (set_up net timer))
              v
      connected none v h = elim h [ ]
      connected (some r) v h =
          try_text-Gives IsSuccess _ r (set_up net timer) v h (λ quic. set_up-Gives quic v)

  dial-Gives :
      (e : Endpoint) (host : Text) (addr : SocketAddr) (w : World Shared (Call M))
      → Gives cost IsSuccess
          (h3_connect_timeout + (h3_connect_timeout + 0))
          (dial net timer e host addr)
          w
  unfolding dial
  dial-Gives e host addr w =
      Gives-after (λ r v. IsSuccess r) IsSuccess _ (connecting net timer e addr host)
        (λ started. try_text started (shake_hands net timer addr host)) w
        (record {
          answer = net.connect w.trace e addr host;
          after = w;
          gives = λ cutoff. refl;
          same_clock = refl;
          same_trace = refl;
          holds = serves.connects w.trace e addr host;
        })
        (λ started v h.
          try_text-Gives IsSuccess _ started _ v h (λ c. shake_hands-Gives addr host c v))

  first_socket_addr-Gives :
      (host : Text) (port : ℕ) (addresses : List IpAddr) (w : World Shared (Call M))
      → Gives cost IsSuccess
          (h3_dns_lookup_timeout + 0)
          (first_socket_addr net timer host port addresses)
          w
  unfolding first_socket_addr
  first_socket_addr-Gives host port (ip ∷ rest) w =
      Gives-le 0 _ _ w (omega arith) (Gives-pure IsSuccess _ w tt)
  first_socket_addr-Gives host port [] w =
      Gives-bind (InTime IsFound) IsSuccess h3_dns_lookup_timeout 0 _ _ w
        (bounded IsFound h3_dns_lookup_timeout (lookup_socket_addrs host port) _ w
          (free.free_socket host port) (serves.resolves w.trace host port))
        found
    where
      found :
          (r : Option (Fallible (List SocketAddr))) (v : World Shared (Call M))
          → InTime IsFound r
          → Gives cost IsSuccess 0
              (pure (
                address_of host port (flatten (codes "HTTP/3 DNS lookup timed out after 150ms") r)))
              v
      found none v h = elim h [ ]
      found (some (failure e)) v h = elim h [ ]
      found (some (success [])) v h = elim h [ ]
      found (some (success (a ∷ addrs))) v h = Gives-pure IsSuccess (success a) v tt

  dial_first-Gives :
      (host : Text) (port : ℕ) (addresses : List IpAddr) (e : Endpoint) (w : World Shared (Call M))
      → Gives cost IsSuccess connection_time (dial_first net timer host port addresses e) w
  unfolding dial_first
  dial_first-Gives host port addresses e w =
      Gives-bind IsSuccess IsSuccess (h3_dns_lookup_timeout + 0) _ _ _ w
        (first_socket_addr-Gives host port addresses w)
        (λ r v h. try_text-Gives IsSuccess _ r _ v h (λ addr. dial-Gives e host addr v))

  pub connection-Gives :
      (host : Text) (port : ℕ) (addresses : List IpAddr) (w : World Shared (Call M))
      → w.shared.endpoint.poisoned ≡ false
      → Gives cost IsSuccess connection_time (connection net timer host port addresses) w
  unfolding connection
  connection-Gives host port addresses w healthy =
      Gives-after (Usable net w) IsSuccess connection_time (endpoint net timer)
        (λ made. try_text made (dial_first net timer host port addresses)) w
        (endpoint-Certain net timer w)
        (λ made v h.
          try_text-Gives IsSuccess connection_time made _ v
            (h healthy (serves.endpoint_made w.trace))
            (λ e. dial_first-Gives host port addresses e v))
