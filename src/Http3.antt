-- ===== src/Http3.antt =====
-- src/http3.rs: `Http3State`, one HTTP/3 attempt over a fresh QUIC connection.
pub mod Effects
pub mod Timing
pub mod Body
pub mod Quic
pub mod Serving
use mechanics_http_client.Prelude.{
  ℕ, Bool, true, false, Option, none, some, List, [], ◌∷◌, ◌++◌, if◌then◌else◌,
}
use mechanics_http_client.Text.{Text, codes, decimal}
use mechanics_http_client.Time.{from_millis}
use mechanics_http_client.Origin.{Origin}
use mechanics_http_client.Async.{Async, Future, Outcome, done, World, Timer, pure, ◌>>=◌, await}
use mechanics_http_client.Http.{
  Fallible, success, failure, IpAddr, SocketAddr, Parts, Response, Call, lookup_socket_addrs,
  handshake, h3_setup, send_request, send_data, finish, recv_response, RwLock, Shared, Network,
}
use mechanics_http_client.Cache.{write}
use mechanics_http_client.Http.{Endpoint}
use Quic.{new_endpoint}

abbrev pub h3_connect_timeout : ℕ
h3_connect_timeout = from_millis 500

abbrev pub h3_dns_lookup_timeout : ℕ
h3_dns_lookup_timeout = from_millis 150

abbrev pub h3_stream_open_timeout : ℕ
h3_stream_open_timeout = from_millis 150

abbrev pub h3_stream_upload_timeout : ℕ
h3_stream_upload_timeout = from_millis 500

-- The lock of `Http3State`, and `Http3State::new`
abbrev pub Http3State : Type 0
Http3State = RwLock (Option Endpoint)

abbrev pub new : Http3State
new = record { poisoned = false; content = none }

-- `Http3AttemptError`
pub data Http3AttemptError : Type 0 where
  handshake_failed : Text → Http3AttemptError
  stream_failed : Bool → Http3AttemptError

-- `std::result::Result<A, Http3AttemptError>`
pub data Attempt (A : Type 0) : Type 0 where
  accepted : A → Attempt A
  refused : Http3AttemptError → Attempt A

abbrev pub stream_error_after_request_started : Http3AttemptError
stream_error_after_request_started = stream_failed false

-- `.map_err(…)?.map_err(…)` on a timeout of a fallible future: one text for the timeout, and the
-- error's own text.
abbrev pub flatten : {A : Type 0} → Text → Option (Fallible A) → Fallible A
flatten late none = failure late
flatten late (some r) = r

abbrev pub H3 : Type 0 → Type 0 → Type 0
H3 M A = Async Shared (Call M) A

module _ {M : Type 0} where
  -- `?` on a `Result<_, String>` and on a `Result<_, Http3AttemptError>`
  abbrev pub try_text : {A B : Type 0} → Fallible A → (A → H3 M (Fallible B)) → H3 M (Fallible B)
  try_text (success a) f = f a
  try_text (failure e) f = pure (failure e)

  abbrev pub try : {A B : Type 0} → Attempt A → (A → H3 M (Attempt B)) → H3 M (Attempt B)
  try (accepted a) f = f a
  try (refused e) f = pure (refused e)

abbrev first_address : Text → ℕ → List SocketAddr → Fallible SocketAddr
first_address host port [] =
    failure (codes "no socket addresses for " ++ (host ++ (codes ":" ++ decimal port)))
first_address host port (a ∷ _) = success a

abbrev pub address_of : Text → ℕ → Fallible (List SocketAddr) → Fallible SocketAddr
address_of host port (success found) = first_address host port found
address_of host port (failure e) = failure e

abbrev pub sender_of : Fallible ℕ → Attempt ℕ
sender_of (success s) = accepted s
sender_of (failure e) = refused (handshake_failed e)

-- Opening the stream: a timeout and an error are alike.
abbrev pub opened : Option (Fallible ℕ) → Attempt ℕ
opened (some (success s)) = accepted s
opened (some (failure _)) = refused (stream_failed true)
opened none = refused (stream_failed true)

abbrev pub phase_result : {A : Type 0} → Option (Fallible A) → Attempt A
phase_result (some (success a)) = accepted a
phase_result (some (failure _)) = refused stream_error_after_request_started
phase_result none = refused stream_error_after_request_started

abbrev pub received : {A : Type 0} → Fallible A → Attempt A
received (success r) = accepted r
received (failure _) = refused stream_error_after_request_started

module _ {M : Type 0} (net : Network M) (timer : Timer Shared (Call M)) where
  unfoldable pub first_socket_addr : Text → ℕ → List IpAddr → H3 M (Fallible SocketAddr)
  first_socket_addr host port (ip ∷ _) = pure (success (record { ip = ip; port = port }))
  first_socket_addr host port [] = do
    addrs ← timer.timeout h3_dns_lookup_timeout (
        await net.others (lookup_socket_addrs host port)
          (λ calls. net.lookup_socket_addrs calls host port))
    pure (address_of host port (flatten (codes "HTTP/3 DNS lookup timed out after 150ms") addrs))

  abbrev pub made_endpoint :
      Fallible Endpoint
      → World Shared (Call M)
      → Outcome (Fallible Endpoint) × World Shared (Call M)
  made_endpoint (failure e) w = (done (failure e), w)
  made_endpoint (success e) w = (
    done (success e),
    record w { shared = record w.shared { endpoint = write (λ _. some e) w.shared.endpoint } },
  )

  abbrev pub or_new_endpoint :
      Fallible Endpoint
      → Option Endpoint
      → World Shared (Call M)
      → Outcome (Fallible Endpoint) × World Shared (Call M)
  or_new_endpoint made (some e) w = (done (success e), w)
  or_new_endpoint made none w = made_endpoint made w

  -- `Http3State::endpoint`: made once, and cached.
  unfoldable pub endpoint : H3 M (Fallible Endpoint)
  unfolding new_endpoint
  endpoint cutoff w =
      if w.shared.endpoint.poisoned
      then (done (failure (codes "HTTP/3 endpoint lock poisoned")), w)
      else or_new_endpoint (new_endpoint (net.quinn w.trace) net.rustls) w.shared.endpoint.content w

  abbrev pub connecting : Endpoint → SocketAddr → Text → H3 M (Fallible ℕ)
  connecting e addr host cutoff w = (done (net.connect w.trace e addr host), w)

  -- `Http3State::connection`, from its last step to its first. The driver of the connection, which is
  -- spawned after the last, belongs to h3.
  unfoldable pub set_up : ℕ → H3 M (Fallible ℕ)
  set_up quic = do
    built ←
        timer.timeout h3_connect_timeout
          (await net.others h3_setup (λ calls. net.h3_setup calls quic))
    pure (flatten (codes "HTTP/3 setup timed out after 500ms") built)

  unfoldable pub shake_hands : SocketAddr → Text → ℕ → H3 M (Fallible ℕ)
  unfolding set_up
  shake_hands addr authority_host c = do
    connected ←
        timer.timeout h3_connect_timeout
          (await net.others (handshake addr authority_host) (λ calls. net.handshake calls c))
    try_text (flatten (codes "HTTP/3 connect timed out after 500ms") connected) set_up

  unfoldable pub dial : Endpoint → Text → SocketAddr → H3 M (Fallible ℕ)
  unfolding shake_hands
  dial e authority_host addr = do
    started ← connecting e addr authority_host
    try_text started (shake_hands addr authority_host)

  unfoldable pub dial_first : Text → ℕ → List IpAddr → Endpoint → H3 M (Fallible ℕ)
  unfolding first_socket_addr dial
  dial_first authority_host port addresses e = do
    found ← first_socket_addr authority_host port addresses
    try_text found (dial e authority_host)

  unfoldable pub connection : Text → ℕ → List IpAddr → H3 M (Fallible ℕ)
  unfolding endpoint dial_first
  connection authority_host port addresses = do
    made ← endpoint
    try_text made (dial_first authority_host port addresses)

  -- `h3_stream_phase`
  unfoldable pub h3_stream_phase : {A : Type 0} → ℕ → H3 M (Fallible A) → H3 M (Attempt A)
  h3_stream_phase d future = do r ← timer.timeout d future; pure (phase_result r)

  abbrev pub upload : ℕ → Option Text → H3 M (Attempt Unit)
  upload stream none = pure (accepted tt)
  upload stream (some body) =
      h3_stream_phase h3_stream_upload_timeout
        (await net.others (send_data body) (λ calls. net.send_data calls stream body))

  -- `Http3State::request`, from its last step to its first.
  unfoldable pub receive : ℕ → Unit {0} → H3 M (Attempt (Response M))
  receive stream _ = do
    response ← await net.others recv_response (λ calls. net.recv_response calls stream)
    pure (received response)

  unfoldable pub finish_upload : ℕ → Unit {0} → H3 M (Attempt (Response M))
  unfolding h3_stream_phase receive
  finish_upload stream _ = do
    finished ←
        h3_stream_phase h3_stream_upload_timeout
          (await net.others finish (λ calls. net.finish calls stream))
    try finished (receive stream)

  unfoldable pub send_body : Option Text → ℕ → H3 M (Attempt (Response M))
  unfolding h3_stream_phase finish_upload
  send_body body stream = do uploaded ← upload stream body; try uploaded (finish_upload stream)

  unfoldable pub open_stream : Parts M → Option Text → ℕ → H3 M (Attempt (Response M))
  unfolding send_body
  open_stream parts body sender = do
    stream? ←
        timer.timeout h3_stream_open_timeout
          (await net.others (send_request parts) (λ calls. net.send_request calls sender parts))
    try (opened stream?) (send_body body)

  unfoldable pub request :
      Origin → Text → List IpAddr → Parts M → Option Text → H3 M (Attempt (Response M))
  unfolding connection open_stream
  request origin authority_host addresses parts body = do
    connected ← connection authority_host origin.port addresses
    try (sender_of connected) (open_stream parts body)
