-- ===== src/Http.antt =====
-- The types that the client shares with the crates that it calls. What those crates do is a
-- parameter: `Http` for the crate `http`, `Network` for name resolution, QUIC, HTTP/3 and hyper.
use mechanics_http_client.Prelude.{ℕ, Bool, Option, List}
use mechanics_http_client.Text.{Text}
use mechanics_http_client.Error.{Error}
use mechanics_http_client.Async.{Future}
use mechanics_http_client.Origin.{HashMap, Uri}
use mechanics_http_client.AltSvc.{AltSvcEntry}

-- A result of another crate; an error is what its `to_string` gives.
pub data Fallible {ℓ} (A : Type ℓ) : Type ℓ where
  success : A → Fallible A
  failure : Text → Fallible A

abbrev pub IpAddr : Type 0
IpAddr = Text

pub record SocketAddr : Type 0 where
  pub ip : IpAddr
  pub port : ℕ

-- `mechanics_dns::HttpsRecord`, by what the client reads of it.
pub record HttpsRecord : Type 0 where
  pub port : Option ℕ
  pub address_hints : List IpAddr
  pub has_alpn : Text → Bool
  pub expires_at : ℕ

-- src/https_rr.rs: `HttpsRrEntry`
pub record HttpsRrEntry : Type 0 where
  pub port : ℕ
  pub addresses : List IpAddr
  pub has_h3 : Bool
  pub expires_at : ℕ

-- The head of a request, with header map `M`; header names are in lower case.
pub record Parts (M : Type 0) : Type 0 where
  pub method : Text
  pub uri : Uri
  pub headers : M

-- src/body.rs: `RequestBody`, by the three functions that build one. A stream of the caller's is
-- known by a number.
pub data RequestBody : Type 0 where
  empty_body : RequestBody
  full_body : Text → RequestBody
  streaming_body : ℕ → RequestBody

-- `http_body::Frame`, and what one `frame().await` of a body gives.
pub data Frame : Type 0 where
  data_frame : Text → Frame
  other_frame : Frame

pub data Polled (E : Type 0) : Type 0 where
  frame : Frame → Polled E
  failed : E → Polled E

-- src/response.rs: `Response` and `ResponseBody`. A body is what it will yield, one await at a time;
-- the errors of hyper are texts.
pub data ResponseBody : Type 0 where
  hyper : List (Polled Text) → ResponseBody
  h3 : List (Polled Error) → ResponseBody

pub record Response (M : Type 0) : Type 0 where
  pub status : ℕ
  pub headers : M
  pub version : ℕ
  pub body : Option ResponseBody

-- The calls to the outside.
pub data Call (M : Type 0) : Type 0 where
  lookup_https : Text → Call M
  lookup_socket_addrs : Text → ℕ → Call M
  handshake : SocketAddr → Text → Call M
  h3_setup : Call M
  send_request : Parts M → Call M
  send_data : Text → Call M
  finish : Call M
  recv_response : Call M
  tcp_request : Parts M → RequestBody → Call M

-- `rustls::ClientConfig`, by what the client sets of it; a certificate is its bytes.
pub record ClientConfig : Type 0 where
  pub roots : List Text
  pub alpn_protocols : List Text

-- `quinn::TransportConfig`, by what the client sets of it
pub record TransportConfig : Type 0 where
  pub keep_alive_interval : Option ℕ
  pub max_idle_timeout : Option ℕ

-- `quinn::Endpoint`, by its socket and the configuration that its connections use
pub record Endpoint : Type 0 where
  pub socket : ℕ
  pub tls : ClientConfig
  pub transport : TransportConfig

-- A lock is poisoned once a task panicked while it held it.
pub record RwLock (A : Type 0) : Type 0 where
  pub poisoned : Bool
  pub content : A

-- src/client.rs: what the clones of a client share, the part that changes.
pub record Shared : Type 0 where
  pub https_rr_cache : RwLock (HashMap HttpsRrEntry)
  pub alt_svc_cache : RwLock (HashMap AltSvcEntry)
  pub negative_cache : RwLock (HashMap ℕ)
  pub endpoint : RwLock (Option Endpoint)

-- src/client.rs: `ClientInner`, the part that does not change.
pub record ClientInner (M : Type 0) : Type 0 where
  pub default_timeout : Option ℕ
  pub default_headers : M
  pub http3_enabled : Bool
  pub http3_negative_cache_duration : ℕ

-- The operations of `http::HeaderMap`, `HeaderName`, `HeaderValue`, `Uri` and `request::Builder`.
pub record Http (M : Type 0) : Type 0 where
  pub empty : M
  pub append : M → Text → Text → M
  -- Whether `append` of a value to this header returns: a map with no room for a name panics.
  pub has_room : M → Text → Bool
  pub insert : M → Text → Text → M
  pub get : M → Text → Option Text
  pub contains_key : M → Text → Bool
  pub iter : M → List (Text × Text)
  pub to_str : Text → Option Text
  pub header_value : Text → Option Text
  pub parse_uri : Text → Fallible Uri
  -- The error of a request builder with this method and URI, if it is in one.
  pub builder_error : Text → Uri → Option Text

-- rustls and its provider: `with_safe_default_protocol_versions` and `TLS_SERVER_ROOTS`.
pub record Rustls : Type 0 where
  pub safe_default_protocol_versions : Fallible (Unit {0})
  pub tls_server_roots : List Text

-- `IdleTimeout::try_from`, `QuicClientConfig::try_from` and `quinn::Endpoint::client`; a socket is
-- known by a number.
pub record Quinn : Type 0 where
  pub idle_timeout : ℕ → Fallible ℕ
  pub quic_client_config : ClientConfig → Fallible ClientConfig
  pub endpoint_client : SocketAddr → Fallible ℕ

-- The outside: its answers may depend on the calls made so far. `others` is what other tasks of the
-- client do to the shared state while a call waits.
pub record Network (M : Type 0) : Type 0 where
  pub others : List (Call M) → Shared → Shared
  pub lookup_https : List (Call M) → Text → Future (Fallible (List HttpsRecord))
  pub lookup_socket_addrs : List (Call M) → Text → ℕ → Future (Fallible (List SocketAddr))
  pub rustls : Rustls
  pub quinn : List (Call M) → Quinn
  pub connect : List (Call M) → Endpoint → SocketAddr → Text → Fallible ℕ
  pub handshake : List (Call M) → ℕ → Future (Fallible ℕ)
  pub h3_setup : List (Call M) → ℕ → Future (Fallible ℕ)
  pub send_request : List (Call M) → ℕ → Parts M → Future (Fallible ℕ)
  pub send_data : List (Call M) → ℕ → Text → Future (Fallible Unit)
  pub finish : List (Call M) → ℕ → Future (Fallible Unit)
  pub recv_response : List (Call M) → ℕ → Future (Fallible (Response M))
  pub tcp_request : List (Call M) → Parts M → RequestBody → Future (Fallible (Response M))
