-- ===== src/Http3/Quic.antt =====
-- src/http3.rs: the QUIC endpoint that `Http3State::endpoint` makes, and its transport. quinn is a
-- parameter.
use mechanics_http_client.Prelude.{ℕ, some, [], ◌∷◌}
use mechanics_http_client.Text.{codes}
use mechanics_http_client.Time.{from_secs}
use mechanics_http_client.Error.{to_string, Result, ok, err}
use mechanics_http_client.Http.{
  Fallible, success, failure, TransportConfig, Endpoint, Rustls, Quinn,
}
use mechanics_http_client.Tls.{webpki_roots_client_config}

abbrev h3_keep_alive_interval : ℕ
h3_keep_alive_interval = from_secs 15

abbrev h3_max_idle_timeout : ℕ
h3_max_idle_timeout = from_secs 120

infixl 5 ◌>>=◌
abbrev ◌>>=◌ : {A B : Type 0} → Fallible A → (A → Fallible B) → Fallible B
success a >>= f = f a
failure e >>= f = failure e

-- `.map_err(|e| e.to_string())`
abbrev as_text : {A : Type 0} → Result A → Fallible A
as_text (ok a) = success a
as_text (err e) = failure (to_string e)

module _ (quinn : Quinn) where
  unfoldable pub h3_transport_config : Fallible TransportConfig
  h3_transport_config = do
    idle ← quinn.idle_timeout h3_max_idle_timeout
    success
        (record { keep_alive_interval = some h3_keep_alive_interval; max_idle_timeout = some idle })

  -- The part of `Http3State::endpoint` after the look at the lock.
  unfoldable pub new_endpoint : Rustls → Fallible Endpoint
  unfolding h3_transport_config webpki_roots_client_config
  new_endpoint rustls = do
    tls_config ← as_text (webpki_roots_client_config rustls)
    quic_config ← quinn.quic_client_config (record tls_config { alpn_protocols = codes "h3" ∷ [] })
    transport ← h3_transport_config
    socket ← quinn.endpoint_client (record { ip = codes "::"; port = 0 })
    success (record { socket = socket; tls = quic_config; transport = transport })
