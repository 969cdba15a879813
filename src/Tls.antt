-- ===== src/Tls.antt =====
-- src/tls.rs: the TLS configuration. The certificates of `webpki_roots` and what rustls says of the
-- provider's protocol versions are parameters.
use mechanics_http_client.Prelude.{List, [], ◌++◌}
use mechanics_http_client.Text.{Text, codes}
use mechanics_http_client.Error.{internal, Result, ok, err}
use mechanics_http_client.Http.{Fallible, success, failure, ClientConfig, Rustls}

abbrev pub configured : List Text → Fallible (Unit {0}) → Result ClientConfig
configured roots (failure e) =
    err (internal (codes "aws-lc-rs provider rejected default protocol versions: " ++ e))
configured roots (success _) = ok (record { roots = roots; alpn_protocols = [] })

unfoldable pub webpki_roots_client_config : Rustls → Result ClientConfig
webpki_roots_client_config rustls =
    configured ([] ++ rustls.tls_server_roots) rustls.safe_default_protocol_versions
