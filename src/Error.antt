-- ===== src/Error.antt =====
-- src/error.rs: the failures that the client reports.
use mechanics_http_client.Prelude.{ℕ, Bool, true, false, ◌++◌}
use mechanics_http_client.Text.{Text, codes, decimal}

pub data Error : Type 0 where
  timeout : Error
  unreachable tls dns quic_handshake decode : Text → Error
  body_too_large : ℕ → ℕ → Error
  invalid_url invalid_header serialize_json cancelled internal : Text → Error

-- `Error::is_timeout`, `Error::is_unreachable`
unfoldable pub is_timeout : Error → Bool
is_timeout timeout = true
is_timeout _ = false

unfoldable pub is_unreachable : Error → Bool
is_unreachable (unreachable _) = true
is_unreachable _ = false

-- `Error::to_string`, from the attributes of the variants
abbrev pub to_string : Error → Text
to_string timeout = codes "request timed out"
to_string (unreachable e) = codes "upstream unreachable: " ++ e
to_string (tls e) = codes "TLS error: " ++ e
to_string (dns e) = codes "DNS error: " ++ e
to_string (quic_handshake e) = codes "QUIC handshake error: " ++ e
to_string (decode e) = codes "response decode error: " ++ e
to_string (body_too_large limit seen) =
    codes "response body exceeded cap: limit="
    ++ (decimal limit ++ (codes ", seen=" ++ decimal seen))
to_string (invalid_url e) = codes "invalid URL: " ++ e
to_string (invalid_header e) = codes "invalid header: " ++ e
to_string (serialize_json e) = codes "request JSON serialise: " ++ e
to_string (cancelled e) = codes "request cancelled: " ++ e
to_string (internal e) = codes "internal HTTP client error: " ++ e

-- `crate::Result<T>`
pub data Result {ℓ} (A : Type ℓ) : Type ℓ where
  ok : A → Result A
  err : Error → Result A
