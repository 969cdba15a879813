-- ===== src/Request/Blocked/Sending.antt =====
-- `send` where QUIC is blocked.
use mechanics_http_client.Prelude.{ℕ, ◌≡◌, Option, none}
use mechanics_http_client.Text.{Text}
use mechanics_http_client.Error.{Result}
use mechanics_http_client.Origin.{Origin}
use mechanics_http_client.Async.{Timer, IsTimer}
use mechanics_http_client.Http.{Response, Call, ClientInner, Http, Network, Shared}
use mechanics_http_client.Request.Blocked.{Blocked}

module _ {M : Type 0} (http : Http M) (net : Network M) (timer : Timer Shared (Call M))
    (law : IsTimer timer) (client : ClientInner M) (horizon : ℕ) (blocked : Blocked net) where
  abbrev GoesOn : Option (Result (Response M)) → Type 0
  GoesOn early = early ≡ none
