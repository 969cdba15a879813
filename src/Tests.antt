-- ===== src/Tests.antt =====
-- A header map, a network and a client to run the definitions on.
pub mod Runs
pub mod Examples
pub mod Components
pub mod Sharing
pub mod Reading
pub mod Ported
pub mod Answers
pub mod Offered
pub mod Later
pub mod Apart
use mechanics_http_client.Prelude.{
  ℕ, ◌^◌, Bool, true, false, Option, none, some, List, [], ◌∷◌, ◌++◌, if◌then◌else◌, ltb, length,
}
use mechanics_http_client.Text.{Text, codes, str_eq}
use mechanics_http_client.Error.{ok}
use mechanics_http_client.Time.{from_secs, from_millis}
use mechanics_http_client.Async.{Future, World}
use mechanics_http_client.Origin.{Origin, Uri}
use mechanics_http_client.AltSvc.{AltSvcEntry}
use mechanics_http_client.Http.{
  Fallible, success, failure, Parts, RequestBody, Response, hyper, frame, data_frame, Call, RwLock,
  Shared, ClientInner, Http, Network,
}
use mechanics_http_client.Request.Builder.{RequestBuilder, empty}

abbrev pub HeaderMap : Type 0
HeaderMap = List (Text × Text)

unfoldable pub lookup : Text → HeaderMap → Option Text
lookup name [] = none
lookup name ((n, v) ∷ pairs) =
    let rest = lookup name pairs in if str_eq n name then some v else rest

unfoldable pub without : Text → HeaderMap → HeaderMap
without name [] = []
without name ((n, v) ∷ pairs) =
    let rest = without name pairs in if str_eq n name then rest else (n, v) ∷ rest

abbrev present : Option Text → Bool
present none = false
present (some _) = true

abbrev pub uri : Uri
uri = record {
  scheme_str = some (codes "https");
  host = some (codes "a.example");
  port_u16 = none;
  path = codes "/";
}

-- A header map as the list of its pairs; every URL parses to the one above, but for the empty one.
abbrev parse : Text → Fallible Uri
parse [] = failure (codes "empty string")
parse (c ∷ url) = success uri

abbrev pub http : Http HeaderMap
http = record {
  empty = [];
  append = λ m name value. m ++ ((name, value) ∷ []);
  has_room = λ m name. ltb (length m) 32768;
  insert = λ m name value. without name m ++ ((name, value) ∷ []);
  get = λ m name. lookup name m;
  contains_key = λ m name. present (lookup name m);
  iter = λ m. m;
  to_str = λ value. some value;
  header_value = λ text. some text;
  parse_uri = parse;
  builder_error = λ method uri. none;
}

abbrev pub response : Response HeaderMap
response = record {
  status = 200;
  headers = [];
  version = 11;
  body = some (hyper (frame (data_frame (codes "hello")) ∷ []));
}

abbrev after : {A : Type 0} → ℕ → A → Future A
after ms value = record { delay = some (from_millis ms); value = value }

-- A handshake that never ends, and a server that answers over TCP in 30 milliseconds.
abbrev pub network : Network HeaderMap
network = record {
  others = λ calls shared. shared;
  lookup_https = λ calls host. after 5 (success []);
  lookup_socket_addrs =
      λ calls host port. after 10 (success (record { ip = codes "192.0.2.1"; port = port } ∷ []));
  rustls = record {
    safe_default_protocol_versions = success tt;
    tls_server_roots = codes "root" ∷ [];
  };
  quinn = λ calls. record {
    idle_timeout = λ d. success d;
    quic_client_config = λ c. success c;
    endpoint_client = λ addr. success 1;
  };
  connect = λ calls e addr host. success 2;
  handshake = λ calls c. record { delay = none; value = success 3 };
  h3_setup = λ calls c. after 1 (success 4);
  send_request = λ calls sender parts. after 1 (success 5);
  send_data = λ calls stream bytes. after 1 (success tt);
  finish = λ calls stream. after 1 (success tt);
  recv_response = λ calls stream. after 20 (success response);
  tcp_request = λ calls parts body. after 30 (success response);
}

-- The same network with a handshake that ends.
abbrev pub fast_network : Network HeaderMap
fast_network = record network { handshake = λ calls c. after 7 (success 3) }

abbrev pub client : ClientInner HeaderMap
client = record {
  default_timeout = some (from_secs 3);
  default_headers = (codes "accept", codes "text/html") ∷ [];
  http3_enabled = true;
  http3_negative_cache_duration = from_secs 300;
}

abbrev pub origin : Origin
origin = record { host = codes "a.example"; port = 443 }

abbrev unlocked : {A : Type 0} → A → RwLock A
unlocked content = record { poisoned = false; content = content }

abbrev pub alternative : AltSvcEntry
alternative = record { host = none; port = 8443; expires_at = from_secs 1000 }

unfoldable pub alternatives : Origin → Option AltSvcEntry
alternatives key = if str_eq key.host (codes "a.example") then some alternative else none

abbrev pub world : World Shared (Call HeaderMap)
world = record {
  clock = 0;
  shared = record {
    https_rr_cache = unlocked (λ key. none);
    alt_svc_cache = unlocked alternatives;
    negative_cache = unlocked (λ key. none);
    endpoint = unlocked none;
  };
  trace = [];
}

abbrev pub builder : RequestBuilder HeaderMap
builder = record {
  method = codes "GET";
  uri = ok uri;
  headers = (codes "accept", codes "text/plain") ∷ [];
  body = empty;
  timeout = some (from_secs 1);
  deferred_error = none;
}

abbrev pub parts : Parts HeaderMap
parts = record { method = codes "GET"; uri = uri; headers = [] }

abbrev pub horizon : ℕ
horizon = 2 ^ 94
