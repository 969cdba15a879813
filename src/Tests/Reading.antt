-- ===== src/Tests/Reading.antt =====
-- The theorems on responses, HTTPS records and the QUIC endpoint at concrete inputs.
use mechanics_http_client.Prelude.{◌≡◌, refl, true, false, none, some, [], ◌∷◌, ◌++◌, arith}
use mechanics_http_client.Text.{codes, str_eq, decimal, is_whitespace}
use mechanics_http_client.Text.Decimals.{all}
use mechanics_http_client.Time.{from_secs}
use mechanics_http_client.Async.{done, await, timer}
use mechanics_http_client.Http.{
  success, failure, Response, Network, hyper, frame, data_frame, other_frame, HttpsRrEntry,
  HttpsRecord,
}
use mechanics_http_client.HttpsRr.{fresh, select, https_rr_entry}
use mechanics_http_client.HttpsRr.Again.{https_rr_entry-again}
use mechanics_http_client.Http3.Quic.{new_endpoint}
use mechanics_http_client.Http.{Endpoint}
use mechanics_http_client.Tls.{webpki_roots_client_config}
use mechanics_http_client.Response.{
  Codecs, bytes, content_length, decompress, and_then, into_body, ◌>>=◌,
}
use mechanics_http_client.Response.Reading.{collected, bytes-collected, content_length-decimal}
use mechanics_http_client.Tests.{HeaderMap, http, network, origin, world, response, lookup}

abbrev record_of : HttpsRecord
record_of = record {
  port = some 8443;
  address_hints = [];
  has_alpn = λ name. true;
  expires_at = from_secs 60;
}

abbrev record_network : Network HeaderMap
record_network = record network {
  lookup_https =
      λ calls host. record (network.lookup_https calls host) { value = success (record_of ∷ []) };
}

abbrev entry : HttpsRrEntry
entry = record { port = 8443; addresses = []; has_h3 = true; expires_at = from_secs 60 }

looked_up : (https_rr_entry record_network timer origin 0 none world).0 ≡ done (some entry)
unfolding https_rr_entry await select
looked_up = refl

unpoisoned :
    (https_rr_entry record_network timer origin 0 none world).1.shared.https_rr_cache.poisoned
    ≡ false
unfolding https_rr_entry await select
unpoisoned = refl

still_fresh : fresh entry (from_secs 59) ≡ true
unfolding fresh
still_fresh = refl

https_rr_entry-again_example :
    https_rr_entry record_network timer origin
      (from_secs 59)
      none
      (https_rr_entry record_network timer origin 0 none world).1
    ≡ (done (some entry), (https_rr_entry record_network timer origin 0 none world).1)
https_rr_entry-again_example =
    https_rr_entry-again record_network timer origin 0 entry none world (from_secs 59) looked_up
      unpoisoned still_fresh

abbrev codecs : Codecs
codecs = record { gzip = λ s. success s; zlib = λ s. failure []; brotli = λ s. failure [] }

abbrev two_frames : Response HeaderMap
two_frames = record response {
  headers = (codes "content-length", codes " 5\t") ∷ [];
  body = some (
      hyper (
        frame (data_frame (codes "hel"))
        ∷ frame other_frame
        ∷ frame (data_frame (codes "lo"))
        ∷ []));
}

bytes-collected_example : bytes http codecs two_frames ≡ (
    into_body two_frames
    >>= collected
    >>= decompress codecs
        (and_then (http.get two_frames.headers (codes "content-encoding")) http.to_str))
bytes-collected_example = bytes-collected http codecs two_frames

stated : lookup (codes "content-length") two_frames.headers ≡ some (codes " 5\t")
unfolding lookup str_eq
stated = refl

printed : some (codes " 5\t") ≡ some (codes " " ++ (decimal 5 ++ codes "\t"))
unfolding decimal
printed = refl

spaces : all is_whitespace (codes " ") ≡ true
unfolding all is_whitespace
spaces = refl

tabs : all is_whitespace (codes "\t") ≡ true
unfolding all is_whitespace
tabs = refl

content_length-decimal_example : content_length http codecs two_frames ≡ some 5
content_length-decimal_example =
    content_length-decimal http codecs two_frames (codes " 5\t") (codes " ") (codes "\t") 5 stated
      printed spaces tabs (omega arith)

-- An endpoint that trusts the given root, offers HTTP/3 alone, and keeps connections alive well before
-- they idle out.
abbrev quic_endpoint : Endpoint
quic_endpoint = record {
  socket = 1;
  tls = record { roots = codes "root" ∷ []; alpn_protocols = codes "h3" ∷ [] };
  transport = record {
    keep_alive_interval = some (from_secs 15);
    max_idle_timeout = some (from_secs 120);
  };
}

makes_the_endpoint : new_endpoint (network.quinn []) network.rustls ≡ success quic_endpoint
unfolding new_endpoint webpki_roots_client_config
makes_the_endpoint = refl
