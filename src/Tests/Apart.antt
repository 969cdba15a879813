-- ===== src/Tests/Apart.antt =====
-- The theorems on caches that differ in what a request does not see, and on panics, at concrete inputs.
use mechanics_http_client.Prelude.{refl, false, none, some, arith}
use mechanics_http_client.Text.{str_eq}
use mechanics_http_client.Async.{World, timer, timer-IsTimer}
use mechanics_http_client.Http.{Call, Shared}
use mechanics_http_client.Request.Isolation.{Alike, AlikeRuns}
use mechanics_http_client.Request.Isolation.Sending.{send-Blind}
use mechanics_http_client.Request.Send.{send}
use mechanics_http_client.Tests.{
  HeaderMap, alternative, alternatives, http, network, client, origin, world, builder, uri, horizon,
}
use mechanics_http_client.Tests.Sharing.{uri_origin}

-- Alternatives of every other origin, and failures of all of them that have expired.
abbrev crowded : World Shared (Call HeaderMap)
crowded = record world {
  shared = record world.shared {
    alt_svc_cache = record { poisoned = false; content = λ key. some alternative };
    negative_cache = record { poisoned = false; content = λ key. some 0 };
  };
}

world-Alike : Alike origin 0 world crowded
unfolding alternatives str_eq
world-Alike = record {
  same_clock = refl;
  same_trace = refl;
  shared = record {
    https_rr = record { same_poison = refl; same_entry = refl };
    alt_svc = record { same_poison = refl; same_entry = refl };
    failures = record { same_poison = refl; same_entry = refl };
    same_endpoint = refl;
  };
  started = omega arith;
}

send-Blind_example :
    AlikeRuns origin 0
      (send http network timer client horizon builder none world)
      (send http network timer client horizon builder none crowded)
send-Blind_example =
    send-Blind http network timer timer-IsTimer client horizon builder uri origin 0 none world
      crowded (λ calls s t h. h) refl uri_origin world-Alike
