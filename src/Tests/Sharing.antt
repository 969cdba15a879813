-- ===== src/Tests/Sharing.antt =====
-- The theorems on time and on the shared state at concrete inputs.
use mechanics_http_client.Prelude.{◌≤◌, ◌≡◌, refl, sym, false, none, some, [], ◌∷◌, arith, subst}
use mechanics_http_client.Text.{codes, str_eq, u16_max}
use mechanics_http_client.Time.{from_secs, from_millis}
use mechanics_http_client.Error.{timeout, ok, err}
use mechanics_http_client.Origin.{origin_eq, Origin, Uri, insert, from_uri, PortFits}
use mechanics_http_client.Async.{done, timer, timer-IsTimer}
use mechanics_http_client.Async.Elapsing.{Passed}
use mechanics_http_client.Http.{Network}
use mechanics_http_client.Cache.{write}
use mechanics_http_client.Request.Elapsing.Timeouts.{send-timeout}
use mechanics_http_client.Request.Send.{headers_fit, send}
use mechanics_http_client.Request.Valid.{HeadersFit}
use mechanics_http_client.Steps.{one, learn}
use mechanics_http_client.Steps.Invariants.{IsApart, Keeps}
use mechanics_http_client.Steps.Sending.{OthersMove, OriginIn, send_all, send_all-Keeps}
use mechanics_http_client.Tests.{
  HeaderMap, alternative, http, network, client, origin, world, builder, uri, horizon,
}
use mechanics_http_client.Tests.Runs.{run_send}

-- A server that never answers, over HTTP/3 or over TCP.
abbrev silent_network : Network HeaderMap
silent_network = record network {
  tcp_request = λ calls parts body. record (network.tcp_request calls parts body) { delay = none };
}

run_times_out : (run_send silent_network).0 ≡ done (err timeout)
unfolding run_send
run_times_out = refl

times_out :
    (send http silent_network timer client horizon builder none world).0 ≡ done (err timeout)
unfolding send run_send
times_out = run_times_out

send-timeout_example :
    Passed
      (some (from_secs 1))
      (send http silent_network timer client horizon builder none world).1.clock
send-timeout_example =
    send-timeout http silent_network timer timer-IsTimer client horizon builder uri none world refl
      refl times_out

-- Meanwhile another task learns of an alternative.
abbrev busy_network : Network HeaderMap
busy_network = record network {
  others = λ calls s. record s {
    alt_svc_cache = write (λ m. insert m origin alternative) s.alt_svc_cache;
  };
}

pub uri_origin : from_uri uri ≡ some origin
unfolding from_uri str_eq
uri_origin = refl

pub uri-PortFits : (u : Uri) → builder.uri ≡ ok u → PortFits u
uri-PortFits u same o e =
    let same_u : uri ≡ u = cc in
    let e' : from_uri uri ≡ some o = rw same_u e in
    let same_o : origin ≡ o = let k = uri_origin in cc in
    subst (λ x. x.port ≤ u16_max) same_o (omega arith)

-- The headers of the client and of the request fit.
pub builder_fits_any : (u : Uri) → HeadersFit http network timer client horizon builder u
unfolding headers_fit
builder_fits_any u = refl

pub builder_fits : HeadersFit http network timer client horizon builder uri
builder_fits = builder_fits_any uri

abbrev Mine : Origin → Type 0
Mine key = key ≡ origin

busy_network-OthersMove : OthersMove Mine busy_network
busy_network-OthersMove calls s = one (learn s origin alternative refl)

builder-OriginIn : OriginIn http busy_network timer timer-IsTimer client horizon Mine builder
builder-OriginIn u same o e =
    let same_u : uri ≡ u = cc in
    let e' : from_uri uri ≡ some o = rw same_u e in let k = uri_origin in cc

abbrev elsewhere : Origin
elsewhere = record { host = codes "b.example"; port = 443 }

elsewhere-IsApart : IsApart Mine elsewhere
unfolding origin_eq str_eq
elsewhere-IsApart key mine = subst (λ x. origin_eq x elsewhere ≡ false) (sym mine) refl

-- Twice, while another task learns of an alternative: dropped after 100 milliseconds, then to its end.
send_all-Keeps_example :
    Keeps elsewhere world.shared
      (send_all http busy_network timer timer-IsTimer client horizon
        ((builder, some (from_millis 100)) ∷ (builder, none) ∷ [])
        world).shared
send_all-Keeps_example =
    send_all-Keeps http busy_network timer timer-IsTimer client horizon Mine elsewhere
      ((builder, some (from_millis 100)) ∷ (builder, none) ∷ []) world busy_network-OthersMove
      (builder-OriginIn, (builder-OriginIn, tt)) elsewhere-IsApart
