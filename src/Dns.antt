-- ===== src/Dns.antt =====
-- src/dns.rs: `HyperDnsResolver`, by which hyper resolves names. The resolver of `mechanics_dns` is a
-- parameter.
use mechanics_http_client.Prelude.{Option, some, List, [], ◌∷◌, ◌++◌}
use mechanics_http_client.Text.{Text, codes}
use mechanics_http_client.Async.{pure, ◌>>=◌, await}
use mechanics_http_client.Http.{
  Fallible, success, failure, SocketAddr, lookup_socket_addrs, Network,
}
use mechanics_http_client.Http3.{H3}

-- `io::Error`, by the two kinds that are made here.
pub data IoError : Type 0 where
  other : Text → IoError
  not_found : Text → IoError

pub data IoResult (A : Type 0) : Type 0 where
  io_ok : A → IoResult A
  io_err : IoError → IoResult A

-- `poll_ready`: at once, without an error.
abbrev pub poll_ready : Option (IoResult Unit)
poll_ready = some (io_ok tt)

abbrev addresses_of : Text → Fallible (List SocketAddr) → IoResult (List SocketAddr)
addresses_of host (failure e) = io_err (other e)
addresses_of host (success []) =
    io_err (not_found (codes "no DNS addresses for `" ++ (host ++ codes "`")))
addresses_of host (success (a ∷ addrs)) = io_ok (a ∷ addrs)

module _ {M : Type 0} (net : Network M) where
  -- The future that `call` returns.
  unfoldable pub call : Text → H3 M (IoResult (List SocketAddr))
  call host = do
    found ←
        await net.others (lookup_socket_addrs host 0)
          (λ calls. net.lookup_socket_addrs calls host 0)
    pure (addresses_of host found)
