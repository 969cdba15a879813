-- ===== src/Lib.antt =====
-- mechanics-http-client: an asynchronous HTTP client over hyper with opportunistic HTTP/3.
--
-- The program and the files that model it:
--   * src/request.rs, `RequestBuilder` and `RequestPayload`: Request/Builder; a chain of its calls
--     as data: Request/Builder/Ops.
--   * src/request.rs, `RequestBuilder::send`: Request/Send. It tries HTTP/3 first, unless that is
--     off, the URL is not one of https, or the body cannot be sent twice, and goes on to TCP.
--   * src/request.rs, `try_http3`, `request_http3_with_stale_retry` and the cancellation guard:
--     Request/Fallback. They read the Alt-Svc cache, then the HTTPS records, and remember failures.
--   * src/request.rs, `insert_negative`, `negative_cache_hit`, `alt_svc_entry`,
--     `maybe_update_alt_svc`: Cache; `Origin` of src/client.rs and its `from_uri`: Origin.
--   * src/https_rr.rs, and `https_rr_entry` of src/request.rs: HttpsRr.
--   * src/http3.rs, `Http3State`: Http3; how it makes its endpoint: Http3/Quic, with src/tls.rs
--     in Tls. src/dns.rs: Dns.
--   * src/alt_svc.rs: AltSvc, with its iterator in AltSvc/Split. AltSvc/Offers describes a header
--     without offsets and loops, as the first offer among its pieces (AltSvc/Split/Pieces).
--   * src/http3.rs, `H3ResponseBody`: Http3/Body, a state machine that is polled and dropped.
--   * src/response.rs, reading a body: Response.
--   * src/client.rs, `ClientBuilder`: Client; a chain of its calls as data: Client/Ops. How requests
--     are started: Client/Requests; how the crate's tests look into a client: Client/Inspection.
--   * src/error.rs: Error. The types that the client shares with other crates: Http.
--   * Steps is a state machine beside the code: what the sections of code between two awaits do to the
--     state that the clones of a client share, one lock at a time, for requests to given origins.
--
-- Request/Walk is the induction over the code of `send`: a property of computations that obeys its
-- rules holds of `send`. Async/Timing, Async/Elapsing, Request/Elapsing, Request/Calm,
-- Request/Isolation and Steps/Sections give such properties; Request/Isolation relates two runs.
-- Async/Giving is about what a computation gives, and when, if the calls that it awaits are ready in
-- time, and Async/Stopping about those that are over at their timeout at the latest. Http3/Serving and
-- Request/Advertised follow an HTTP/3 request that succeeds, Request/Blocked one that QUIC never
-- takes, Request/Remembering one that times out.
--
-- AltSvc/Print prints alternatives, Text/Decimals numbers. The other modules below a part hold theorems
-- on it and the lemmas for them. Tests and the modules below it, and AltSvc/Tests, hold runs and the
-- theorems at concrete inputs; Tests/Ported has the unit tests of src/request.rs and src/alt_svc.rs;
-- the one that binds a UDP port runs on a network where no handshake ends.
--
-- Names are those of the source. A function that awaits is a function on worlds (Async): the clock
-- in nanoseconds, the state that the clones of a client share, and the calls made to the outside.
-- It also takes a cut-off, the instant at which its owner drops the future, and ends as done, cut,
-- hanging or panicked. A long function is in parts, each named for what it does and ending where
-- the source awaits or branches. Locks carry whether they are poisoned. While a call is awaited
-- other tasks may change the shared state in any way (`others`).
--
-- Parameters, for what is not in the repository: `Http` for the crate http, `Network` for
-- mechanics-dns, quinn, h3 and hyper, whose answers may depend on all calls made so far and may
-- never come, `Codecs` for flate2 and brotli, `Quinn` and `Rustls` for the setup of those crates,
-- and `Timer` for `tokio::time::timeout`, whose documented behaviour is the law `IsTimer`. `horizon`
-- is the largest instant of the platform: `Instant + Duration` panics past it. Texts are lists of code points, bodies lists of
-- bytes, a hash map the function from its keys. `IsHeaderMap` is what is documented of
-- `HeaderMap::append` and `iter`. A header map has room for a limited number of names, and `append`
-- panics past it (`has_room`): `send` panics where the default headers and those of the request do not
-- fit into one map (`headers_fit`). The calls that configure a builder are modelled where the maps of
-- the builder itself have room.
--
-- The loops of the Alt-Svc parser run on fuel, two more than the text has bytes, which is enough
-- since the offset of the iterator grows with every piece; the results say that it is.
-- `poll_frame` runs on fuel two: from every state the second round returns at the latest. The two
-- rounds of the retry loop and the loops over lists are structural.
--
-- The body of an HTTP/3 response is the stream of h3 alone: the sender that the source keeps beside it,
-- so that the connection stays open, and the driver of the connection, which it spawns, belong to h3.
-- `Response` holds a body as the list of what it yields; Http3/Body has the polls behind that list, and
-- Response/Streaming puts the two together.
--
-- Not modelled: the connector that `build` makes for hyper and hyper itself, whose answers are those of
-- `Network.tcp_request`; `Debug`; the tests of src/http3.rs and src/tests.rs, which run servers; and
-- src/lib.rs, which has no code.
pub mod Prelude
pub mod Text
pub mod Time
pub mod Error
pub mod AltSvc
pub mod Origin
pub mod Async
pub mod Http
pub mod Cache
pub mod HttpsRr
pub mod Http3
pub mod Request
pub mod Client
pub mod Response
pub mod Tests
pub mod Steps
pub mod Tls
pub mod Dns
