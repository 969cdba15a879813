-- ===== src/Response/Streaming.antt =====
-- From the request stream of an HTTP/3 response to the bytes of its body.
use mechanics_http_client.Prelude.{ℕ, ◌≡◌, refl, ap, some, List, Run, returns}
use mechanics_http_client.Prelude
use mechanics_http_client.Text.{Text, codes}
use mechanics_http_client.Error.{Error, Result}
use mechanics_http_client.Http.{Polled, h3, Http, Response}
use mechanics_http_client.Http3.Body.{RequestStream, new}
use mechanics_http_client.Http3.Body.Frames.{Gives, polls, polls_for, polls-Gives}
use mechanics_http_client.Response.{Codecs, decompress, and_then, into_body, bytes, ◌>>=◌}
use mechanics_http_client.Response.Reading.{collected, bytes-collected}

module _ {S F M : Type 0} (stream : RequestStream S F) (http : Http M) (codecs : Codecs) where
  -- The response, with what was polled of its body.
  abbrev polled_response : Response M → List (Polled Error) → Response M
  polled_response response items = record response { body = some (h3 items) }

  -- `bytes` of an HTTP/3 response whose body is polled `n` times.
  unfoldable pub stream_bytes : ℕ → S → Response M → Run (Result Text)
  unfolding bytes polls
  stream_bytes n s response =
      Prelude.◌>>=◌ (polls stream n (new s))
        (λ r. returns (bytes http codecs (polled_response response r.0)))

  -- Polled as often as its stream needs, or more often, an HTTP/3 response gives all the chunks of the
  -- stream, in order and decoded by `Content-Encoding`, or the error that the stream breaks off with,
  -- however often a poll finds nothing there yet.
  pub stream_bytes-Gives :
      {s : S} {l : List (Polled Error)} (spare : ℕ) (g : Gives stream (stream.recv_data s) l)
      (response : Response M)
      → stream_bytes (polls_for stream spare g) s response
        ≡ returns (
            collected l
            >>= decompress codecs
                (and_then (http.get response.headers (codes "content-encoding")) http.to_str))
  unfolding stream_bytes into_body
  stream_bytes-Gives {l = l} spare g response =
      rw (polls-Gives stream spare g)
        (ap returns (bytes-collected http codecs (polled_response response l)))
