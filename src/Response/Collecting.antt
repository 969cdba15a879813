-- ===== src/Response/Collecting.antt =====
-- The loops that read a body under a cap.
use mechanics_http_client.Prelude.{
  ℕ, ◌+◌, ◌≤◌, ◌<◌, ◌≡◌, ◌↔◌, inl, inr, refl, ap, sym, ◌∙◌, false, List, [], ◌∷◌, ◌++◌, map, ◌≢◌,
  append-nil, append_assoc, arith, ltb, Option, none, some, length, length-append, Bool-cases,
}
use mechanics_http_client.Text.{Text, codes}
use mechanics_http_client.Error.{body_too_large, Result, ok, err}
use mechanics_http_client.Http.{
  data_frame, other_frame, Polled, frame, failed, Http, Response, ResponseBody, hyper, h3,
}
use mechanics_http_client.Response.{
  usize_max, saturating_add, map_hyper_body_error, collect_body_with_cap, collect_mhc_body_with_cap,
  reported, Codecs, decompress, and_then, into_body, stream_of, raw_body, bytes_with_cap, ◌>>=◌,
}

-- The bytes of the data frames, and whether the body ends without an error.
abbrev pub payload : {E : Type 0} → List (Polled E) → Text
payload [] = []
payload (frame (data_frame bytes) ∷ body) = bytes ++ payload body
payload (frame other_frame ∷ body) = payload body
payload (failed e ∷ body) = []

abbrev pub IsComplete : {E : Type 0} → List (Polled E) → Type 0
IsComplete [] = Unit
IsComplete (frame f ∷ body) = IsComplete body
IsComplete (failed e ∷ body) = ⊥

fits_iff : (max a b : ℕ) → max < usize_max → (ltb max (saturating_add a b) ≡ false) ↔ (a + b ≤ max)
fits_iff max a b room = (λ h. ground arith, λ h. ground arith)

module _ (max : ℕ) (room : max < usize_max) where
  read_ok :
      (body : List (Polled Text)) (buf : Text)
      → IsComplete body
      → length buf + length (payload body) ≤ max
      → collect_body_with_cap max buf body ≡ ok (buf ++ payload body)
  unfolding collect_body_with_cap
  read_ok [] buf c h = rw append-nil
  read_ok (frame (data_frame bytes) ∷ body) buf c h =
      rw
        ((fits_iff max (length buf) (length bytes) room).1
          (omega (arith, length-append {0} bytes (payload body))))
        (read_ok body (buf ++ bytes) c
            (omega (arith, length-append {0} bytes (payload body), length-append {0} buf bytes))
          ∙ ap ok (append_assoc buf bytes (payload body)))
  read_ok (frame other_frame ∷ body) buf c h = read_ok body buf c h
  read_ok (failed e ∷ body) buf c h = absurd c

  read_only :
      (body : List (Polled Text)) (buf out : Text)
      → length buf ≤ max
      → collect_body_with_cap max buf body ≡ ok out
      → IsComplete body × (out ≡ buf ++ payload body) × (length buf + length (payload body) ≤ max)
  unfolding collect_body_with_cap
  read_only [] buf out l h = (tt, rw append-nil (cc), omega arith)
  read_only (frame (data_frame bytes) ∷ body) buf out l h =
      elim (Bool-cases (ltb max (saturating_add (length buf) (length bytes)))) [
        | inl over ↦ let h' = rw over at h in cc
        | inr fits ↦
            let small = (fits_iff max (length buf) (length bytes) room).0 fits in
            let (c, e, k) =
              read_only body (buf ++ bytes) out (omega (arith, length-append {0} buf bytes))
                (rw fits at h) in
            (
              c,
              e ∙ append_assoc buf bytes (payload body),
              omega (arith, length-append {0} bytes (payload body), length-append {0} buf bytes),
            )
      ]
  read_only (frame other_frame ∷ body) buf out l h = read_only body buf out l h
  read_only (failed e ∷ body) buf out l h = cc

  -- With a cap below `usize::MAX`, a read succeeds exactly when the body ends without an error and
  -- its data frames have no more bytes than the cap; it gives those bytes, in order.
  pub collect_body_with_cap-ok_iff :
      (body : List (Polled Text)) (out : Text)
      → (collect_body_with_cap max [] body ≡ ok out)
        ↔ (IsComplete body × (out ≡ payload body) × (length (payload body) ≤ max))
  collect_body_with_cap-ok_iff body out = (
    (λ h. let (c, e, k) = read_only body [] out (omega arith) h in (c, e, omega arith)),
    (λ h. read_ok body [] h.0 (omega arith) ∙ ap ok (sym h.1)),
  )

  map_hyper_body_error-ne : (e : Text) (l seen : ℕ) → map_hyper_body_error e ≢ body_too_large l seen
  unfolding map_hyper_body_error
  map_hyper_body_error-ne e l seen h = ground arith

  read_too_large :
      (body : List (Polled Text)) (buf : Text) (l seen : ℕ)
      → length buf ≤ max
      → collect_body_with_cap max buf body ≡ err (body_too_large l seen)
      → (l ≡ max) × (seen ≤ max) × (max < length buf + length (payload body))
  unfolding collect_body_with_cap
  read_too_large [] buf l seen b h = cc
  read_too_large (frame (data_frame bytes) ∷ body) buf l seen b h =
      elim (Bool-cases (ltb max (saturating_add (length buf) (length bytes)))) [
        | inl over ↦ ground (arith, rw over at h, length-append {0} bytes (payload body))
        | inr fits ↦
            let small = (fits_iff max (length buf) (length bytes) room).0 fits in
            let (e, s, k) =
              read_too_large body (buf ++ bytes) l seen (omega (arith, length-append {0} buf bytes))
                (rw fits at h) in
            (
              e,
              s,
              omega (arith, length-append {0} bytes (payload body), length-append {0} buf bytes),
            )
      ]
  read_too_large (frame other_frame ∷ body) buf l seen b h = read_too_large body buf l seen b h
  read_too_large (failed e ∷ body) buf l seen b h =
      absurd (map_hyper_body_error-ne e l seen (ground arith))

  -- With a cap below `usize::MAX`, `BodyTooLarge` names the cap, is raised only where the body is
  -- larger, and no more than the cap had been buffered.
  pub collect_body_with_cap_too_large :
      (body : List (Polled Text)) (limit seen : ℕ)
      → collect_body_with_cap max [] body ≡ err (body_too_large limit seen)
      → (limit ≡ max) × (seen ≤ max) × (max < length (payload body))
  collect_body_with_cap_too_large body limit seen h =
      let (e, s, k) = read_too_large body [] limit seen (omega arith) h in (e, s, omega arith)

-- The two loops are one: that of HTTP/3 reads the frames of a body of hyper as that of hyper does,
-- for every cap.
pub collect_mhc_body_with_cap-map :
    (max : ℕ) (body : List (Polled Text)) (buf : Text)
    → collect_mhc_body_with_cap max buf (map reported body) ≡ collect_body_with_cap max buf body
unfolding collect_body_with_cap collect_mhc_body_with_cap
collect_mhc_body_with_cap-map max [] buf = refl
collect_mhc_body_with_cap-map max (frame (data_frame bytes) ∷ body) buf =
    rw (collect_mhc_body_with_cap-map max body (buf ++ bytes))
collect_mhc_body_with_cap-map max (frame other_frame ∷ body) buf =
    collect_mhc_body_with_cap-map max body buf
collect_mhc_body_with_cap-map max (failed e ∷ body) buf = refl

module _ {M : Type 0} (http : Http M) (codecs : Codecs) where
  -- To read a response whole is to take its body as a stream, collect the data frames of that up to
  -- the cap, and decode them by `Content-Encoding`; both refuse a body that was taken.
  pub bytes_with_cap-into_body :
      (max : ℕ) (response : Response M)
      → bytes_with_cap http codecs max response ≡ (
          into_body response
          >>= (λ body. collect_mhc_body_with_cap max [] body)
          >>= decompress codecs
              (and_then (http.get response.headers (codes "content-encoding")) http.to_str))
  unfolding bytes_with_cap into_body
  bytes_with_cap-into_body max response = by_body response.body
    where
      decoded_by : Text → Result Text
      decoded_by =
          decompress codecs
            (and_then (http.get response.headers (codes "content-encoding")) http.to_str)

      by_body :
          (body : Option ResponseBody)
          → (raw_body max body >>= decoded_by)
            ≡ (stream_of body >>= (λ b. collect_mhc_body_with_cap max [] b) >>= decoded_by)
      by_body none = refl
      by_body (some (h3 body)) = refl
      by_body (some (hyper body)) = rw (collect_mhc_body_with_cap-map max body []) refl
