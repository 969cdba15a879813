-- ===== src/Request/Builder/Ops.antt =====
-- Chains of builder calls, and the errors that they defer to `send`.
use mechanics_http_client.Prelude.{
  ℕ, ◌≡◌, refl, ap, ◌∙◌, Option, none, some, List, [], ◌∷◌, ◌++◌, arith, or,
}
use mechanics_http_client.Text.{Text, codes}
use mechanics_http_client.Error.{Error, invalid_header, serialize_json}
use mechanics_http_client.Http.{Fallible, success, failure, Http}
use mechanics_http_client.Request.Builder.{
  RequestBuilder, header, bearer_auth, json, timeout, body, body_streaming,
}

-- A call on a builder. The values that the caller's conversions gave are in it.
pub data Op : Type 0 where
  header_op : Option Text → Option Text → Op
  bearer_auth_op : Text → Op
  timeout_op : ℕ → Op
  body_op : Text → Op
  body_streaming_op : ℕ → Op
  json_op : Fallible Text → Op

abbrev header_error : Option Text → Option Text → Option Error
header_error none value = some (invalid_header (codes "header name rejected"))
header_error (some name) none =
    some (invalid_header (codes "header `" ++ (name ++ codes "` value rejected")))
header_error (some name) (some value) = none

module _ {M : Type 0} (http : Http M) where
  abbrev pub apply : Op → RequestBuilder M → RequestBuilder M
  apply (header_op name value) b = header http name value b
  apply (bearer_auth_op token) b = bearer_auth http token b
  apply (timeout_op d) b = timeout d b
  apply (body_op bytes) b = body bytes b
  apply (body_streaming_op stream) b = body_streaming stream b
  apply (json_op value) b = json http value b

  abbrev pub chain : List Op → RequestBuilder M → RequestBuilder M
  chain [] b = b
  chain (op ∷ ops) b = chain ops (apply op b)

  -- The error of one call, by its arguments alone.
  abbrev pub error_of : Op → Option Error
  error_of (header_op name value) = header_error name value
  error_of (bearer_auth_op token) =
      header_error (some (codes "authorization")) (http.header_value (codes "Bearer " ++ token))
  error_of (json_op (failure e)) = some (serialize_json e)
  error_of _ = none

  abbrev pub first_error : List Op → Option Error
  first_error [] = none
  first_error (op ∷ ops) = or (error_of op) (first_error ops)

or_assoc : {A : Type 0} (a b c : Option A) → or (or a b) c ≡ or a (or b c)
or_assoc none b c = refl
or_assoc (some x) b c = refl

module _ {M : Type 0} (http : Http M) where
  deferred_header :
      (name value : Option Text) (b : RequestBuilder M)
      → (header http name value b).deferred_error ≡ or b.deferred_error (header_error name value)
  unfolding header
  deferred_header none value b = refl
  deferred_header (some name) none b = refl
  deferred_header (some name) (some value) b = ground arith

  deferred-apply :
      (op : Op) (b : RequestBuilder M)
      → (apply http op b).deferred_error ≡ or b.deferred_error (error_of http op)
  unfolding timeout body body_streaming json bearer_auth
  deferred-apply (header_op name value) b = deferred_header name value b
  deferred-apply (bearer_auth_op token) b =
      deferred_header (some (codes "authorization")) (http.header_value (codes "Bearer " ++ token))
        b
  deferred-apply (timeout_op d) b = ground arith
  deferred-apply (body_op bytes) b = ground arith
  deferred-apply (body_streaming_op stream) b = ground arith
  deferred-apply (json_op (success bytes)) b = ground arith
  deferred-apply (json_op (failure e)) b = refl

  -- A chain of calls defers the first error of its calls, unless the builder had one before.
  pub deferred-chain :
      (ops : List Op) (b : RequestBuilder M)
      → (chain http ops b).deferred_error ≡ or b.deferred_error (first_error http ops)
  deferred-chain [] b = ground arith
  deferred-chain (op ∷ ops) b =
      deferred-chain ops (apply http op b)
      ∙ ap (λ e. or e (first_error http ops)) (deferred-apply op b)
      ∙ or_assoc b.deferred_error (error_of http op) (first_error http ops)

  uri-apply : (op : Op) (b : RequestBuilder M) → (apply http op b).uri ≡ b.uri
  unfolding header timeout body body_streaming json bearer_auth
  uri-apply (header_op none value) b = refl
  uri-apply (header_op (some name) none) b = refl
  uri-apply (header_op (some name) (some value)) b = refl
  uri-apply (bearer_auth_op token) b = ground arith
  uri-apply (timeout_op d) b = refl
  uri-apply (body_op bytes) b = refl
  uri-apply (body_streaming_op stream) b = refl
  uri-apply (json_op (success bytes)) b = refl
  uri-apply (json_op (failure e)) b = refl

  pub uri-chain : (ops : List Op) (b : RequestBuilder M) → (chain http ops b).uri ≡ b.uri
  uri-chain [] b = refl
  uri-chain (op ∷ ops) b = uri-chain ops (apply http op b) ∙ uri-apply op b
