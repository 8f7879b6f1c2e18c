-- ===== src/Gateway/Routes.antt =====
-- gateway/src/lib.rs and routes.rs: the routes, the security layer in front of them and the calls
-- they make of the relay. The relay behind the HTTP client is a parameter, over a state of its own.
pub mod Serve
use parda.Base.{
  ℕ, Bool, true, false, ◌&&◌, ◌≡◌, ◌↔◌, refl, arith, Option, none, some, List, [], ◌∷◌, ◌++◌,
  String, Bytes, bytes_key, bytes_beq_iff, leb, ltb, if◌then◌else◌, contains, Bool-cases,
  Option-cases, inl, inr,
}
use parda.Result.{Result, ok, err}
use parda.Gateway.Limiter.{try_acquire}
use parda.Gateway.Auth.{
  ApiSecurity, Caller, Refusal, invalid_api_key, missing_header, rate_limited, auth_enabled,
  presented, address_bucket, key_prefix, api_security_middleware, bucket_key_lem,
}

pub data Method : Type 0 where
  post : Method
  get : Method
  delete : Method

-- A request to the relay: the path's segments after the base URL.
pub record RelayRequest : Type 0 where
  pub method : Method
  pub path : List String
  pub body : Option Bytes

-- The answer's status, and its body if it can be read.
pub record RelayAnswer : Type 0 where
  pub status : ℕ
  pub body : Option Bytes

-- `reqwest::Error`
pub data RelayFailure : Type 0 where
  unreachable : RelayFailure

pub data Route : Type 0 where
  health : Route
  upload_prekey_bundle : String → Bytes → Route
  get_prekey_bundle : String → Route
  submit_message : String → Bytes → Route
  fetch_messages : String → Route
  delete_message : String → String → Route

pub data Body : Type 0 where
  service_ok : Body
  relay_error : Body
  refused : Refusal → Body
  passed_on : Bytes → Body

abbrev pub bad_gateway : ℕ
bad_gateway = 502

-- `StatusCode::from_u16(…).unwrap_or(StatusCode::BAD_GATEWAY)`
pub status_of : ℕ → ℕ
status_of code = if leb 100 code && ltb code 1_000 then code else bad_gateway

-- `Bytes::default()`
abbrev pub unwrap_or_default : Option Bytes → Bytes
unwrap_or_default none = []
unwrap_or_default (some bytes) = bytes

-- The calls of the relay, one for each route but `health`; an uploaded bundle is given as the JSON
-- that the gateway prints of it.
unfoldable pub relay_request : Route → Option RelayRequest
relay_request health = none
relay_request (upload_prekey_bundle user_id bundle) =
    some (record { method = post; path = "v1" ∷ "keys" ∷ user_id ∷ []; body = some bundle })
relay_request (get_prekey_bundle user_id) =
    some (record { method = get; path = "v1" ∷ "keys" ∷ user_id ∷ []; body = none })
relay_request (submit_message recipient_id body) =
    some (record { method = post; path = "v1" ∷ "messages" ∷ recipient_id ∷ []; body = some body })
relay_request (fetch_messages user_id) =
    some (record { method = get; path = "v1" ∷ "messages" ∷ user_id ∷ []; body = none })
relay_request (delete_message user_id msg_id) =
    some (record { method = delete; path = "v1" ∷ "messages" ∷ user_id ∷ msg_id ∷ []; body = none })

abbrev pub refusal_status : Refusal → ℕ
refusal_status rate_limited = 429
refusal_status invalid_api_key = 401
refusal_status missing_header = 401

module _ (reprint : Option Bytes → Bytes) where
  -- `resp.json()` printed again, `{}` where it is no JSON, or the bytes as they are
  pub body_of : Route → Option Bytes → Bytes
  body_of (upload_prekey_bundle user_id bundle) body = reprint body
  body_of (get_prekey_bundle user_id) body = reprint body
  body_of health body = unwrap_or_default body
  body_of (submit_message recipient_id b) body = unwrap_or_default body
  body_of (fetch_messages user_id) body = unwrap_or_default body
  body_of (delete_message user_id msg_id) body = unwrap_or_default body

  pub answer_of : Route → Result RelayFailure RelayAnswer → ℕ × Body
  unfolding status_of body_of
  answer_of route (err e) = (bad_gateway, relay_error)
  answer_of route (ok answer) = (status_of answer.status, passed_on (body_of route answer.body))

  module _ {S : Type 0} (call : RelayRequest → S → Result RelayFailure RelayAnswer × S) where
    pub handle : Route → S → (ℕ × Body) × S
    unfolding relay_request answer_of
    handle route s = elim (relay_request route) [
      | none ↦ ((200, service_ok), s)
      | some request ↦ let (result, s') = call request s in (answer_of route result, s')
    ]

    -- `next.run(request)`, or the refusal
    unfoldable pub run :
        Route → S → Result Refusal (Unit {0}) × ApiSecurity → (ℕ × Body) × ApiSecurity × S
    unfolding handle
    run route s (err refusal, security) = ((refusal_status refusal, refused refusal), security, s)
    run route s (ok u, security) = let (answer, s') = handle route s in (answer, security, s')

    module _ (ct_eq : Bytes → Bytes → Bool) where
      -- a route behind the security layer
      pub secured : Route → Caller → ℕ → ApiSecurity → S → (ℕ × Body) × ApiSecurity × S
      unfolding run
      secured route caller now security s =
          run route s (api_security_middleware ct_eq caller now security)

      -- The router: `/health` outside the security layer, every other route behind it.
      pub serve : Route → Caller → ℕ → ApiSecurity → S → (ℕ × Body) × ApiSecurity × S
      unfolding secured
      serve health caller now security s =
          let (answer, s') = handle health s in (answer, security, s')
      serve route caller now security s = secured route caller now security s
