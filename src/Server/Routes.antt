-- ===== src/Server/Routes.antt =====
-- server/src/routes.rs: the relay's HTTP handlers, as functions of the tables. The fresh UUID and
-- the clock are arguments; a handler that panics is `none`.
pub mod Delivery
use parda.Base.{
  ℕ, Bool, true, false, Option, none, some, List, [], String, Bytes, not, if◌then◌else◌, ◌==◌,
  string_key,
}
use parda.Result.{Result, ok, err}
use parda.Protocol.Envelope.{MessageEnvelope}
use parda.Protocol.Mixnet.{PullRequest}
use parda.Server.Store.{
  RelayStore, StoredEnvelope, PreKeyBundleJson, put_bundle, get_bundle, enqueue, drain, stage_pull,
  fetch_pull, delete_message, sender_cert_ttl,
}

pub data StatusCode : Type 0 where
  success : StatusCode
  created : StatusCode
  accepted : StatusCode
  bad_request : StatusCode
  not_found : StatusCode
  internal_server_error : StatusCode

-- The JSON bodies; `issue_failed` is the error "failed to issue certificate: …".
pub data Body : Type 0 where
  api_ok : Option String → Body
  error : String → Body
  issue_failed : String → Body
  message_id : String → Body
  messages : List StoredEnvelope → Body
  bundle : PreKeyBundleJson → Body
  sender_certificate : String → Body

abbrev pub Response : Type 0
Response = StatusCode × Body

pub record IssueSenderCertRequest : Type 0 where
  pub identity_key : String
  pub device_id : ℕ
  pub ttl_secs : ℕ

unfoldable pub upload_prekey_bundle : String → PreKeyBundleJson → RelayStore → Response × RelayStore
upload_prekey_bundle user_id b s =
    ((success, api_ok (some "bundle stored")), put_bundle user_id b s)

unfoldable pub get_prekey_bundle : String → RelayStore → Response
get_prekey_bundle user_id s = elim (get_bundle user_id s) [
  | some b ↦ (success, bundle b)
  | none ↦ (not_found, error "no prekey bundle found for user")
]

unfoldable pub submit_message :
    String → String → MessageEnvelope → RelayStore → Option (Response × RelayStore)
submit_message uuid recipient_id envelope s =
    if not (envelope.recipient_id == recipient_id)
    then some
        ((bad_request, error "recipient_id path param does not match envelope.recipient_id"), s)
    else elim (enqueue recipient_id (record { id = uuid; envelope = envelope }) s) [
      | some s' ↦ some ((created, message_id uuid), s')
      | none ↦ none
    ]

unfoldable pub fetch_messages : String → RelayStore → Response × RelayStore
fetch_messages user_id s =
    let (envelopes, s') = drain user_id s in ((success, messages envelopes), s')

pub stage_pull_route : PullRequest → ℕ → RelayStore → Response × RelayStore
stage_pull_route request now_ms s =
    ((accepted, api_ok none), stage_pull request.recipient_id request.rendezvous_token now_ms s)

abbrev pub unwrap_or_default : Option (List StoredEnvelope) → List StoredEnvelope
unwrap_or_default none = []
unwrap_or_default (some envelopes) = envelopes

pub fetch_pull_route : String → RelayStore → Response × RelayStore
fetch_pull_route rendezvous_token s =
    let (found, s') = fetch_pull rendezvous_token s in
    ((success, messages (unwrap_or_default found)), s')

pub delete_message_route : String → String → RelayStore → Response × RelayStore
delete_message_route user_id msg_id s =
    let (deleted, s') = delete_message user_id msg_id s in
    if deleted
    then ((success, api_ok none), s')
    else ((not_found, api_ok (some "message not found")), s')

-- The certificate authority, libsignal's keys and base64.
pub record Authority (Key Certificate : Type 0) : Type 0 where
  pub decode : String → Option Bytes
  pub public_key : Bytes → Option Key
  pub issue : String → Key → ℕ → ℕ → Result String Certificate
  pub serialized : Certificate → Option Bytes
  pub encode : Bytes → String

module _ {Key Certificate : Type 0} (ca : Authority Key Certificate) where
  unfoldable pub certificate_response : Result String Certificate → Response
  certificate_response (err e) = (internal_server_error, issue_failed e)
  certificate_response (ok cert) = elim (ca.serialized cert) [
    | none ↦ (internal_server_error, error "failed to serialise certificate")
    | some bytes ↦ (success, sender_certificate (ca.encode bytes))
  ]

  unfoldable pub issue_sender_certificate : String → IssueSenderCertRequest → Response
  issue_sender_certificate user_id req = elim (ca.decode req.identity_key) [
    | none ↦ (bad_request, error "identity_key is not valid base64")
    | some bytes ↦ elim (ca.public_key bytes) [
      | none ↦ (bad_request, error "identity_key is not a valid public key")
      | some key ↦
          certificate_response (ca.issue user_id key req.device_id (sender_cert_ttl req.ttl_secs))
    ]
  ]
