-- ===== src/Protocol/Session.antt =====
-- protocol/src/session.rs: sessions over libsignal, which is a parameter that reads and changes the
-- store; its random choices are its own. The clock is an argument.
pub mod Decryption
pub mod Envelopes
pub mod Verified
use parda.Base.{ℕ, Bool, true, false, Option, none, some, String, Bytes, not, if◌then◌else◌}
use parda.Result.{Result, ok, err, map_err, ok_or}
use parda.Protocol.Error.{
  PardaError, ProtoResult, signal, malformed_sealed_sender, sealed_sender_auth,
  identity_key_changed_after_verification,
}
use parda.Protocol.Envelope.{
  MessageEnvelope, EnvelopeType, pre_key, ratchet, sealed_sender_type, envelope_version_v2,
  validate_version, is_sealed_type,
}
use parda.Protocol.Store.{
  StoreState, SignalError, SessionBurnResult, burn_session, get_identity_key_pair, get_identity,
  IdentityKeyPair,
}
use parda.Protocol.Trust.{TrustStore, Hkdf, IdentityKeyChanged, check_identity}

pub record ProtocolAddress : Type 0 where
  pub name : String
  pub device_id : ℕ

pub data CiphertextMessage : Type 0 where
  pre_key_signal_message signal_message other_message : Bytes → CiphertextMessage

pub record SealedSenderPlaintext : Type 0 where
  pub sender_uuid : String
  pub device_id : ℕ
  pub plaintext : Bytes

-- What the source calls of libsignal. `shown` is an address's text, and the errors are texts.
pub record Signal (Bundle Certificate : Type 0) : Type 0 where
  pub shown : ProtocolAddress → String
  pub describe : SignalError → String
  pub identity_key : Bundle → Result String Bytes
  pub process_prekey_bundle :
      ProtocolAddress → Bundle → ℕ → StoreState → Result String (Unit {0}) × StoreState
  pub message_encrypt :
      Bytes → ProtocolAddress → ℕ → StoreState → Result String CiphertextMessage × StoreState
  pub serialize : CiphertextMessage → Bytes
  pub sealed_sender_encrypt :
      ProtocolAddress → Certificate → Bytes → ℕ → StoreState → Result String Bytes × StoreState
  pub parse_pre_key : Bytes → Result String CiphertextMessage
  pub parse_signal : Bytes → Result String CiphertextMessage
  pub message_decrypt :
      CiphertextMessage → ProtocolAddress → StoreState → Result String Bytes × StoreState
  pub sealed_sender_decrypt :
      Bytes → Bytes → ℕ → String → ℕ → StoreState → Result String SealedSenderPlaintext × StoreState

pub record SessionManager : Type 0 where
  pub local_address : ProtocolAddress
  pub store : StoreState

abbrev pub new : ProtocolAddress → StoreState → SessionManager
new local_address store = record { local_address = local_address; store = store }

abbrev pub type_of : CiphertextMessage → EnvelopeType
type_of (pre_key_signal_message bytes) = pre_key
type_of (signal_message bytes) = ratchet
type_of (other_message bytes) = ratchet

abbrev pub identity_error : IdentityKeyChanged → PardaError
identity_error e =
    identity_key_changed_after_verification e.peer_id e.verified_digits e.observed_digits

module _ {Bundle Certificate : Type 0} (lib : Signal Bundle Certificate) where
  pub burn_conversation : ProtocolAddress → SessionManager → SessionBurnResult × SessionManager
  burn_conversation remote m =
      let (result, store) = burn_session (lib.shown remote) m.store in
      (result, record m { store = store })

  pub initiate_session :
      ProtocolAddress → Bundle → ℕ → SessionManager → ProtoResult (Unit {0}) × SessionManager
  initiate_session remote bundle now m =
      let (result, store) = lib.process_prekey_bundle remote bundle now m.store in
      (map_err signal result, record m { store = store })

  -- the two keys that a verified call compares
  abbrev pub local_identity : SessionManager → ProtoResult IdentityKeyPair
  local_identity m = map_err (λ e. signal (lib.describe e)) (get_identity_key_pair m.store)

  pub initiate_session_verified :
      Hkdf
      → ProtocolAddress
      → Bundle
      → TrustStore
      → String
      → ℕ
      → SessionManager
      → ProtoResult (Unit {0}) × SessionManager
  unfolding initiate_session
  initiate_session_verified hkdf remote bundle trust_store peer_id now m = elim (local_identity m) [
    | err e ↦ (err e, m)
    | ok pair ↦ elim (lib.identity_key bundle) [
      | err e ↦ (err (signal e), m)
      | ok remote_identity ↦
          elim (check_identity hkdf trust_store peer_id pair.identity_key remote_identity) [
            | err e ↦ (err (identity_error e), m)
            | ok u ↦ initiate_session remote bundle now m
          ]
    ]
  ]

  abbrev pub envelope_of :
      ProtocolAddress → ℕ → SessionManager → CiphertextMessage → MessageEnvelope
  envelope_of remote now_ms m ciphertext = record {
    sender_id = m.local_address.name;
    recipient_id = remote.name;
    ciphertext = lib.serialize ciphertext;
    envelope_type = type_of ciphertext;
    timestamp_ms = now_ms;
    version = envelope_version_v2;
    sealed_sender = false;
    routing_hint = none;
    self_destruct_at = none;
    read_triggered_destruct = false;
    dead_drop_address = none;
  }

  pub encrypt :
      ProtocolAddress → Bytes → ℕ → SessionManager → ProtoResult MessageEnvelope × SessionManager
  encrypt remote plaintext now_ms m =
      let (result, store) = lib.message_encrypt plaintext remote now_ms m.store in
      (
        elim result [
          | err e ↦ err (signal e)
          | ok ciphertext ↦ ok (envelope_of remote now_ms m ciphertext)
        ],
        record m { store = store },
      )

  abbrev pub sealed_envelope : ProtocolAddress → ℕ → Bytes → MessageEnvelope
  sealed_envelope remote now_ms sealed_bytes = record {
    sender_id = "";
    recipient_id = remote.name;
    ciphertext = sealed_bytes;
    envelope_type = sealed_sender_type;
    timestamp_ms = now_ms;
    version = envelope_version_v2;
    sealed_sender = true;
    routing_hint = none;
    self_destruct_at = none;
    read_triggered_destruct = false;
    dead_drop_address = none;
  }

  pub encrypt_sealed :
      ProtocolAddress
      → Bytes
      → Certificate
      → ℕ
      → SessionManager
      → ProtoResult MessageEnvelope × SessionManager
  encrypt_sealed remote plaintext sender_cert now_ms m =
      let (result, store) = lib.sealed_sender_encrypt remote sender_cert plaintext now_ms m.store in
      (
        elim result [
          | err e ↦ err (signal e)
          | ok sealed_bytes ↦ ok (sealed_envelope remote now_ms sealed_bytes)
        ],
        record m { store = store },
      )
