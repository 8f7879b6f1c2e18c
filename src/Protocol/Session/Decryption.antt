-- ===== src/Protocol/Session/Decryption.antt =====
-- The decryptions of protocol/src/session.rs: of a session's envelope, of a sealed one, and of a sealed
-- one whose sender's identity is checked.
use parda.Base.{ℕ, none, some, String, Bytes, not, if◌then◌else◌}
use parda.Result.{ok, err, map_err}
use parda.Protocol.Error.{ProtoResult, signal, malformed_sealed_sender, sealed_sender_auth}
use parda.Protocol.Envelope.{
  MessageEnvelope, pre_key, ratchet, sealed_sender_type, validate_version, is_sealed_type,
}
use parda.Protocol.Store.{get_identity}
use parda.Protocol.Trust.{TrustStore, Hkdf, check_identity}
use parda.Protocol.Session.{
  ProtocolAddress, CiphertextMessage, SealedSenderPlaintext, Signal, SessionManager, local_identity,
  identity_error,
}

module _ {Bundle Certificate : Type 0} (lib : Signal Bundle Certificate) where
  -- the message that an envelope's type says its ciphertext is
  unfoldable pub ciphertext_of : MessageEnvelope → ProtoResult CiphertextMessage
  ciphertext_of envelope = elim envelope.envelope_type [
    | pre_key ↦ map_err signal (lib.parse_pre_key envelope.ciphertext)
    | ratchet ↦ map_err signal (lib.parse_signal envelope.ciphertext)
    | sealed_sender_type ↦
        err (malformed_sealed_sender "sealed-sender envelopes must be decrypted via decrypt_sealed")
  ]

  unfoldable pub decrypt : MessageEnvelope → SessionManager → ProtoResult Bytes × SessionManager
  unfolding ciphertext_of
  decrypt envelope m = elim (validate_version envelope) [
    | err e ↦ (err e, m)
    | ok u ↦ elim (ciphertext_of envelope) [
      | err e ↦ (err e, m)
      | ok ciphertext ↦
          let sender : ProtocolAddress = record { name = envelope.sender_id; device_id = 1 } in
          let (result, store) = lib.message_decrypt ciphertext sender m.store in
          (map_err signal result, record m { store = store })
    ]
  ]

  unfoldable pub decrypt_sealed :
      MessageEnvelope
      → Bytes
      → String
      → ℕ
      → ℕ
      → SessionManager
      → ProtoResult SealedSenderPlaintext × SessionManager
  decrypt_sealed envelope trust_root local_uuid local_device_id now_ms m =
      elim (validate_version envelope) [
        | err e ↦ (err e, m)
        | ok u ↦
            if not (is_sealed_type envelope.envelope_type)
            then (
              err (malformed_sealed_sender "decrypt_sealed requires envelope_type = SealedSender"),
              m,
            )
            else let (result, store) =
                lib.sealed_sender_decrypt envelope.ciphertext trust_root now_ms local_uuid
                  local_device_id m.store in
              (map_err signal result, record m { store = store })
      ]

  -- the check of the identity that the store now has for the sender
  unfoldable pub checked_sender :
      Hkdf
      → TrustStore
      → String
      → Bytes
      → ProtoResult SealedSenderPlaintext × SessionManager
      → ProtoResult SealedSenderPlaintext
  checked_sender hkdf trust_store peer_id local_key (err e, m) = err e
  checked_sender hkdf trust_store peer_id local_key (ok result, m) =
      let sender : ProtocolAddress = record {
        name = result.sender_uuid;
        device_id = result.device_id;
      } in
      elim (get_identity (lib.shown sender) m.store) [
        | none ↦ err (sealed_sender_auth "no identity key recorded for authenticated sender")
        | some remote_identity ↦
            elim (check_identity hkdf trust_store peer_id local_key remote_identity) [
              | err e ↦ err (identity_error e)
              | ok u ↦ ok result
            ]
      ]

  unfoldable pub decrypt_sealed_verified :
      Hkdf
      → MessageEnvelope
      → Bytes
      → String
      → ℕ
      → TrustStore
      → String
      → ℕ
      → SessionManager
      → ProtoResult SealedSenderPlaintext × SessionManager
  unfolding decrypt_sealed checked_sender
  decrypt_sealed_verified hkdf envelope trust_root local_uuid local_device_id trust_store peer_id
        now_ms m =
      elim (local_identity lib m) [
        | err e ↦ (err e, m)
        | ok pair ↦
            let decrypted =
              decrypt_sealed envelope trust_root local_uuid local_device_id now_ms m in
            (checked_sender hkdf trust_store peer_id pair.identity_key decrypted, decrypted.1)
      ]
