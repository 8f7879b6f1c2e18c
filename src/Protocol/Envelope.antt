-- ===== src/Protocol/Envelope.antt =====
-- protocol/src/envelope.rs: the wire envelope and its version rules. Identifiers are texts, a
-- `u64` is a number whose additions wrap (a release build).
pub mod Version
use Prim.Native.Nat.{◌^◌}
use parda.Base.{
  ℕ, ◌+◌, ◌%◌, String, Bool, true, false, ◌&&◌, Option, none, some, Bytes, ltb, not, if◌then◌else◌,
}
use parda.Result.{Result, ok, err}
use parda.Protocol.Error.{
  PardaError, ProtoResult, unsupported_envelope_version, malformed_sealed_sender,
}

abbrev pub envelope_version_v1 : ℕ
envelope_version_v1 = 1

abbrev pub envelope_version_v2 : ℕ
envelope_version_v2 = 2

abbrev pub max_supported_envelope_version : ℕ
max_supported_envelope_version = envelope_version_v2

abbrev pub u64_mod : ℕ
u64_mod = 2 ^ 64

abbrev pub i64_half : ℕ
i64_half = 2 ^ 63

-- `ms as i64`, as its place in the order of the signed integers
abbrev pub signed_order : ℕ → ℕ
signed_order ms = (ms + i64_half) % u64_mod

pub data EnvelopeType : Type 0 where
  pre_key ratchet sealed_sender_type : EnvelopeType

abbrev pub is_sealed_type : EnvelopeType → Bool
is_sealed_type pre_key = false
is_sealed_type ratchet = false
is_sealed_type sealed_sender_type = true

pub record MessageEnvelope : Type 0 where
  pub sender_id : String
  pub recipient_id : String
  pub ciphertext : Bytes
  pub envelope_type : EnvelopeType
  pub timestamp_ms : ℕ
  pub version : ℕ
  pub sealed_sender : Bool
  pub routing_hint : Option Bytes
  pub self_destruct_at : Option ℕ
  pub read_triggered_destruct : Bool
  pub dead_drop_address : Option Bytes

unfoldable pub validate_version : MessageEnvelope → ProtoResult (Unit {0})
validate_version e =
    if ltb max_supported_envelope_version e.version
    then err (unsupported_envelope_version e.version max_supported_envelope_version)
    else if e.sealed_sender && ltb e.version envelope_version_v2
    then err (malformed_sealed_sender "sealed_sender = true is not valid on a version-1 envelope")
    else if e.sealed_sender && not (is_sealed_type e.envelope_type)
    then err (malformed_sealed_sender "sealed_sender = true requires envelope_type = SealedSender")
    else if not e.sealed_sender && is_sealed_type e.envelope_type
    then err (malformed_sealed_sender "envelope_type = SealedSender requires sealed_sender = true")
    else ok tt

-- `expiry_window` is a `Duration` in milliseconds, `as_millis() as u64`.
unfoldable pub with_self_destruct : ℕ → MessageEnvelope → MessageEnvelope
with_self_destruct expiry_window e = record e {
  self_destruct_at = some ((e.timestamp_ms + expiry_window % u64_mod) % u64_mod);
}

unfoldable pub with_read_triggered_destruct : MessageEnvelope → MessageEnvelope
with_read_triggered_destruct e = record e { read_triggered_destruct = true }
