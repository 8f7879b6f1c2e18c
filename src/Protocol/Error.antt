-- ===== src/Protocol/Error.antt =====
-- protocol/src/error.rs. A message's interpolated values are dropped from its text;
-- the digits of a fingerprint are their bytes.
use parda.Base.{ℕ, String, Bytes}
use parda.Result.{Result}

pub data PardaError : Type 0 where
  signal key_generation session_not_found invalid_bundle codec : String → PardaError
  transport store : String → PardaError
  unsupported_envelope_version : (got max_supported : ℕ) → PardaError
  malformed_sealed_sender sealed_sender_auth mix_routing : String → PardaError
  self_destruct_expired : PardaError
  clock_rollback_detected : (observed_ms watermark_ms : ℕ) → PardaError
  self_destruct_crypto : String → PardaError
  identity_key_changed_after_verification :
      (peer_id : String) (verified_fingerprint observed_fingerprint : Bytes) → PardaError
  internal : String → PardaError

abbrev pub ProtoResult {ℓ} : Type ℓ → Type ℓ
ProtoResult A = Result PardaError A
