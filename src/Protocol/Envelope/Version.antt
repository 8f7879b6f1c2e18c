-- ===== src/Protocol/Envelope/Version.antt =====
-- What an accepted envelope is: the rules of `validate_version` as one equivalence.
use parda.Base.{◌≤◌, ◌≡◌, ◌≢◌, ◌↔◌, ◌⊎◌, true, false, arith}
use parda.Result.{ok}
use parda.Protocol.Envelope.{MessageEnvelope, sealed_sender_type, validate_version}

-- The sealed-sender flag and the envelope type agree, and only a version-2 envelope is sealed.
abbrev pub IsWellFormed : MessageEnvelope → Type 0
IsWellFormed e =
    (e.version ≤ 2)
    × ((e.sealed_sender ≡ true) × (e.envelope_type ≡ sealed_sender_type) × (e.version ≡ 2)
        ⊎ (e.sealed_sender ≡ false) × (e.envelope_type ≢ sealed_sender_type))

-- `validate_version` accepts an envelope exactly when its version is at most 2 and either the
-- envelope is sealed, of the sealed type and of version 2, or it is neither sealed nor of that type.
pub validate_version_iff : (e : MessageEnvelope) → (validate_version e ≡ ok tt) ↔ IsWellFormed e
unfolding validate_version
validate_version_iff e = ground arith
