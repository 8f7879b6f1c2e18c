-- ===== src/Mesh/Deadline.antt =====
-- How long a carrier keeps the bundle of a message that destroys itself.
use parda.Base.{
  length, ◌≢◌, ℕ, ◌+◌, ◌-◌, ◌<◌, ◌≤◌, ◌≡◌, refl, ap, ◌↔◌, ◌∙◌, true, false, Option, none, some,
  arith, Bytes, bytes_key, bytes_beq_iff, inl, inr,
}
use parda.HashMap.{lookup, contains_key}
use parda.Result.{ok, is_ok}
use parda.Protocol.Envelope.{MessageEnvelope, u64_mod}
use parda.Mesh.Bundle.{Codec, wrap, expiry_ms}
use parda.Mesh.Bundle.Lifetime.{CodecLaws, wrap-decodes, expiry_ms-wrap}
use parda.Mesh.Relay.{StoredBundle, MeshRelayAgent, admit_checked, sweep_expired}
use parda.Mesh.Relay.Invariant.{IsValid, admit_checked-IsValid}
use parda.Mesh.Relay.Admission.{Room, admit_checked_iff, admit_checked_effect}
use parda.Mesh.Relay.Contents.{lookup-sweep_expired}

module _ (c : Codec) (laws : CodecLaws c) (sha256 : Bytes → Bytes) where
  -- When a relay that does not hold the framed bytes accepts them.
  accepted_iff :
      (framed_ms expiry at_ms : ℕ) (e : MessageEnvelope) (address bytes : Bytes) (budget : Option ℕ)
      (a : MeshRelayAgent)
      → length address ≡ 32
      → wrap c framed_ms e address ≡ ok bytes
      → expiry_ms c bytes ≡ ok expiry
      → contains_key (sha256 bytes) a.store.by_hash ≡ false
      → ((admit_checked c sha256 at_ms bytes budget a).0 ≡ ok tt)
        ↔ (at_ms < expiry) × (budget ≢ some 0) × Room a bytes
  accepted_iff framed_ms expiry at_ms e address bytes budget a sized framed expires fresh =
      let (only_if, if_) = admit_checked_iff c sha256 at_ms bytes budget a in
      let (bundle, decoded, at) = wrap-decodes c laws framed_ms e address bytes sized framed in
      let b : StoredBundle = record { bytes = bytes; address = address; expiry_ms = expiry } in
      (
        λ o.
            let (b', arrived, admitted) = only_if o in
            let lives : b'.expiry_ms ≡ expiry = cc (arrived.0.3, expires) in
            elim admitted [
              | inl held ↦ absurd (ground (arith, held, fresh))
              | inr (left, room) ↦ (omega (arith, arrived.1, lives), left, room)
            ],
        λ (early, left, room).
            if_ (b, ((bundle, decoded, at, expires), early, refl), inr (left, room)),
      )

  -- Where the codecs read back what they wrote, the address has 32 bytes and the sum of framing time
  -- and deadline fits 64 bits, the bundle framed of a message with a deadline expires at the framing
  -- time plus what the envelope's own timestamp leaves to the deadline: a well-formed relay to which
  -- its hash is new accepts it exactly if it is offered before that time, the session's budget is not
  -- used up and both caps leave room, and is unchanged otherwise; and once accepted it is gone after a
  -- sweep exactly if the sweep is at that time or later.
  pub sweep_expired-wrap :
      (framed_ms deadline at_ms sweep_ms : ℕ) (e : MessageEnvelope) (address bytes : Bytes)
      (budget : Option ℕ) (a : MeshRelayAgent)
      → e.self_destruct_at ≡ some deadline
      → framed_ms + deadline < u64_mod
      → length address ≡ 32
      → wrap c framed_ms e address ≡ ok bytes
      → IsValid sha256 a
      → contains_key (sha256 bytes) a.store.by_hash ≡ false
      → let expiry = framed_ms + (deadline - e.timestamp_ms) in
        let (r, a') = admit_checked c sha256 at_ms bytes budget a in
        ((r ≡ ok tt) ↔ (at_ms < expiry) × (budget ≢ some 0) × Room a bytes)
        × (is_ok r ≡ false → a' ≡ a)
        × (is_ok r ≡ true
            → (lookup (sha256 bytes) (sweep_expired sweep_ms a').store.by_hash ≡ none)
              ↔ expiry ≤ sweep_ms)
  sweep_expired-wrap framed_ms deadline at_ms sweep_ms e address bytes budget a d bound sized framed
        v fresh =
      let expiry = framed_ms + (deadline - e.timestamp_ms) in
      let expires = expiry_ms-wrap c laws framed_ms deadline e address bytes d bound framed in
      let a' = (admit_checked c sha256 at_ms bytes budget a).1 in
      let v' = admit_checked-IsValid c sha256 at_ms bytes budget a v in
      let swept = lookup-sweep_expired sha256 sweep_ms (sha256 bytes) a' v' in
      let accepts =
        accepted_iff framed_ms expiry at_ms e address bytes budget a sized framed expires fresh in
      elim (admit_checked_effect c sha256 at_ms bytes budget a) [
        | inl (same, held) ↦ (accepts, λ h. same, λ o. absurd (ground (arith, held, o)))
        | inr (accepted, _, (b, arrived, looks, _)) ↦
            let lives : b.expiry_ms ≡ expiry = cc (arrived.0.3, expires) in
            let stored : lookup (sha256 bytes) a'.store.by_hash ≡ some b =
              looks (sha256 bytes) ∙ ground (arith, bytes_beq_iff (sha256 bytes) (sha256 bytes)) in
            (
              accepts,
              λ h. absurd (ground (arith, h, ap is_ok accepted)),
              λ o. ground (arith, swept, stored, lives),
            )
      ]
