-- ===== src/Mesh/Transport/Send.antt =====
-- Sending: only an envelope without identities leaves, and the counter moves on success only.
use parda.Base.{
  ℕ, ◌+◌, ◌%◌, ◌≡◌, ◌↔◌, refl, ap, true, false, none, some, arith, Bytes, string_key, eq_iff,
  Option-cases, inl, inr, Bool-cases,
}
use parda.Result.{ok, err, is_ok, Result-cases}
use parda.Protocol.Envelope.{MessageEnvelope, u64_mod}
use parda.Mesh.Bundle.{Codec, wrap}
use parda.Mesh.Error.{MeshError}
use parda.Mesh.Relay.{MeshRelayAgent, admit}
use parda.Mesh.Relay.Admission.{admit_checked_effect}
use parda.Mesh.Transport.{MeshTransport, send, reveals_identity, advance_send_counter}

module _ (c : Codec) (sha256 : Bytes → Bytes) where
  -- What a successful sending needs and does.
  pub record Sent (framed_ms now_ms : ℕ) (envelope : MessageEnvelope) (t t' : MeshTransport)
      : Type 0 where
    pub sealed : envelope.sealed_sender ≡ true
    pub no_sender : envelope.sender_id ≡ ""
    pub no_recipient : envelope.recipient_id ≡ ""
    pub address : Bytes
    pub addressed : envelope.dead_drop_address ≡ some address
    pub bytes : Bytes
    pub framed : wrap c framed_ms envelope address ≡ ok bytes
    pub admitted : admit c sha256 now_ms bytes t.relay ≡ (ok tt, t'.relay)
    pub counted : t'.send_counter ≡ (t.send_counter + 1) % u64_mod

  admit_failed :
      (now_ms : ℕ) (bytes : Bytes) (a : MeshRelayAgent) (e : MeshError)
      → (admit c sha256 now_ms bytes a).0 ≡ err e
      → (admit c sha256 now_ms bytes a).1 ≡ a
  unfolding admit
  admit_failed now_ms bytes a e h =
      ground (arith, admit_checked_effect c sha256 now_ms bytes none a)

  admit_done :
      (now_ms : ℕ) (bytes : Bytes) (a : MeshRelayAgent) (u : Unit {0})
      → (admit c sha256 now_ms bytes a).0 ≡ ok u
      → admit c sha256 now_ms bytes a ≡ (ok tt, (admit c sha256 now_ms bytes a).1)
  admit_done now_ms bytes a u h = ap (λ r. (r, (admit c sha256 now_ms bytes a).1)) h

  -- A sending that succeeds had a sealed envelope without sender and recipient, framed it for its
  -- dead drop address, had the bundle admitted by the local relay and moved the counter by one; one
  -- that fails changes nothing, the counter and the relay included.
  pub send_lem :
      (framed_ms now_ms : ℕ) (envelope : MessageEnvelope) (t : MeshTransport)
      → let (r, t') = send c sha256 framed_ms now_ms envelope t in
        (is_ok r ≡ true → Sent framed_ms now_ms envelope t t') × (is_ok r ≡ false → t' ≡ t)
  unfolding send advance_send_counter
  send_lem framed_ms now_ms envelope t = elim (Bool-cases (reveals_identity envelope)) [
    | inl reveals ↦ rw (reveals, send) (λ h. cc, λ h. refl)
    | inr hides ↦ elim (Option-cases envelope.dead_drop_address) [
      | inl missing ↦ rw (hides, missing, send) (λ h. cc, λ h. refl)
      | inr (address, addressed) ↦ elim (Result-cases (wrap c framed_ms envelope address)) [
        | inl (e, unframed) ↦ rw (hides, addressed, unframed, send) (λ h. cc, λ h. refl)
        | inr (bytes, framed) ↦ elim (Result-cases (admit c sha256 now_ms bytes t.relay).0) [
          | inl (e, refused) ↦
              rw (hides, addressed, framed, refused, send)
                (
                  λ h. cc,
                  λ h.
                      ap (λ a. record t { relay = a })
                        (admit_failed now_ms bytes t.relay e refused),
                )
          | inr (u, accepted) ↦
              let a' = (admit c sha256 now_ms bytes t.relay).1 in
              let done : send c sha256 framed_ms now_ms envelope t
                  ≡ (ok u, advance_send_counter (record t { relay = a' })) =
                rw (hides, addressed, framed, accepted, send) refl in
              rw done (
                λ h. record {
                  sealed = ground arith;
                  no_sender = ground (arith, eq_iff envelope.sender_id "");
                  no_recipient = ground (arith, eq_iff envelope.recipient_id "");
                  address = address;
                  addressed = addressed;
                  bytes = bytes;
                  framed = framed;
                  admitted = admit_done now_ms bytes t.relay u accepted;
                  counted = refl;
                },
                λ h. cc,
              )
        ]
      ]
    ]
  ]

  -- What an envelope needs to be sent.
  pub record IsSendable (framed_ms now_ms : ℕ) (envelope : MessageEnvelope) (t : MeshTransport)
      : Type 0 where
    pub sealed : envelope.sealed_sender ≡ true
    pub no_sender : envelope.sender_id ≡ ""
    pub no_recipient : envelope.recipient_id ≡ ""
    pub address : Bytes
    pub addressed : envelope.dead_drop_address ≡ some address
    pub bytes : Bytes
    pub framed : wrap c framed_ms envelope address ≡ ok bytes
    pub accepted : (admit c sha256 now_ms bytes t.relay).0 ≡ ok tt

  pub is_ok-IsSendable :
      (framed_ms now_ms : ℕ) (envelope : MessageEnvelope) (t : MeshTransport)
      → (is_ok (send c sha256 framed_ms now_ms envelope t).0 ≡ true)
        ↔ IsSendable framed_ms now_ms envelope t
  unfolding send
  is_ok-IsSendable framed_ms now_ms envelope t = (
    λ o.
        let s = (send_lem framed_ms now_ms envelope t).0 o in
        record {
          sealed = s.sealed;
          no_sender = s.no_sender;
          no_recipient = s.no_recipient;
          address = s.address;
          addressed = s.addressed;
          bytes = s.bytes;
          framed = s.framed;
          accepted = ap (λ p. p.0) s.admitted;
        },
    λ s.
        let hides : reveals_identity envelope ≡ false =
          rw (s.sealed, s.no_sender, s.no_recipient) refl in
        rw (hides, s.addressed, s.framed, s.accepted, send) refl,
  )
