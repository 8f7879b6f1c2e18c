-- ===== src/Mesh/Hybrid.antt =====
-- mesh/src/hybrid.rs: a transport that prefers one and falls back to another, which is the mesh.
use parda.Base.{ℕ, ◌≡◌, ◌↔◌, refl, true, false, List, [], ◌++◌, String, Bytes, inl, inr}
use parda.Result.{ok, err, is_ok, Result-cases}
use parda.Protocol.Error.{ProtoResult}
use parda.Protocol.Envelope.{MessageEnvelope}
use parda.Protocol.Transport.{TransportLayer}
use parda.Mesh.Bundle.{Codec}
use parda.Mesh.Transport.{MeshTransport}
use parda.Mesh.Transport as Mesh
use parda.Mesh.Transport.Send.{Sent, send_lem, IsSendable, is_ok-IsSendable}

-- The fallback's copy of an envelope.
pub redacted : MessageEnvelope → MessageEnvelope
redacted envelope = record envelope { recipient_id = "" }

abbrev pub or_empty : ProtoResult (List MessageEnvelope) → List MessageEnvelope
or_empty (ok envelopes) = envelopes
or_empty (err e) = []

module _ {S T : Type 0} (primary : TransportLayer S) (fallback : TransportLayer T) where
  -- what is left to do once the primary transport has answered
  pub fall_back :
      MessageEnvelope → T → ProtoResult (Unit {0}) × S → ProtoResult (Unit {0}) × (S × T)
  unfolding redacted
  fall_back envelope t (ok u, s) = (ok tt, (s, t))
  fall_back envelope t (err e, s) =
      let (sent, t') = fallback.send (redacted envelope) t in (sent, (s, t'))

  unfoldable pub send : MessageEnvelope → S × T → ProtoResult (Unit {0}) × (S × T)
  unfolding fall_back
  send envelope (s, t) = fall_back envelope t (primary.send envelope s)

  unfoldable pub receive : String → S × T → ProtoResult (List MessageEnvelope) × (S × T)
  receive recipient_id (s, t) =
      let (online, s') = primary.receive recipient_id s in
      let (from_mesh, t') = fallback.receive recipient_id t in
      (ok (or_empty online ++ or_empty from_mesh), (s', t'))

  abbrev pub hybrid_transport : TransportLayer (S × T)
  hybrid_transport = record { send = send; receive = receive }

-- The mesh transport as a transport, at one reading of the clocks and one of the random sources; it
-- ignores the recipient it is asked for.
abbrev pub mesh_transport :
    Codec
    → (Bytes → Bytes)
    → (Bytes → Bytes → Bytes)
    → (ℕ → Bytes)
    → (List Bytes → List Bytes)
    → ℕ
    → ℕ
    → TransportLayer MeshTransport
mesh_transport c sha256 expand random_decoy_address shuffle framed_ms now_ms = record {
  send = Mesh.send c sha256 framed_ms now_ms;
  receive = λ recipient_id. Mesh.receive expand c random_decoy_address shuffle;
}

module _ {S : Type 0} (primary : TransportLayer S) (c : Codec) (sha256 : Bytes → Bytes)
    (expand : Bytes → Bytes → Bytes) (random_decoy_address : ℕ → Bytes)
    (shuffle : List Bytes → List Bytes) where
  -- Where the primary transport takes the envelope, the mesh is left as it is. Where it fails, the
  -- sending succeeds exactly if the copy of the envelope that names no recipient is sealed, names no
  -- sender, has a dead drop address and can be framed, and the mesh relay accepts that bundle; the
  -- relay has then admitted it and the counter has moved by one, and otherwise the mesh is as it was.
  pub hybrid_send_lem :
      (framed_ms now_ms : ℕ) (envelope : MessageEnvelope) (s : S) (t : MeshTransport)
      → let mesh = mesh_transport c sha256 expand random_decoy_address shuffle framed_ms now_ms in
        let copy = record envelope { recipient_id = "" } in
        let (sent, (_, t')) = send primary mesh envelope (s, t) in
        (is_ok (primary.send envelope s).0 ≡ true → (sent ≡ ok tt) × (t' ≡ t))
        × (is_ok (primary.send envelope s).0 ≡ false
            → ((is_ok sent ≡ true) ↔ IsSendable c sha256 framed_ms now_ms copy t)
              × (is_ok sent ≡ true → Sent c sha256 framed_ms now_ms copy t t')
              × (is_ok sent ≡ false → t' ≡ t))
  unfolding send fall_back redacted
  hybrid_send_lem framed_ms now_ms envelope s t =
      let copy = record envelope { recipient_id = "" } in
      let (sent_if, kept_if) = send_lem c sha256 framed_ms now_ms copy t in
      elim (Result-cases (primary.send envelope s).0) [
        | inl (e, p) ↦
            rw (p)
              (λ h. cc, λ h. (is_ok-IsSendable c sha256 framed_ms now_ms copy t, sent_if, kept_if))
        | inr (u, p) ↦ rw (p) (λ h. (refl, refl), λ h. cc)
      ]
