-- ===== src/Mixnode/Walk/Sending.antt =====
-- From a client of the mix transport to the relay: the first hop of the path, the nodes, the
-- recipient's mailbox.
use parda.Base.{ℕ, suc, ◌≡◌, refl, ap, ◌∙◌, Option, some, List, [], ◌∷◌, ◌++◌, map, Bytes, length}
use parda.Result.{ok}
use parda.Protocol.Envelope.{MessageEnvelope}
use parda.Protocol.Mixnet.{
  Sphinx, MixNodeDescriptor, choose_path, build_packet, relay_destination_tag,
}
use parda.Protocol.Mixnet.Onion.{Onion, Measured}
use parda.Protocol.Transport.{relay, mix_packet, Json, MixTransport, mix_send, outgoing, dispatch}
use parda.Mixnode.{NodeJson}
use parda.Mixnode.Walk.{Outbox, outbox, onward, walk, Runs, forwards, walk-Onion}

module _ (sphinx : Sphinx) (json : Json Bytes) (node_json : NodeJson)
    (network : Bytes → Option Bytes) where
  -- Everything that is posted when a client sends, on fuel for the nodes' part.
  abbrev pub journey : ℕ → MixTransport → MessageEnvelope → Outbox
  journey fuel t envelope =
      onward (walk sphinx node_json network fuel) (mix_send sphinx json outbox t envelope []).1

  mix_send-outbox :
      (t : MixTransport) (envelope : MessageEnvelope) (first : MixNodeDescriptor)
      (path : List MixNodeDescriptor) (payload packet : Bytes)
      → choose_path sphinx t.topology t.path_length ≡ ok (first ∷ path)
      → json.envelope_json envelope ≡ some payload
      → build_packet sphinx payload (first ∷ path) t.avg_delay t.payload_size ≡ ok packet
      → (mix_send sphinx json outbox t envelope []).1 ≡ (mix_packet first.address, packet) ∷ []
  unfolding mix_send outgoing dispatch
  mix_send-outbox t envelope first path payload packet chosen printed built =
      let ready : outgoing sphinx json envelope t ≡ ok (first.address, packet) =
        rw (outgoing, chosen, printed, built) refl in
      rw (mix_send, ready) refl

  addresses :
      (hops : List (Bytes × Bytes))
      → forwards sphinx node_json network hops ≡ map mix_packet (map (λ h. h.0) hops)
  addresses [] = refl
  addresses (h ∷ hops) = ap (◌∷◌ (mix_packet h.0)) (addresses hops)

  -- Where the client chooses a path and builds a packet for it that is in layers for the hops of
  -- that path, every hop is run, and client and nodes read and print the envelope's JSON alike:
  -- with fuel for each hop, what is posted goes to the first hop, to the others in the order of the
  -- path, and at last to the recipient's mailbox at the relay, with the envelope.
  pub mix_send-walk :
      (t : MixTransport) (envelope : MessageEnvelope) (first : MixNodeDescriptor)
      (path : List MixNodeDescriptor) (secret payload packet body : Bytes)
      (rest : List (Bytes × Bytes))
      → Measured sphinx
      → choose_path sphinx t.topology t.path_length ≡ ok (first ∷ path)
      → json.envelope_json envelope ≡ some payload
      → build_packet sphinx payload (first ∷ path) t.avg_delay t.payload_size ≡ ok packet
      → Onion sphinx relay_destination_tag payload ((first.address, secret) ∷ rest) packet
      → map (λ h. h.0) rest ≡ map (λ d. d.address) path
      → Runs sphinx node_json network ((first.address, secret) ∷ rest)
      → node_json.envelope_of payload ≡ some envelope
      → node_json.envelope_json envelope ≡ some body
      → (posts : Outbox) × (journey (suc (length rest)) t envelope
          ≡ posts ++ (relay ("v1" ∷ "messages" ∷ envelope.recipient_id ∷ []), body) ∷ [])
        × (map (λ p. p.0) posts
            ≡ mix_packet first.address ∷ map mix_packet (map (λ d. d.address) path))
  mix_send-walk t envelope first path secret payload packet body rest m chosen printed built onion
        same runs read reprinted =
      let sent = mix_send-outbox t envelope first path payload packet chosen printed built in
      let (posts, walked, passed) =
        walk-Onion sphinx node_json network payload body envelope first.address secret packet rest m
          read reprinted runs onion in
      (
        (mix_packet first.address, packet) ∷ posts,
        rw (sent, walked) refl,
        ap (◌∷◌ (mix_packet first.address)) (passed ∙ addresses rest ∙ ap (map mix_packet) same),
      )
