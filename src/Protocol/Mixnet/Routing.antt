-- ===== src/Protocol/Mixnet/Routing.antt =====
-- What a mix node makes of a packet, and which packets can be built.
use parda.Base.{
  ℕ, ◌≤◌, ◌<◌, ◌≡◌, ◌↔◌, inl, inr, true, some, List, [], ◌∷◌, arith, Bytes, length, All,
  bytes_beq_iff, Option-cases,
}
use mathlib.Core.Path.{subst}
use parda.Result.{ok, Result-cases}
use parda.Protocol.Mixnet.{
  Sphinx, MixNodeDescriptor, Node, ProcessedPacketData, forward_hop, final_hop, UnwrapOutcome,
  forward, deliver, pull_request, drop_cover, encode_fixed, decode_fixed, tagged_destination,
  route_of, build_packet_to, process_packet, unwrap_final, unwrapped, relay_destination_tag,
  pull_destination_tag, cover_destination_tag,
}

module _ (s : Sphinx) where
  -- What Sphinx found in a packet, and the outcome that stands for it.
  pub data Unwraps : ProcessedPacketData → UnwrapOutcome → Type 0 where
    relays :
        {token address packet : Bytes} {delay : ℕ}
        → decode_fixed token ≡ ok address
        → s.is_utf8 address ≡ true
        → Unwraps (forward_hop packet token delay) (forward address delay packet)
    delivers :
        {token payload bytes : Bytes}
        → decode_fixed token ≡ ok relay_destination_tag
        → s.recover_plaintext payload ≡ some bytes
        → Unwraps (final_hop token payload) (deliver bytes)
    pulls :
        {token payload bytes : Bytes}
        → decode_fixed token ≡ ok pull_destination_tag
        → s.recover_plaintext payload ≡ some bytes
        → Unwraps (final_hop token payload) (pull_request bytes)
    covers :
        {token payload : Bytes}
        → decode_fixed token ≡ ok cover_destination_tag
        → Unwraps (final_hop token payload) drop_cover

  Unwraps→unwrapped :
      {d : ProcessedPacketData} {o : UnwrapOutcome} → Unwraps d o → unwrapped s d ≡ ok o
  unfolding unwrapped
  Unwraps→unwrapped (relays t u) = ground arith
  Unwraps→unwrapped (delivers t r) = ground arith
  Unwraps→unwrapped (pulls t r) = ground arith
  Unwraps→unwrapped (covers t) = ground arith

  final→Unwraps :
      (token tag payload : Bytes) (o : UnwrapOutcome)
      → decode_fixed token ≡ ok tag
      → unwrap_final s tag payload ≡ ok o
      → Unwraps (final_hop token payload) o
  unfolding unwrap_final
  final→Unwraps token tag payload (forward a n p) t h = absurd (ground arith)
  final→Unwraps token tag payload (deliver b) t h =
      delivers (ground (arith, bytes_beq_iff tag relay_destination_tag)) (ground arith)
  final→Unwraps token tag payload (pull_request b) t h =
      pulls (ground (arith, bytes_beq_iff tag pull_destination_tag)) (ground arith)
  final→Unwraps token tag payload drop_cover t h =
      covers (ground (arith, bytes_beq_iff tag cover_destination_tag))

  unwrapped→Unwraps :
      (d : ProcessedPacketData) (o : UnwrapOutcome) → unwrapped s d ≡ ok o → Unwraps d o
  unfolding unwrapped
  unwrapped→Unwraps (forward_hop packet token delay) o h =
      elim (Result-cases (decode_fixed token)) [
        | inl (e, p) ↦ absurd (ground arith)
        | inr (address, p) ↦
            subst (Unwraps (forward_hop packet token delay)) (ground arith)
              (relays {packet = packet} {delay = delay} p (ground arith))
      ]
  unwrapped→Unwraps (final_hop token payload) o h = elim (Result-cases (decode_fixed token)) [
    | inl (e, p) ↦ absurd (ground arith)
    | inr (tag, p) ↦ final→Unwraps token tag payload o p (ground arith)
  ]

  -- A node's verdict on a packet is exactly what Sphinx found: a hop is forwarded with its delay to
  -- the decoded address, a final hop is delivered, pulled or dropped as its destination's tag says,
  -- and a packet with any other tag, a token that does not decode, an address that is no text or a
  -- payload that does not recover has no outcome.
  pub process_packet_iff :
      (packet secret : Bytes) (o : UnwrapOutcome)
      → (process_packet s packet secret ≡ ok o)
        ↔ ((d : ProcessedPacketData) × (s.process packet secret ≡ some d) × Unwraps d o)
  unfolding process_packet
  process_packet_iff packet secret o = elim (Option-cases (s.process packet secret)) [
    | inl p ↦ (λ h. absurd (ground arith), λ h. absurd (ground arith))
    | inr (d, p) ↦ (
      λ h. (d, p, unwrapped→Unwraps d o (ground arith)),
      λ h. ground (arith, Unwraps→unwrapped h.2),
    )
  ]

  abbrev pub Fits : MixNodeDescriptor → Type 0
  Fits d = length d.address < s.node_address_length

  route_of-Fits :
      (path : List MixNodeDescriptor) (nodes : List Node)
      → 0 < s.node_address_length
      → route_of s path ≡ ok nodes
      → All Fits path × (length nodes ≡ length path)
  unfolding route_of encode_fixed
  route_of-Fits [] nodes pos h = (tt, ground arith)
  route_of-Fits (d ∷ path) nodes pos h = elim (Result-cases (route_of s path)) [
    | inl (e, p) ↦ absurd (ground arith)
    | inr (rest, p) ↦
        let (fits, same) = route_of-Fits path rest pos p in ((ground arith, fits), ground arith)
  ]

  -- Where node addresses have a positive length, a packet is only ever built over at least
  -- three hops, each with an address that fits its token, with one Sphinx node for each hop and
  -- the token of the destination's tag.
  pub build_packet_to-Fits :
      (payload : Bytes) (path : List MixNodeDescriptor) (avg_delay payload_size : ℕ)
      (tag packet : Bytes)
      → 0 < s.node_address_length
      → build_packet_to s payload path avg_delay payload_size tag ≡ ok packet
      → (3 ≤ length path)
        × All Fits path
        × ((nodes : List Node) × (token : Bytes) × (length nodes ≡ length path)
            × (tagged_destination s tag ≡ ok token)
            × (s.build payload_size payload nodes token (s.generate_delays (length path) avg_delay)
                ≡ some packet))
  unfolding build_packet_to
  build_packet_to-Fits payload path avg_delay payload_size tag packet pos h =
      elim (Result-cases (route_of s path)) [
        | inl (e, p) ↦ absurd (ground arith)
        | inr (nodes, p) ↦ elim (Result-cases (tagged_destination s tag)) [
          | inl (e, q) ↦ absurd (ground arith)
          | inr (token, q) ↦
              let (fits, same) = route_of-Fits path nodes pos p in
              (ground arith, fits, (nodes, token, same, q, ground arith))
        ]
      ]
