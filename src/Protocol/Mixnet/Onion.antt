-- ===== src/Protocol/Mixnet/Onion.antt =====
-- A packet in layers, as Sphinx documents it, and what each node on its path makes of it.
use parda.Base.{ℕ, ◌≤◌, ◌<◌, ◌≡◌, refl, true, List, [], ◌∷◌, Bytes, some}
use parda.Result.{ok}
use parda.Protocol.Mixnet.{
  Sphinx, forward_hop, final_hop, forward, deliver, pull_request, drop_cover, pull_destination_tag,
  cover_destination_tag, encode_node_address, decode_node_address, tagged_destination,
  relay_destination_tag, process_packet, unwrapped, unwrap_final,
}
use parda.Protocol.Mixnet.Tokens.{decode_fixed-encode_fixed}

module _ (s : Sphinx) where
  -- The hops with their addresses and secret keys, the first one being where the packet is; `tag` is
  -- the destination's.
  pub data Onion (tag payload : Bytes) : List (Bytes × Bytes) → Bytes → Type 0 where
    last :
        {address secret packet token wrapped : Bytes}
        → s.process packet secret ≡ some (final_hop token wrapped)
        → tagged_destination s tag ≡ ok token
        → s.recover_plaintext wrapped ≡ some payload
        → Onion tag payload ((address, secret) ∷ []) packet
    hop :
        {address secret packet next_address next_secret inner token : Bytes} {delay : ℕ}
        {rest : List (Bytes × Bytes)}
        → s.process packet secret ≡ some (forward_hop inner token delay)
        → encode_node_address s next_address ≡ ok token
        → s.is_utf8 next_address ≡ true
        → Onion tag payload ((next_address, next_secret) ∷ rest) inner
        → Onion tag payload ((address, secret) ∷ (next_address, next_secret) ∷ rest) packet

  -- Address tokens that a length byte can measure.
  pub record Measured : Type 0 where
    pub node_some : 0 < s.node_address_length
    pub node_most : s.node_address_length ≤ 256
    pub destination_some : 0 < s.destination_address_length
    pub destination_most : s.destination_address_length ≤ 256

  -- A final hop's outcome is what its tag says.
  pub process_packet-last :
      (tag packet secret token wrapped : Bytes)
      → Measured
      → s.process packet secret ≡ some (final_hop token wrapped)
      → tagged_destination s tag ≡ ok token
      → process_packet s packet secret ≡ unwrap_final s tag wrapped
  unfolding process_packet unwrapped tagged_destination
  process_packet-last tag packet secret token wrapped m p t =
      let (decoded, _) =
        decode_fixed-encode_fixed tag token s.destination_address_length m.destination_some
          m.destination_most t in
      rw (p, decoded) refl

  pub unwrap_final-relay :
      (wrapped payload : Bytes)
      → s.recover_plaintext wrapped ≡ some payload
      → unwrap_final s relay_destination_tag wrapped ≡ ok (deliver payload)
  unfolding unwrap_final
  unwrap_final-relay wrapped payload r = rw r refl

  pub unwrap_final-pull :
      (wrapped payload : Bytes)
      → s.recover_plaintext wrapped ≡ some payload
      → unwrap_final s pull_destination_tag wrapped ≡ ok (pull_request payload)
  unfolding unwrap_final
  unwrap_final-pull wrapped payload r = rw r refl

  pub unwrap_final-cover :
      (wrapped : Bytes) → unwrap_final s cover_destination_tag wrapped ≡ ok drop_cover
  unfolding unwrap_final
  unwrap_final-cover wrapped = refl

  pub process_packet-hop :
      (packet secret token inner next : Bytes) (delay : ℕ)
      → Measured
      → s.process packet secret ≡ some (forward_hop inner token delay)
      → encode_node_address s next ≡ ok token
      → s.is_utf8 next ≡ true
      → process_packet s packet secret ≡ ok (forward next delay inner)
  unfolding process_packet unwrapped decode_node_address encode_node_address
  process_packet-hop packet secret token inner next delay m p t u =
      let (decoded, _) =
        decode_fixed-encode_fixed next token s.node_address_length m.node_some m.node_most t in
      rw (p, decoded, u) refl
