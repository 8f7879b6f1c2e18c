-- ===== src/Tests/Cover.antt =====
-- A round of cover traffic through three mix nodes.
use parda.Base.{◌≡◌, refl, some, [], ◌∷◌, map, arith, Bytes, replicate}
use parda.Result.{ok}
use parda.Protocol.Mixnet.{
  Sphinx, encode_node_address, encode_fixed, tagged_destination, build_packet_to, route_of,
  cover_destination_tag, default_mix_payload_size,
}
use parda.Protocol.Mixnet.Onion.{Onion, last, hop, Measured}
use parda.Protocol.Transport.{mix_packet}
use parda.Mixnode.Walk.{outbox, forwards}
use parda.Mixnode.Cover.{cover_payload_marker, cover_round, consequences, cover_round-walk}
use parda.Tests.Node.{token, layered, node_json, network, described, others, rest_hops}

abbrev cover_token : Bytes
cover_token =
    14 ∷ 80 ∷ 65 ∷ 82 ∷ 68 ∷ 65 ∷ 45 ∷ 67 ∷ 79 ∷ 86 ∷ 69 ∷ 82 ∷ 45 ∷ 86 ∷ 49 ∷ replicate 17 0

abbrev sphinx : Sphinx
sphinx = record (layered cover_token) { recover_plaintext = λ payload. some cover_payload_marker }

sphinx-Measured : Measured sphinx
sphinx-Measured = record {
  node_some = omega arith;
  node_most = omega arith;
  destination_some = omega arith;
  destination_most = omega arith;
}

three_layers :
    Onion sphinx cover_destination_tag cover_payload_marker
      ((1 ∷ [], 3 ∷ 1 ∷ []) ∷ rest_hops)
      (11 ∷ [])
unfolding encode_node_address encode_fixed tagged_destination
three_layers = hop {token = token 2} refl refl refl (
    hop {token = token 3} refl refl refl
      (last {token = cover_token} {wrapped = 7 ∷ []} refl refl refl))

packet_built :
    build_packet_to sphinx cover_payload_marker
      (described 1 ∷ others)
      200
      default_mix_payload_size
      cover_destination_tag
    ≡ ok (11 ∷ [])
unfolding build_packet_to route_of encode_node_address encode_fixed tagged_destination
packet_built = refl

cover_round-walk_example :
    map
      (λ p. p.0)
      (consequences sphinx node_json network 3
        (cover_round sphinx outbox (described 1 ∷ others) 200 []))
    ≡ mix_packet (1 ∷ []) ∷ forwards sphinx node_json network rest_hops
cover_round-walk_example =
    cover_round-walk sphinx node_json network (described 1 ∷ others) 200 (described 1) others
      (3 ∷ 1 ∷ []) (11 ∷ []) rest_hops sphinx-Measured refl packet_built three_layers
      (refl, (refl, (refl, tt)))
