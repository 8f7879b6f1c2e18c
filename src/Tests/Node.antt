-- ===== src/Tests/Node.antt =====
-- A way through three mix nodes, the node's key file, a plaintext handle and TLS settings.
use parda.Base.{
  ℕ, zero, suc, ◌≡◌, refl, ◌≢◌, true, Option, none, some, List, [], ◌∷◌, ◌++◌, map, arith, Bytes,
  string_key, replicate, length, if◌then◌else◌, bytes_beq, nat_key, All,
}
use parda.Result.{ok}
use parda.Protocol.Envelope.{MessageEnvelope}
use parda.Protocol.Mixnet.{
  Sphinx, MixNodeDescriptor, ProcessedPacketData, forward_hop, final_hop, encode_node_address,
  encode_fixed, tagged_destination, choose_path, build_packet, build_packet_to, route_of,
  relay_destination_tag,
}
use parda.Protocol.Mixnet.Onion.{Onion, last, hop, Measured}
use parda.Protocol.Transport.{relay, mix_packet, Json, MixTransport}
use parda.Mixnode.{NodeJson}
use parda.Mixnode.Walk.{Outbox}
use parda.Mixnode.Walk.Sending.{journey, mix_send-walk}
use parda.Mixnode.Identity.{
  key_len, load_or_create_key_file, load_or_generate, hex_decode, pairs, from_str_radix,
  load_or_create_key_file_lem, IsByte,
}
use parda.Plaintext.{
  empty_registry, plaintext_new, plaintext_len, plaintext_copy_into, plaintext_release,
  plaintext_release_lem,
}
use parda.Text.{trim, trim_start, trim_end}
use parda.Tests.{test_envelope}

abbrev to_bob : MessageEnvelope
to_bob = record test_envelope { recipient_id = "bob" }

-- Packet 11 has packet 12 in it for the node 2, which has packet 13 in it for the node 3.
abbrev relay_token : Bytes
relay_token =
    14 ∷ 80 ∷ 65 ∷ 82 ∷ 68 ∷ 65 ∷ 45 ∷ 82 ∷ 69 ∷ 76 ∷ 65 ∷ 89 ∷ 45 ∷ 86 ∷ 49 ∷ replicate 17 0

abbrev pub token : ℕ → Bytes
token n = 1 ∷ n ∷ replicate 30 0

abbrev process : Bytes → Bytes → Bytes → Option ProcessedPacketData
process destination packet secret =
    if bytes_beq packet (11 ∷ [])
    then some (forward_hop (12 ∷ []) (token 2) 30)
    else if bytes_beq packet (12 ∷ [])
    then some (forward_hop (13 ∷ []) (token 3) 30)
    else some (final_hop destination (7 ∷ []))

abbrev pub layered : Bytes → Sphinx
layered destination = record {
  node_address_length = 32;
  destination_address_length = 32;
  process = process destination;
  build = λ size payload route destination delays. some (11 ∷ []);
  recover_plaintext = λ payload. some payload;
  is_utf8 = λ b. true;
  choose_multiple = λ n nodes. nodes;
  generate_delays = λ n average. [];
}

abbrev sphinx : Sphinx
sphinx = layered relay_token

abbrev pub layered-Measured : (destination : Bytes) → Measured (layered destination)
layered-Measured destination = record {
  node_some = omega arith;
  node_most = omega arith;
  destination_some = omega arith;
  destination_most = omega arith;
}

abbrev pub node_json : NodeJson
node_json = record {
  envelope_of = λ b. some to_bob;
  envelope_json = λ e. some (7 ∷ []);
  pull_of = λ b. none;
  pull_json = λ r. none;
}

abbrev pub network : Bytes → Option Bytes
network address = some (3 ∷ address)

abbrev pub described : ℕ → MixNodeDescriptor
described n = record { address = n ∷ []; public_key = [] }

abbrev pub others : List MixNodeDescriptor
others = described 2 ∷ described 3 ∷ []

abbrev pub client : MixTransport
client = record {
  topology = described 1 ∷ others;
  path_length = 3;
  avg_delay = 200;
  payload_size = 512;
}

abbrev client_json : Json Bytes
client_json = record {
  envelope_json = λ e. some (7 ∷ []);
  pull_json = λ r. none;
  messages_of = λ b. none;
}

abbrev pub rest_hops : List (Bytes × Bytes)
rest_hops = (2 ∷ [], 3 ∷ 2 ∷ []) ∷ (3 ∷ [], 3 ∷ 3 ∷ []) ∷ []

three_layers :
    Onion sphinx relay_destination_tag (7 ∷ []) ((1 ∷ [], 3 ∷ 1 ∷ []) ∷ rest_hops) (11 ∷ [])
unfolding encode_node_address encode_fixed tagged_destination
three_layers = hop {token = token 2} refl refl refl (
    hop {token = token 3} refl refl refl
      (last {token = relay_token} {wrapped = 7 ∷ []} refl refl refl))

path_chosen : choose_path sphinx client.topology 3 ≡ ok (described 1 ∷ others)
unfolding choose_path
path_chosen = refl

packet_built : build_packet sphinx (7 ∷ []) (described 1 ∷ others) 200 512 ≡ ok (11 ∷ [])
unfolding build_packet build_packet_to route_of encode_node_address encode_fixed tagged_destination
packet_built = refl

mix_send-walk_example :
    (posts : Outbox) × (journey sphinx client_json node_json network 3 client to_bob
      ≡ posts ++ (relay ("v1" ∷ "messages" ∷ "bob" ∷ []), 7 ∷ []) ∷ [])
    × (map (λ p. p.0) posts ≡ mix_packet (1 ∷ []) ∷ map mix_packet (map (λ d. d.address) others))
mix_send-walk_example =
    mix_send-walk sphinx client_json node_json network client to_bob (described 1) others
      (3 ∷ 1 ∷ []) (7 ∷ []) (11 ∷ []) (7 ∷ []) rest_hops (layered-Measured relay_token) path_chosen
      refl packet_built three_layers refl (refl, (refl, (refl, tt))) refl refl

abbrev fresh : Bytes
fresh = replicate 32 171

fresh-bytes : (n : ℕ) → All IsByte (replicate n 171)
fresh-bytes zero = tt
fresh-bytes (suc n) = (omega arith, fresh-bytes n)

load_or_create_key_file_lem_example :
    let (key, file) = load_or_create_key_file fresh none in
    (key ≡ ok fresh)
    × (load_or_create_key_file [] file ≡ (ok fresh, file))
    × ((load_or_create_key_file [] (some (97 ∷ []))).1 ≡ some (97 ∷ []))
    × ((key : Bytes)
        → (load_or_create_key_file [] (some (97 ∷ []))).0 ≡ ok key
        → (hex_decode (97 ∷ []) ≡ some key) × (length key ≡ key_len))
load_or_create_key_file_lem_example =
    load_or_create_key_file_lem fresh [] (97 ∷ []) refl (fresh-bytes 32)

-- A plus sign counts as a digit.
hex_decode-plus : hex_decode (43 ∷ 49 ∷ []) ≡ some (1 ∷ [])
unfolding hex_decode pairs from_str_radix trim trim_start trim_end
hex_decode-plus = refl

generated : (load_or_generate fresh none none).0 ≡ ok fresh
unfolding load_or_generate
generated = refl

plaintext_release_lem_example :
    let (id, r₁) = plaintext_new (some (4 ∷ 5 ∷ [])) empty_registry in
    let r₂ = plaintext_release id r₁ in
    (plaintext_copy_into id r₁ ≡ some (4 ∷ 5 ∷ []))
    × (plaintext_len id r₁ ≡ 2)
    × (r₂.freed ≡ (0 ∷ 0 ∷ []) ∷ [])
    × (plaintext_copy_into id r₂ ≡ none)
    × (plaintext_len id r₂ ≡ 0)
    × (plaintext_release id r₂ ≡ r₂)
    × (id ≢ 6
        → (plaintext_copy_into 6 r₁ ≡ plaintext_copy_into 6 empty_registry)
          × (plaintext_copy_into 6 r₂ ≡ plaintext_copy_into 6 empty_registry)
          × (plaintext_len 6 r₁ ≡ plaintext_len 6 empty_registry)
          × (plaintext_len 6 r₂ ≡ plaintext_len 6 empty_registry))
plaintext_release_lem_example = plaintext_release_lem (4 ∷ 5 ∷ []) 6 empty_registry refl
