-- ===== src/Protocol/Mixnet.antt =====
-- protocol/src/mixnet.rs: address tokens of fixed size, path choice, and what a node makes of an
-- unwrapped packet. The crate sphinx-packet, the random choice of nodes and the UTF-8 check are
-- parameters; texts are their bytes.
pub mod Tokens
pub mod Routing
pub mod Onion
use Prim.Native.Char.{code}
use Prim.Native.String
use parda.Base.{
  ℕ, ◌+◌, ◌-◌, ◌%◌, ◌≡◌, Bool, true, false, Option, none, some, List, [], ◌∷◌, ◌++◌, Bytes, String,
  bytes_beq, ltb, not, if◌then◌else◌, length, take, replicate,
}
use parda.Result.{Result, ok, err, ok_or, ensure, ◌>>=◌, ◌>>◌}
use parda.Protocol.Error.{PardaError, ProtoResult, mix_routing}

abbrev pub text : String → Bytes
text String.[] = []
text (String.◌∷◌ c s) = code c ∷ text s

abbrev pub relay_destination_tag : Bytes
relay_destination_tag = text "PARDA-RELAY-V1"

abbrev pub cover_destination_tag : Bytes
cover_destination_tag = text "PARDA-COVER-V1"

abbrev pub pull_destination_tag : Bytes
pull_destination_tag = text "PARDA-PULL-V1"

abbrev pub min_path_length : ℕ
min_path_length = 3

abbrev pub default_mix_payload_size : ℕ
default_mix_payload_size = 8192

-- `capacity` is at least 1 in every call.
unfoldable pub encode_fixed : Bytes → ℕ → ProtoResult Bytes
encode_fixed bytes capacity =
    if ltb (capacity - 1) (length bytes)
    then err (mix_routing "bytes do not fit in a Sphinx address token")
    else ok ((length bytes % 256) ∷ (bytes ++ replicate (capacity - 1 - length bytes) 0))

-- An empty buffer is an index out of bounds; the callers' buffers have the tokens' fixed size.
pub decode_fixed : Bytes → ProtoResult Bytes
decode_fixed [] = err (mix_routing "index out of bounds")
decode_fixed (len ∷ rest) =
    if ltb (length rest) len
    then err (mix_routing "corrupt Sphinx address token: declared length exceeds buffer")
    else ok (take len rest)

pub record MixNodeDescriptor : Type 0 where
  pub address : Bytes
  pub public_key : Bytes

pub record PullRequest : Type 0 where
  pub recipient_id : String
  pub rendezvous_token : String

pub record Node : Type 0 where
  pub node_address : Bytes
  pub pub_key : Bytes

-- What `SphinxPacket::process` finds.
pub data ProcessedPacketData : Type 0 where
  forward_hop : (next_hop_packet next_hop_address : Bytes) (delay : ℕ) → ProcessedPacketData
  final_hop : (destination payload : Bytes) → ProcessedPacketData

pub record Sphinx : Type 0 where
  pub node_address_length : ℕ
  pub destination_address_length : ℕ
  pub process : (packet secret : Bytes) → Option ProcessedPacketData
  pub build :
      (payload_size : ℕ) (payload : Bytes) (route : List Node) (destination : Bytes)
      (delays : List ℕ)
      → Option Bytes
  pub recover_plaintext : Bytes → Option Bytes
  pub is_utf8 : Bytes → Bool
  pub choose_multiple : ℕ → List MixNodeDescriptor → List MixNodeDescriptor
  pub generate_delays : ℕ → ℕ → List ℕ

pub data UnwrapOutcome : Type 0 where
  forward : (next_hop_address : Bytes) (delay : ℕ) (packet_bytes : Bytes) → UnwrapOutcome
  deliver : (envelope_bytes : Bytes) → UnwrapOutcome
  pull_request : (request_bytes : Bytes) → UnwrapOutcome
  drop_cover : UnwrapOutcome

module _ (s : Sphinx) where
  unfoldable pub encode_node_address : Bytes → ProtoResult Bytes
  encode_node_address host_port = encode_fixed host_port s.node_address_length

  pub decode_node_address : Bytes → ProtoResult Bytes
  decode_node_address addr = do
    bytes ← decode_fixed addr
    ensure (s.is_utf8 bytes) (mix_routing "next-hop address is not valid UTF-8")
    ok bytes

  unfoldable pub tagged_destination : Bytes → ProtoResult Bytes
  tagged_destination tag = encode_fixed tag s.destination_address_length

  -- `nodes` is the topology.
  unfoldable pub choose_path : List MixNodeDescriptor → ℕ → ProtoResult (List MixNodeDescriptor)
  choose_path nodes len =
      if ltb len min_path_length
      then err (mix_routing "path length is below the minimum")
      else if ltb (length nodes) len
      then err (mix_routing "topology has too few nodes for a path")
      else ok (s.choose_multiple len nodes)

  -- `map(...).collect::<Result<Vec<Node>>>`
  unfoldable pub route_of : List MixNodeDescriptor → ProtoResult (List Node)
  unfolding encode_node_address
  route_of [] = ok []
  route_of (d ∷ path) = do
    address ← encode_node_address d.address
    rest ← route_of path
    ok ((record { node_address = address; pub_key = d.public_key }) ∷ rest)

  unfoldable pub build_packet_to :
      Bytes → List MixNodeDescriptor → ℕ → ℕ → Bytes → ProtoResult Bytes
  unfolding route_of tagged_destination
  build_packet_to payload path avg_delay payload_size destination_tag_bytes =
      if ltb (length path) min_path_length
      then err (mix_routing "path length is below the minimum")
      else do
        nodes ← route_of path
        destination ← tagged_destination destination_tag_bytes
        ok_or
            (s.build payload_size payload nodes destination
              (s.generate_delays (length path) avg_delay))
            (mix_routing "failed to build Sphinx packet")

  unfoldable pub build_packet : Bytes → List MixNodeDescriptor → ℕ → ℕ → ProtoResult Bytes
  unfolding build_packet_to
  build_packet payload path avg_delay payload_size =
      build_packet_to payload path avg_delay payload_size relay_destination_tag

  -- the final hop: the destination's tag decides
  pub unwrap_final : Bytes → Bytes → ProtoResult UnwrapOutcome
  unwrap_final tag payload =
      if bytes_beq tag relay_destination_tag
      then (do
        envelope_bytes ←
            ok_or (s.recover_plaintext payload) (mix_routing "failed to recover Sphinx payload")
        ok (deliver envelope_bytes))
      else if bytes_beq tag pull_destination_tag
      then (do
        request_bytes ←
            ok_or (s.recover_plaintext payload) (mix_routing "failed to recover Sphinx payload")
        ok (pull_request request_bytes))
      else if bytes_beq tag cover_destination_tag
      then ok drop_cover
      else err (mix_routing "final hop with unrecognised destination tag")

  pub unwrapped : ProcessedPacketData → ProtoResult UnwrapOutcome
  unfolding decode_node_address unwrap_final
  unwrapped (forward_hop next_hop_packet next_hop_address delay) = do
    address ← decode_node_address next_hop_address
    ok (forward address delay next_hop_packet)
  unwrapped (final_hop destination payload) = do
    tag ← decode_fixed destination
    unwrap_final tag payload

  -- A packet that does not parse and one that does not unwrap are errors alike.
  pub process_packet : Bytes → Bytes → ProtoResult UnwrapOutcome
  unfolding unwrapped
  process_packet packet_bytes node_secret = do
    processed ←
        ok_or (s.process packet_bytes node_secret) (mix_routing "failed to unwrap Sphinx packet")
    unwrapped processed
