-- ===== src/Tests/Protocol.antt =====
-- The theorems on envelopes, mix packets, fingerprints and dead drops at concrete inputs.
use parda.Base.{
  false, ◌≡◌, refl, true, some, List, [], ◌∷◌, ◌++◌, Bytes, String, length, replicate, take, drop,
  bytes_key,
}
use parda.Result.{ok, is_ok}
use parda.Protocol.Envelope.{with_self_destruct, with_read_triggered_destruct}
use parda.Protocol.Mixnet.{
  MixNodeDescriptor, encode_fixed, choose_path, build_packet, encode_node_address, route_of,
  tagged_destination, build_packet_to, relay_destination_tag,
}
use parda.Protocol.Trust.{fingerprint_context, Hkdf, TrustStore}
use parda.Protocol.DeadDrop.{address_kdf_context}
use parda.Tests.{test_envelope, test_sphinx}

abbrev host : Bytes
host = 8 ∷ 9 ∷ []

abbrev host_token : Bytes
host_token = 2 ∷ 8 ∷ 9 ∷ 0 ∷ []

host-encoded : encode_fixed host 4 ≡ ok host_token
unfolding encode_fixed
host-encoded = refl

abbrev hop : MixNodeDescriptor
hop = record { address = host; public_key = 6 ∷ [] }

abbrev path : List MixNodeDescriptor
path = hop ∷ hop ∷ hop ∷ []

packet-built :
    build_packet_to test_sphinx (4 ∷ []) path 50 512 relay_destination_tag ≡ ok (3 ∷ 4 ∷ [])
unfolding build_packet_to route_of encode_node_address tagged_destination encode_fixed
packet-built = refl

abbrev test_hkdf : Hkdf
test_hkdf = λ salt ikm info. take 60 (ikm ++ replicate 60 0)

abbrev alice_key : Bytes
alice_key = 1 ∷ []

abbrev bob_key : Bytes
bob_key = 2 ∷ []

abbrev bob : String
bob = "bob"

abbrev carol : String
carol = "carol"

abbrev bob_verified : TrustStore
bob_verified = ("bob", 1 ∷ 2 ∷ []) ∷ []

abbrev fingerprint_60 : Bytes
fingerprint_60 = replicate 60 200

abbrev test_expand : Bytes → Bytes → Bytes
test_expand key info = drop 31 info ++ key

context_lengths : (length fingerprint_context ≡ 20) × (length address_kdf_context ≡ 31)
unfolding fingerprint_context address_kdf_context
context_lengths = (refl, refl)

envelope_deadlines :
    ((with_self_destruct 500 test_envelope).self_destruct_at ≡ some 1500)
    × ((with_read_triggered_destruct test_envelope).read_triggered_destruct ≡ true)
unfolding with_self_destruct with_read_triggered_destruct
envelope_deadlines = (refl, refl)

paths_chosen :
    (choose_path test_sphinx path 3 ≡ ok path) × (is_ok (choose_path test_sphinx path 2) ≡ false)
unfolding choose_path
paths_chosen = (refl, refl)

relay_packet : build_packet test_sphinx (4 ∷ []) path 50 512 ≡ ok (3 ∷ 4 ∷ [])
unfolding build_packet build_packet_to route_of encode_node_address tagged_destination encode_fixed
relay_packet = refl
