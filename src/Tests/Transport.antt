-- ===== src/Tests/Transport.antt =====
-- Transports: a client whose JSON is the test codec's, the relay behind it, a mix network of three
-- nodes and a primary transport that is down.
use mathlib.Core.List.{Perm}
use parda.Base.{
  ℕ, ◌+◌, ◌≡◌, refl, ◌↔◌, true, false, Option, none, some, List, [], ◌∷◌, ◌++◌, map, Bytes, String,
  replicate, string_key,
}
use parda.Result.{ok, err, is_ok}
use parda.Protocol.Error.{transport}
use parda.Protocol.Envelope.{MessageEnvelope}
use parda.Protocol.Mixnet.{
  choose_path, build_packet, build_packet_to, route_of, encode_node_address, tagged_destination,
  encode_fixed,
}
use parda.Protocol.Transport.{
  TransportLayer, Json, Url, mix_packet, Reply, MixTransport, direct_send, direct_receive, mix_send,
  mix_receive, outgoing, dispatch, checked,
}
use parda.Protocol.Transport.Mix.{logged, OnlyLegs, mix_receive-OnlyLegs}
use parda.Protocol.Transport.Direct.{RelayJson, relay_http, pending, direct_receive-direct_send}
use parda.Server.Store.{RelayStore, StoredEnvelope, empty}
use parda.Server.Routes.{Body, messages}
use parda.Mesh.Relay.{default_config}
use parda.Mesh.Relay as Relay
use parda.Mesh.Transport.{MeshTransport}
use parda.Mesh.Transport as Mesh
use parda.Mesh.Transport.Send.{Sent, IsSendable}
use parda.Mesh.Hybrid.{send, mesh_transport, hybrid_send_lem}
use parda.Tests.{test_codec, test_envelope, test_sphinx}

abbrev to_bob : MessageEnvelope
to_bob = record test_envelope { recipient_id = "bob" }

abbrev json : Json Body
json = record {
  envelope_json = λ e. some (7 ∷ []);
  pull_json = λ r. some (8 ∷ []);
  messages_of = λ body. elim body [
    | messages stored ↦ some (map (λ (s : StoredEnvelope). s.envelope) stored)
    | _ ↦ none
  ];
}

abbrev relay_json : RelayJson Body
relay_json = record { envelope_of = λ b. some to_bob; body_json = λ body. body }

abbrev uuid : RelayStore → String
uuid s = "m1"

direct_receive-direct_send_example :
    let http = relay_http relay_json uuid in
    let (sent, s₁) = direct_send json http to_bob empty in
    let (received, s₂) = direct_receive json http "bob" s₁ in
    (sent ≡ ok tt)
    × ((envelopes : List MessageEnvelope) × (received ≡ ok envelopes)
        × Perm envelopes (to_bob ∷ pending "bob" empty))
    × ((direct_receive json http "bob" s₂).0 ≡ ok [])
direct_receive-direct_send_example =
    direct_receive-direct_send json relay_json uuid to_bob (7 ∷ []) empty refl refl (λ stored. refl)
      refl

abbrev three_nodes : MixTransport
three_nodes = record {
  topology =
      (record { address = 1 ∷ []; public_key = [] })
      ∷ (record { address = 2 ∷ []; public_key = [] })
      ∷ (record { address = 3 ∷ []; public_key = [] })
      ∷ [];
  path_length = 3;
  avg_delay = 200;
  payload_size = 512;
}

abbrev on_post : List Url → Bytes → Option (Reply Body)
on_post log body = some (record { status = 202; body = none })

abbrev on_get : List Url → Option (Reply Body)
on_get log = some (record { status = 200; body = some (messages []) })

mix_send-contacts :
    mix_send test_sphinx json (logged on_post on_get) three_nodes to_bob []
    ≡ (ok tt, mix_packet (1 ∷ []) ∷ [])
unfolding mix_send outgoing choose_path build_packet build_packet_to route_of encode_node_address
    tagged_destination encode_fixed dispatch checked
mix_send-contacts = refl

mix_receive-OnlyLegs_example :
    OnlyLegs test_sphinx json on_post on_get "a1b2" three_nodes []
      (mix_receive test_sphinx json (logged on_post on_get) "a1b2" three_nodes "bob" [])
mix_receive-OnlyLegs_example =
    mix_receive-OnlyLegs test_sphinx json on_post on_get "a1b2" "bob" three_nodes []

abbrev down : TransportLayer ℕ
down = record {
  send = λ e n. (err (transport "unreachable"), n + 1);
  receive = λ r n. (err (transport "unreachable"), n + 1);
}

abbrev mesh : MeshTransport
mesh = Mesh.new (Relay.new default_config) (replicate 24 1)

abbrev expand : Bytes → Bytes → Bytes
expand key info = info ++ key

abbrev hash : Bytes → Bytes
hash b = b

hybrid_send_lem_example :
    let fallback =
      mesh_transport test_codec hash expand (λ i. replicate 32 i) (λ xs. xs) 2000 2500 in
    let (sent, (_, t')) = send down fallback to_bob (0, mesh) in
    (is_ok (down.send to_bob 0).0 ≡ true → (sent ≡ ok tt) × (t' ≡ mesh))
    × (is_ok (down.send to_bob 0).0 ≡ false
        → ((is_ok sent ≡ true)
            ↔ IsSendable test_codec hash 2000 2500 (record to_bob { recipient_id = "" }) mesh)
          × (is_ok sent ≡ true
              → Sent test_codec hash 2000 2500 (record to_bob { recipient_id = "" }) mesh t')
          × (is_ok sent ≡ false → t' ≡ mesh))
hybrid_send_lem_example =
    hybrid_send_lem down test_codec hash expand (λ i. replicate 32 i) (λ xs. xs) 2000 2500 to_bob 0
      mesh
