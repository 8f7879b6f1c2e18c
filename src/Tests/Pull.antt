-- ===== src/Tests/Pull.antt =====
-- A pull through three mix nodes to a relay that holds one message.
use parda.Base.{◌≤◌, ◌<◌, ◌≡◌, refl, none, some, [], ◌∷◌, map, Bytes, replicate}
use parda.Result.{ok}
use parda.Protocol.Mixnet.{
  Sphinx, PullRequest, choose_path, build_packet_to, route_of, encode_node_address, encode_fixed,
  tagged_destination, pull_destination_tag,
}
use parda.Protocol.Mixnet.Onion.{Onion, last, hop}
use parda.Protocol.Transport.{Json, mix_receive, direct_receive}
use parda.Protocol.Transport.Direct.{RelayJson, relay_http}
use parda.Protocol.Transport.Pull.{mix_http, landed, mix_receive-direct_receive}
use parda.Mixnode.{NodeJson}
use parda.Server.Store.{RelayStore, StoredEnvelope, empty}
use parda.Server.Routes.{Body, success, messages, fetch_messages, fetch_pull_route}
use parda.Tests.{test_envelope}
use parda.Tests.Node.{
  token, layered, layered-Measured, node_json, network, described, others, rest_hops, client,
}

abbrev pull_token : Bytes
pull_token = 13 ∷ 80 ∷ 65 ∷ 82 ∷ 68 ∷ 65 ∷ 45 ∷ 80 ∷ 85 ∷ 76 ∷ 76 ∷ 45 ∷ 86 ∷ 49 ∷ replicate 18 0

abbrev sphinx : Sphinx
sphinx = layered pull_token

abbrev request : PullRequest
request = record { recipient_id = "bob"; rendezvous_token = "t1" }

abbrev pulling_json : NodeJson
pulling_json = record node_json { pull_of = λ b. some request; pull_json = λ r. some (7 ∷ []) }

abbrev client_json : Json Body
client_json = record {
  envelope_json = λ e. none;
  pull_json = λ r. some (7 ∷ []);
  messages_of = λ b. elim b [
    | Body.messages stored ↦ some (map (λ (x : StoredEnvelope). x.envelope) stored)
    | Body.api_ok m ↦ none
    | Body.error m ↦ none
    | Body.issue_failed m ↦ none
    | Body.message_id m ↦ none
    | Body.bundle b ↦ none
    | Body.sender_certificate c ↦ none
  ];
}

abbrev relay_json : RelayJson Body
relay_json = record { envelope_of = λ b. none; body_json = λ b. b }

abbrev one_message : RelayStore
one_message = record empty {
  messages =
      (record {
        recipient_id = "bob";
        stored = record { id = "m1"; envelope = record test_envelope { recipient_id = "bob" } };
      })
      ∷ [];
}

three_layers :
    Onion sphinx pull_destination_tag (7 ∷ []) ((1 ∷ [], 3 ∷ 1 ∷ []) ∷ rest_hops) (11 ∷ [])
unfolding encode_node_address encode_fixed tagged_destination
three_layers = hop {token = token 2} refl refl refl (
    hop {token = token 3} refl refl refl
      (last {token = pull_token} {wrapped = 7 ∷ []} refl refl refl))

path_chosen : choose_path sphinx client.topology 3 ≡ ok (described 1 ∷ others)
unfolding choose_path
path_chosen = refl

packet_built :
    build_packet_to sphinx (7 ∷ []) (described 1 ∷ others) 200 512 pull_destination_tag
    ≡ ok (11 ∷ [])
unfolding build_packet_to route_of encode_node_address encode_fixed tagged_destination
packet_built = refl

mix_receive-direct_receive_example :
    let (received, n) =
      mix_receive sphinx client_json
        (mix_http sphinx pulling_json network relay_json (λ r. "m2") (λ r. 3000) 3 600 299)
        "t1"
        client
        "bob"
        (record { at_rest = one_message; in_flight = [] }) in
    let late = (landed sphinx pulling_json network relay_json (λ r. "m2") (λ r. 3000) n).at_rest in
    (600 ≤ 299
      → received
        ≡ (direct_receive client_json (relay_http relay_json (λ r. "m2")) "bob" one_message).0)
    × (299 < 600
        → (received ≡ ok [])
          × ((fetch_messages "bob" late).0 ≡ (success, messages []))
          × ((fetch_pull_route "t1" late).0 ≡ (fetch_messages "bob" one_message).0))
mix_receive-direct_receive_example =
    mix_receive-direct_receive sphinx pulling_json network relay_json (λ r. "m2") (λ r. 3000)
      client_json client "bob" "t1" one_message 600 299 (described 1) others (3 ∷ 1 ∷ []) (7 ∷ [])
      (11 ∷ []) rest_hops (layered-Measured pull_token) tt refl refl refl refl refl path_chosen
      packet_built three_layers (refl, (refl, (refl, tt)))
