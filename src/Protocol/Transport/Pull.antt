-- ===== src/Protocol/Transport/Pull.antt =====
-- A pull through the mix network against the relay's handlers: the mix nodes' posts reach the relay.
use parda.Base.{
  ℕ, suc, ◌≡◌, refl, ◌∙◌, ◌&&◌, Option, none, some, List, [], ◌∷◌, ◌++◌, map, String, Bytes,
  string_key, ◌==◌, if◌then◌else◌, length, arith, true, false, leb, ◌≤◌, ◌<◌,
}
use parda.HashMap.{Distinct, contains_key}
use parda.Result.{ok}
use parda.Protocol.Mixnet.{
  Sphinx, MixNodeDescriptor, PullRequest, choose_path, build_packet_to, pull_destination_tag,
}
use parda.Protocol.Mixnet.Onion.{Onion, Measured}
use parda.Protocol.Transport.{
  Http, Url, relay, mix_packet, Json, MixTransport, mix_receive, pull_packet, direct_receive,
}
use parda.Protocol.Transport.Direct.{RelayJson, relay_post, relay_get, relay_http}
use parda.Server.Store.{RelayStore}
use parda.Server.Routes.{stage_pull_route, fetch_pull_route, fetch_messages, success, messages}
use parda.Server.Routes.Delivery.{fetch_pull_route_lem, fetch_pull_route-unknown}
use parda.Mixnode.{NodeJson}
use parda.Mixnode.Walk.{Outbox, walk, Runs, forwards, walk-pull}

module _ {B : Type 0} (sphinx : Sphinx) (json : NodeJson) (network : Bytes → Option Bytes)
    (relay_json : RelayJson B) (uuid : RelayStore → String) (now : RelayStore → ℕ) where
  -- what the relay makes of a node's post
  abbrev pub at_relay : Url → Bytes → RelayStore → RelayStore
  at_relay (mix_packet address) body r = r
  at_relay (relay (version ∷ resource ∷ [])) body r =
      if version == "v1" && resource == "pulls"
      then elim (json.pull_of body) [
        | none ↦ r
        | some request ↦ (stage_pull_route request (now r) r).1
      ]
      else r
  at_relay url body r = (relay_post relay_json uuid url body r).1

  abbrev pub collected : Outbox → RelayStore → RelayStore
  collected [] r = r
  collected ((url, body) ∷ posts) r = collected posts (at_relay url body r)

  -- The relay, and what the nodes have posted that is still on its way.
  pub record Network : Type 0 where
    pub at_rest : RelayStore
    pub in_flight : Outbox

  abbrev pub landed : Network → Network
  landed n = record { at_rest = collected n.in_flight n.at_rest; in_flight = [] }

  -- A client's HTTP: a packet for a node that is run is accepted, and all that the nodes post in
  -- consequence, on fuel for each node visited, is on its way for `delay_ms`. A retrieval follows
  -- `wait_ms` later, so that it finds those posts landed unless they take longer.
  abbrev pub mix_http : ℕ → ℕ → ℕ → Http Network B
  mix_http fuel delay_ms wait_ms = record {
    post = λ url body n. elim url [
      | mix_packet address ↦ elim (network address) [
        | none ↦ (none, n)
        | some secret ↦ (
          some (record { status = 202; body = none }),
          record n { in_flight = n.in_flight ++ walk sphinx json network fuel address body },
        )
      ]
      | relay path ↦
          let (answer, r) = relay_post relay_json uuid (relay path) body n.at_rest in
          (answer, record n { at_rest = r })
    ];
    get = λ url n.
        let n' = if leb delay_ms wait_ms then landed n else n in
        let (answer, r) = relay_get relay_json url n'.at_rest in
        (answer, record n' { at_rest = r });
  }

  collected-forwards :
      (posts last : Outbox) (hops : List (Bytes × Bytes)) (r : RelayStore)
      → map (λ p. p.0) posts ≡ forwards sphinx json network hops
      → collected (posts ++ last) r ≡ collected last r
  collected-forwards [] last hops r e = refl
  collected-forwards (p ∷ posts) last [] r e = cc
  collected-forwards ((relay path, body) ∷ posts) last (h ∷ hops) r e = cc
  collected-forwards ((mix_packet address, body) ∷ posts) last (h ∷ hops) r e =
      collected-forwards posts last hops r (ground (arith, e))

  -- Where a packet is built for the path, is in layers with the pull destination for its hops, every
  -- hop is run, the request reads back from its JSON and an answer without messages as none; and the
  -- token is new to the relay, among whose stages none stands twice; with fuel for each hop: if the
  -- request reaches the relay within the wait, receiving through the mix network returns exactly what
  -- receiving directly would have returned. If it takes longer, receiving returns no messages, and
  -- once the request has arrived a direct fetch finds none either: what a direct fetch would have
  -- answered is what the relay then answers under the token.
  pub mix_receive-direct_receive :
      (client : Json B) (t : MixTransport) (recipient_id rendezvous_token : String) (r : RelayStore)
      (delay_ms wait_ms : ℕ) (first : MixNodeDescriptor) (path : List MixNodeDescriptor)
      (secret payload packet : Bytes) (rest : List (Bytes × Bytes))
      → let request : PullRequest = record {
        recipient_id = recipient_id;
        rendezvous_token = rendezvous_token;
      } in
        Measured sphinx
        → Distinct r.pull_stages
        → contains_key rendezvous_token r.pull_stages ≡ false
        → client.pull_json request ≡ some payload
        → json.pull_of payload ≡ some request
        → json.pull_json request ≡ some payload
        → client.messages_of (relay_json.body_json (messages [])) ≡ some []
        → choose_path sphinx t.topology t.path_length ≡ ok (first ∷ path)
        → build_packet_to sphinx payload
            (first ∷ path)
            t.avg_delay
            t.payload_size
            pull_destination_tag
          ≡ ok packet
        → Onion sphinx pull_destination_tag payload ((first.address, secret) ∷ rest) packet
        → Runs sphinx json network ((first.address, secret) ∷ rest)
        → let (received, n) =
            mix_receive sphinx client
              (mix_http (suc (length rest)) delay_ms wait_ms)
              rendezvous_token
              t
              recipient_id
              (record { at_rest = r; in_flight = [] }) in
          let late = (landed n).at_rest in
          (delay_ms ≤ wait_ms
            → received ≡ (direct_receive client (relay_http relay_json uuid) recipient_id r).0)
          × (wait_ms < delay_ms
              → (received ≡ ok [])
                × ((fetch_messages recipient_id late).0 ≡ (success, messages []))
                × ((fetch_pull_route rendezvous_token late).0 ≡ (fetch_messages recipient_id r).0))
  unfolding mix_receive direct_receive
  mix_receive-direct_receive client t recipient_id rendezvous_token r delay_ms wait_ms first path
        secret payload packet rest m distinct unknown printed read node_printed empty_read chosen
        built onion runs =
      let request : PullRequest = record {
        recipient_id = recipient_id;
        rendezvous_token = rendezvous_token;
      } in
      let (posts, walked, passed) =
        walk-pull sphinx json network payload payload request first.address secret packet rest m
          read node_printed runs onion in
      let last : Outbox = (relay ("v1" ∷ "pulls" ∷ []), payload) ∷ [] in
      let staged : collected (posts ++ last) r ≡ (stage_pull_route request (now r) r).1 =
        collected-forwards posts last rest r passed ∙ (rw read refl) in
      let (same, _, emptied) = fetch_pull_route_lem request (now r) r distinct in
      let packed : pull_packet sphinx client request t ≡ ok (first.address, packet) =
        rw (pull_packet, printed, chosen, built) refl in
      (
        λ soon.
            let lands : leb delay_ms wait_ms ≡ true = ground arith in
            rw (mix_receive, packed, runs.0, walked, lands, staged, same) refl,
        λ slow.
            let flies : leb delay_ms wait_ms ≡ false = ground arith in
            let none_there = fetch_pull_route-unknown rendezvous_token r unknown in
            (
              rw (mix_receive, packed, runs.0, walked, flies, none_there, empty_read) refl,
              rw (mix_receive, packed, runs.0, walked, flies, none_there, staged) emptied,
              rw (mix_receive, packed, runs.0, walked, flies, none_there, staged) same,
            ),
      )
