-- ===== src/Protocol/Transport.antt =====
-- protocol/src/transport.rs: the transport interface, sending over HTTP to the relay and through
-- the mix network. The HTTP client is an interface over a state of its own, the JSON of the bodies
-- and the random rendezvous token are parameters; the pause between the two legs of a pull passes
-- no data and is left out.
pub mod Direct
pub mod Mix
pub mod Pull
use parda.Base.{
  ℕ, Bool, true, false, ◌&&◌, Option, none, some, List, [], ◌∷◌, String, Bytes, leb, ltb,
  if◌then◌else◌,
}
use parda.Result.{Result, ok, err, ok_or, ◌>>=◌, ◌>>◌}
use parda.Protocol.Error.{ProtoResult, codec, transport, internal}
use parda.Protocol.Envelope.{MessageEnvelope}
use parda.Protocol.Mixnet.{
  MixNodeDescriptor, Sphinx, min_path_length, default_mix_payload_size, pull_destination_tag,
  PullRequest, choose_path, build_packet, build_packet_to,
}

pub record TransportLayer (S : Type 0) : Type 0 where
  pub send : MessageEnvelope → S → ProtoResult (Unit {0}) × S
  pub receive : String → S → ProtoResult (List MessageEnvelope) × S

-- The relay's base URL with the segments of a path, or a mix node's `/mix/packet`.
pub data Url : Type 0 where
  relay : List String → Url
  mix_packet : Bytes → Url

-- `B` is the type of the bodies that are answered.
pub record Reply (B : Type 0) : Type 0 where
  pub status : ℕ
  pub body : Option B

pub record Http (S B : Type 0) : Type 0 where
  pub post : Url → Bytes → S → Option (Reply B) × S
  pub get : Url → S → Option (Reply B) × S

-- serde_json on the three bodies
pub record Json (B : Type 0) : Type 0 where
  pub envelope_json : MessageEnvelope → Option Bytes
  pub pull_json : PullRequest → Option Bytes
  pub messages_of : B → Option (List MessageEnvelope)

-- `send().await?.error_for_status()?`
unfoldable pub checked : {B : Type 0} → Option (Reply B) → ProtoResult (Reply B)
checked none = err (transport "unreachable")
checked (some reply) =
    if leb 400 reply.status && ltb reply.status 600 then err (transport "refused") else ok reply

abbrev pub and_then {ℓ} :
    {B : Type ℓ} → Option B → (B → Option (List MessageEnvelope)) → Option (List MessageEnvelope)
and_then none f = none
and_then (some body) f = f body

abbrev pub done {ℓ} : {A : Type ℓ} → ProtoResult A → ProtoResult (Unit {0})
done (ok reply) = ok tt
done (err e) = err e

module _ {S B : Type 0} (json : Json B) (http : Http S B) where
  -- `FetchMessagesResponse`
  pub fetched : Option (Reply B) → ProtoResult (List MessageEnvelope)
  unfolding checked
  fetched answer = do
    reply ← checked answer
    ok_or (and_then reply.body json.messages_of) (transport "error decoding response body")

  pub fetch : Url → S → ProtoResult (List MessageEnvelope) × S
  unfolding fetched
  fetch url s = let (answer, s') = http.get url s in (fetched answer, s')

  pub direct_send : MessageEnvelope → S → ProtoResult (Unit {0}) × S
  unfolding checked
  direct_send envelope s = elim (json.envelope_json envelope) [
    | none ↦ (err (transport "builder error"), s)
    | some body ↦
        let (answer, s') =
          http.post (relay ("v1" ∷ "messages" ∷ envelope.recipient_id ∷ [])) body s in
        (done (checked answer), s')
  ]

  pub direct_receive : String → S → ProtoResult (List MessageEnvelope) × S
  unfolding fetch
  direct_receive recipient_id s = fetch (relay ("v1" ∷ "messages" ∷ recipient_id ∷ [])) s

  abbrev pub direct_transport : TransportLayer S
  direct_transport = record { send = direct_send; receive = direct_receive }

abbrev pub default_avg_delay : ℕ
default_avg_delay = 200

pub record MixTransport : Type 0 where
  pub topology : List MixNodeDescriptor
  pub path_length : ℕ
  pub avg_delay : ℕ
  pub payload_size : ℕ

unfoldable pub new : List MixNodeDescriptor → MixTransport
new topology = record {
  topology = topology;
  path_length = min_path_length;
  avg_delay = default_avg_delay;
  payload_size = default_mix_payload_size;
}

abbrev pub with_path_length : ℕ → MixTransport → MixTransport
with_path_length path_length t = record t { path_length = path_length }

abbrev pub with_avg_delay : ℕ → MixTransport → MixTransport
with_avg_delay avg_delay t = record t { avg_delay = avg_delay }

abbrev pub with_payload_size : ℕ → MixTransport → MixTransport
with_payload_size payload_size t = record t { payload_size = payload_size }

-- `&path[0]`, which panics on an empty path
abbrev pub first_hop : List MixNodeDescriptor → ProtoResult MixNodeDescriptor
first_hop [] = err (internal "index out of bounds")
first_hop (d ∷ path) = ok d

-- the POST's target and body
abbrev pub addressed : List MixNodeDescriptor → ProtoResult Bytes → ProtoResult (Bytes × Bytes)
addressed path packet = do
  packet_bytes ← packet
  hop ← first_hop path
  ok (hop.address, packet_bytes)

module _ {B : Type 0} (sphinx : Sphinx) (json : Json B) where
  -- The packet and the node that it goes to, before anything is sent.
  unfoldable pub outgoing : MessageEnvelope → MixTransport → ProtoResult (Bytes × Bytes)
  outgoing envelope t = do
    path ← choose_path sphinx t.topology t.path_length
    envelope_bytes ← ok_or (json.envelope_json envelope) (codec "envelope")
    addressed path (build_packet sphinx envelope_bytes path t.avg_delay t.payload_size)

  pub pull_packet : PullRequest → MixTransport → ProtoResult (Bytes × Bytes)
  pull_packet request t = do
    request_bytes ← ok_or (json.pull_json request) (codec "pull request")
    path ← choose_path sphinx t.topology t.path_length
    addressed path
        (build_packet_to sphinx request_bytes path t.avg_delay t.payload_size pull_destination_tag)

module _ {S B : Type 0} (sphinx : Sphinx) (json : Json B) (http : Http S B) where
  -- the packet's POST to its first hop
  unfoldable pub dispatch : ProtoResult (Bytes × Bytes) → S → ProtoResult (Unit {0}) × S
  unfolding checked
  dispatch (err e) s = (err e, s)
  dispatch (ok (address, packet_bytes)) s =
      let (answer, s') = http.post (mix_packet address) packet_bytes s in
      (done (checked answer), s')

  unfoldable pub mix_send : MixTransport → MessageEnvelope → S → ProtoResult (Unit {0}) × S
  unfolding outgoing dispatch
  mix_send t envelope s = dispatch (outgoing sphinx json envelope t) s

  -- the second leg, unless the first failed
  pub retrieve : String → ProtoResult (Unit {0}) × S → ProtoResult (List MessageEnvelope) × S
  retrieve rendezvous_token (err e, s) = (err e, s)
  retrieve rendezvous_token (ok u, s) =
      fetch json http (relay ("v1" ∷ "pulls" ∷ rendezvous_token ∷ [])) s

  pub mix_receive : String → MixTransport → String → S → ProtoResult (List MessageEnvelope) × S
  unfolding pull_packet dispatch retrieve
  mix_receive rendezvous_token t recipient_id s =
      let request : PullRequest = record {
        recipient_id = recipient_id;
        rendezvous_token = rendezvous_token;
      } in
      retrieve rendezvous_token (dispatch (pull_packet sphinx json request t) s)

  abbrev pub mix_transport : String → MixTransport → TransportLayer S
  mix_transport rendezvous_token t = record {
    send = mix_send t;
    receive = mix_receive rendezvous_token t;
  }
