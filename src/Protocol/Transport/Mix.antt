-- ===== src/Protocol/Transport/Mix.antt =====
-- What the mix transport contacts: the first hop of a path, and the relay only for a stage that a
-- random token names. The environment answers as it likes, by the contacts made so far.
use parda.Base.{
  ◌≤◌, ◌≡◌, refl, ap, ◌∙◌, ◌⊎◌, inl, inr, Option, List, [], ◌∷◌, String, Bytes, arith, Option-cases,
}
use parda.Result.{ok, err, Result-cases}
use parda.Protocol.Error.{ProtoResult}
use parda.Protocol.Envelope.{MessageEnvelope}
use parda.Protocol.Mixnet.{
  PullRequest, MixNodeDescriptor, Sphinx, min_path_length, choose_path, build_packet,
  build_packet_to, pull_destination_tag,
}
use parda.Protocol.Transport.{
  Http, Url, relay, mix_packet, Reply, Json, MixTransport, addressed, checked, outgoing,
  pull_packet, dispatch, mix_send, retrieve, fetch, fetched, mix_receive,
}

-- An HTTP client that keeps the URLs that it has contacted.
abbrev pub logged :
    {B : Type 0}
    → (List Url → Bytes → Option (Reply B))
    → (List Url → Option (Reply B))
    → Http (List Url) B
logged on_post on_get = record {
  post = λ url body log. (on_post (url ∷ log) body, url ∷ log);
  get = λ url log. (on_get (url ∷ log), url ∷ log);
}

-- The node is the first of a path of at least the least length that the topology offers.
pub record FirstHop (sphinx : Sphinx) (t : MixTransport) (address : Bytes) : Type 0 where
  pub hop : MixNodeDescriptor
  pub rest : List MixNodeDescriptor
  pub chosen : choose_path sphinx t.topology t.path_length ≡ ok (hop ∷ rest)
  pub addressed : hop.address ≡ address
  pub long_enough : min_path_length ≤ t.path_length

addressed-hop :
    (path : List MixNodeDescriptor) (built : ProtoResult Bytes) (address packet : Bytes)
    → addressed path built ≡ ok (address, packet)
    → (hop : MixNodeDescriptor) × (rest : List MixNodeDescriptor) × (path ≡ hop ∷ rest)
      × (hop.address ≡ address)
addressed-hop [] (err e) address packet h = absurd (ground arith)
addressed-hop [] (ok bytes) address packet h = absurd (ground arith)
addressed-hop (d ∷ path) (err e) address packet h = absurd (ground arith)
addressed-hop (d ∷ path) (ok bytes) address packet h = (d, path, refl, ground arith)

module _ {B : Type 0} (sphinx : Sphinx) (json : Json B) where
  path-FirstHop :
      (t : MixTransport) (path : List MixNodeDescriptor) (built : ProtoResult Bytes)
      (address packet : Bytes)
      → choose_path sphinx t.topology t.path_length ≡ ok path
      → addressed path built ≡ ok (address, packet)
      → FirstHop sphinx t address
  unfolding choose_path
  path-FirstHop t path built address packet c h =
      let (hop, rest, starts, same) = addressed-hop path built address packet h in
      record {
        hop = hop;
        rest = rest;
        chosen = c ∙ ap ok starts;
        addressed = same;
        long_enough = ground arith;
      }

  outgoing-FirstHop :
      (envelope : MessageEnvelope) (t : MixTransport) (address packet : Bytes)
      → outgoing sphinx json envelope t ≡ ok (address, packet)
      → FirstHop sphinx t address
  unfolding outgoing
  outgoing-FirstHop envelope t address packet h =
      elim (Result-cases (choose_path sphinx t.topology t.path_length)) [
        | inl (e, p) ↦ absurd (ground arith)
        | inr (path, p) ↦ elim (Option-cases (json.envelope_json envelope)) [
          | inl q ↦ absurd (ground arith)
          | inr (bytes, q) ↦
              path-FirstHop t path (build_packet sphinx bytes path t.avg_delay t.payload_size)
                address packet p (ground arith)
        ]
      ]

  pull_packet-FirstHop :
      (request : PullRequest) (t : MixTransport) (address packet : Bytes)
      → pull_packet sphinx json request t ≡ ok (address, packet)
      → FirstHop sphinx t address
  unfolding pull_packet
  pull_packet-FirstHop request t address packet h = elim (Option-cases (json.pull_json request)) [
    | inl q ↦ absurd (ground arith)
    | inr (bytes, q) ↦ elim (Result-cases (choose_path sphinx t.topology t.path_length)) [
      | inl (e, p) ↦ absurd (ground arith)
      | inr (path, p) ↦
          path-FirstHop t path
            (build_packet_to sphinx bytes path t.avg_delay t.payload_size pull_destination_tag)
            address packet p (ground arith)
    ]
  ]

  module _ (on_post : List Url → Bytes → Option (Reply B))
      (on_get : List Url → Option (Reply B)) where
    -- What a call may have contacted, by whether it succeeded.
    abbrev pub OnlyFirstHop : MixTransport → List Url → ProtoResult (Unit {0}) × List Url → Type 0
    OnlyFirstHop t log (ok u, after) =
        (address : Bytes) × FirstHop sphinx t address × (after ≡ mix_packet address ∷ log)
    OnlyFirstHop t log (err e, after) =
        (after ≡ log)
        ⊎ (address : Bytes) × FirstHop sphinx t address × (after ≡ mix_packet address ∷ log)

    dispatch-OnlyFirstHop :
        (t : MixTransport) (o : ProtoResult (Bytes × Bytes)) (log : List Url)
        → ((address packet : Bytes) → o ≡ ok (address, packet) → FirstHop sphinx t address)
        → OnlyFirstHop t log (dispatch sphinx json (logged on_post on_get) o log)
    unfolding dispatch
    dispatch-OnlyFirstHop t (err e) log h = inl refl
    dispatch-OnlyFirstHop t (ok (address, packet)) log h =
        elim (Result-cases (checked (on_post (mix_packet address ∷ log) packet))) [
          | inl (e, p) ↦ rw (p) (inr (address, h address packet refl, refl))
          | inr (reply, p) ↦ rw (p) (address, h address packet refl, refl)
        ]

    -- Whatever the environment answers, a sending contacts nothing but the first hop of a chosen
    -- path of at least the least length, once, and it succeeds only if it did contact it.
    pub mix_send-OnlyFirstHop :
        (t : MixTransport) (envelope : MessageEnvelope) (log : List Url)
        → OnlyFirstHop t log (mix_send sphinx json (logged on_post on_get) t envelope log)
    unfolding mix_send
    mix_send-OnlyFirstHop t envelope log =
        dispatch-OnlyFirstHop t (outgoing sphinx json envelope t) log (outgoing-FirstHop envelope t)

    abbrev stage_url : String → Url
    stage_url rendezvous_token = relay ("v1" ∷ "pulls" ∷ rendezvous_token ∷ [])

    -- What a pull may have contacted: both legs if it succeeded, else the first of them or none.
    abbrev pub OnlyLegs :
        String → MixTransport → List Url → ProtoResult (List MessageEnvelope) × List Url → Type 0
    OnlyLegs token t log (ok envelopes, after) =
        (address : Bytes) × FirstHop sphinx t address
        × (after ≡ stage_url token ∷ mix_packet address ∷ log)
    OnlyLegs token t log (err e, after) =
        (after ≡ log)
        ⊎ (address : Bytes) × FirstHop sphinx t address
          × ((after ≡ mix_packet address ∷ log)
              ⊎ (after ≡ stage_url token ∷ mix_packet address ∷ log))

    retrieve-OnlyLegs :
        (token : String) (t : MixTransport) (log : List Url)
        (sent : ProtoResult (Unit {0}) × List Url)
        → OnlyFirstHop t log sent
        → OnlyLegs token t log (retrieve sphinx json (logged on_post on_get) token sent)
    unfolding retrieve fetch
    retrieve-OnlyLegs token t log (err e, after) (inl same) = inl same
    retrieve-OnlyLegs token t log (err e, after) (inr (address, first, one)) =
        inr (address, first, inl one)
    retrieve-OnlyLegs token t log (ok u, after) (address, first, one) =
        let both = ap (λ (l : List Url). stage_url token ∷ l) one in
        elim (Result-cases
          (fetched json (logged on_post on_get) (on_get (stage_url token ∷ after)))) [
            | inl (e, p) ↦ rw (p) (inr (address, first, inr both))
            | inr (envelopes, p) ↦ rw (p) (address, first, both)
          ]

    -- Whatever the environment answers, a receiving contacts the first hop of a chosen path of at
    -- least the least length, then the relay only under the random token, and nothing else; it
    -- never asks for the recipient's mailbox, and it does not ask the relay at all unless the first
    -- hop was contacted before.
    pub mix_receive-OnlyLegs :
        (token recipient : String) (t : MixTransport) (log : List Url)
        → OnlyLegs token t log
            (mix_receive sphinx json (logged on_post on_get) token t recipient log)
    unfolding mix_receive
    mix_receive-OnlyLegs token recipient t log =
        let request : PullRequest = record { recipient_id = recipient; rendezvous_token = token } in
        let packet = pull_packet sphinx json request t in
        retrieve-OnlyLegs token t log (dispatch sphinx json (logged on_post on_get) packet log)
          (dispatch-OnlyFirstHop t packet log (pull_packet-FirstHop request t))
