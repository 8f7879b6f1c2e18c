-- ===== src/Mixnode/Walk.antt =====
-- A packet's way through the nodes: each hands it to the next, and the last one delivers.
pub mod Sending
use parda.Base.{
  ℕ, zero, suc, ◌≡◌, refl, ap, ◌∙◌, Option, none, some, List, [], ◌∷◌, ◌++◌, map, Bytes, length,
}
use parda.Result.{ok}
use parda.Protocol.Envelope.{MessageEnvelope}
use mathlib.Core.List.{append-nil}
use parda.Protocol.Mixnet.{
  Sphinx, UnwrapOutcome, PullRequest, process_packet, unwrap_final, forward, deliver, pull_request,
  drop_cover, relay_destination_tag, pull_destination_tag, cover_destination_tag,
}
use parda.Protocol.Mixnet.Onion.{
  Onion, last, hop, Measured, process_packet-last, process_packet-hop, unwrap_final-relay,
  unwrap_final-pull, unwrap_final-cover,
}
use parda.Protocol.Transport.{Http, Url, relay, mix_packet}
use parda.Mixnode.{
  NodeJson, MixNodeState, receive_packet, schedule, forward_packet, deliver_envelope, stage_pull,
}

-- A client that only collects what is posted.
abbrev pub Outbox : Type 0
Outbox = List (Url × Bytes)

abbrev pub outbox : Http Outbox Bytes
outbox = record {
  post = λ url body s. (some (record { status = 202; body = none }), (url, body) ∷ s);
  get = λ url s. (none, s);
}

abbrev pub node : Bytes → MixNodeState
node secret = record { secret_key = secret; public_key = [] }

-- What a node posted, with what becomes of it at the next node.
abbrev pub onward : (Bytes → Bytes → Outbox) → Outbox → Outbox
onward next [] = []
onward next ((mix_packet address, body) ∷ s) = (mix_packet address, body) ∷ next address body
onward next ((relay path, body) ∷ s) = (relay path, body) ∷ []

module _ (sphinx : Sphinx) (json : NodeJson) (network : Bytes → Option Bytes) where
  -- The posts that follow a packet at an address, on fuel: one for each node visited. A node that
  -- nobody runs takes nothing.
  pub walk : ℕ → Bytes → Bytes → Outbox
  walk zero address packet = []
  walk (suc fuel) address packet = elim (network address) [
    | none ↦ []
    | some secret ↦ onward (walk fuel) (receive_packet json outbox sphinx (node secret) packet []).1
  ]

  -- Every hop's address is run with the hop's secret key.
  abbrev pub Runs : List (Bytes × Bytes) → Type 0
  Runs [] = Unit
  Runs ((address, secret) ∷ hops) = (network address ≡ some secret) × Runs hops

  abbrev pub forwards : List (Bytes × Bytes) → List Url
  forwards = map (λ h. mix_packet h.0)

  receive_packet-outcome :
      (secret packet : Bytes) (outcome : UnwrapOutcome)
      → process_packet sphinx packet secret ≡ ok outcome
      → (receive_packet json outbox sphinx (node secret) packet []).1
        ≡ schedule json outbox outcome []
  unfolding receive_packet
  receive_packet-outcome secret packet outcome p = rw (receive_packet, p) refl

  schedule-deliver :
      (payload body : Bytes) (envelope : MessageEnvelope)
      → json.envelope_of payload ≡ some envelope
      → json.envelope_json envelope ≡ some body
      → schedule json outbox (deliver payload) []
        ≡ (relay ("v1" ∷ "messages" ∷ envelope.recipient_id ∷ []), body) ∷ []
  unfolding schedule deliver_envelope
  schedule-deliver payload body envelope read printed =
      rw (schedule, deliver_envelope, read, printed) refl

  schedule-pull :
      (payload body : Bytes) (request : PullRequest)
      → json.pull_of payload ≡ some request
      → json.pull_json request ≡ some body
      → schedule json outbox (pull_request payload) [] ≡ (relay ("v1" ∷ "pulls" ∷ []), body) ∷ []
  unfolding schedule stage_pull
  schedule-pull payload body request read printed = rw (schedule, stage_pull, read, printed) refl

  schedule-forward :
      (next inner : Bytes) (delay : ℕ)
      → schedule json outbox (forward next delay inner) [] ≡ (mix_packet next, inner) ∷ []
  unfolding schedule forward_packet
  schedule-forward next inner delay = refl

  -- With fuel for each hop, a packet in layers goes from each running hop to the next, and what the
  -- last one posts for the outcome of its tag, if that goes to the relay or nowhere, is all there is.
  pub walk-layers :
      (tag payload : Bytes) (outcome : UnwrapOutcome) (final : Outbox)
      → ((wrapped : Bytes)
          → sphinx.recover_plaintext wrapped ≡ some payload
          → unwrap_final sphinx tag wrapped ≡ ok outcome)
      → schedule json outbox outcome [] ≡ final
      → ((next : Bytes → Bytes → Outbox) → onward next final ≡ final)
      → (address secret packet : Bytes) (rest : List (Bytes × Bytes)) → Measured sphinx
      → Runs ((address, secret) ∷ rest)
      → Onion sphinx tag payload ((address, secret) ∷ rest) packet
      → (posts : Outbox) × (walk (suc (length rest)) address packet ≡ posts ++ final)
        × (map (λ p. p.0) posts ≡ forwards rest)
  unfolding walk
  walk-layers tag payload outcome final ends scheduled stays address secret packet [] m (runs, _)
        (last {token = token} {wrapped = wrapped} p t r) =
      let posted =
        receive_packet-outcome secret packet outcome
          (process_packet-last sphinx tag packet secret token wrapped m p t ∙ ends wrapped r)
        ∙ scheduled in
      ([], rw (walk, runs, posted) (stays (walk zero)), refl)
  walk-layers tag payload outcome final ends scheduled stays address secret packet
        ((next, key) ∷ rest) m (runs, others)
        (hop {inner = inner} {token = token} {delay = delay} p t u onion) =
      let (posts, walked, passed) =
        walk-layers tag payload outcome final ends scheduled stays next key inner rest m others
          onion in
      let posted =
        receive_packet-outcome secret packet (forward next delay inner)
          (process_packet-hop sphinx packet secret token inner next delay m p t u)
        ∙ schedule-forward next inner delay in
      (
        (mix_packet next, inner) ∷ posts,
        rw (walk, runs, posted, walked) refl,
        ap (◌∷◌ (mix_packet next)) passed,
      )

  -- With fuel for each hop, a packet in layers whose payload is an envelope's JSON goes from
  -- each running hop to the next, and the last posts the envelope to its recipient's mailbox at the
  -- relay.
  pub walk-Onion :
      (payload body : Bytes) (envelope : MessageEnvelope) (address secret packet : Bytes)
      (rest : List (Bytes × Bytes))
      → Measured sphinx
      → json.envelope_of payload ≡ some envelope
      → json.envelope_json envelope ≡ some body
      → Runs ((address, secret) ∷ rest)
      → Onion sphinx relay_destination_tag payload ((address, secret) ∷ rest) packet
      → (posts : Outbox) × (walk (suc (length rest)) address packet
          ≡ posts ++ (relay ("v1" ∷ "messages" ∷ envelope.recipient_id ∷ []), body) ∷ [])
        × (map (λ p. p.0) posts ≡ forwards rest)
  walk-Onion payload body envelope address secret packet rest m read printed =
      walk-layers relay_destination_tag payload (deliver payload)
        ((relay ("v1" ∷ "messages" ∷ envelope.recipient_id ∷ []), body) ∷ [])
        (λ wrapped. unwrap_final-relay sphinx wrapped payload)
        (schedule-deliver payload body envelope read printed) (λ next. refl) address secret packet
        rest m

  -- The same for a pull request, which the last hop posts to the relay's stages.
  pub walk-pull :
      (payload body : Bytes) (request : PullRequest) (address secret packet : Bytes)
      (rest : List (Bytes × Bytes))
      → Measured sphinx
      → json.pull_of payload ≡ some request
      → json.pull_json request ≡ some body
      → Runs ((address, secret) ∷ rest)
      → Onion sphinx pull_destination_tag payload ((address, secret) ∷ rest) packet
      → (posts : Outbox) × (walk (suc (length rest)) address packet
          ≡ posts ++ (relay ("v1" ∷ "pulls" ∷ []), body) ∷ [])
        × (map (λ p. p.0) posts ≡ forwards rest)
  walk-pull payload body request address secret packet rest m read printed =
      walk-layers pull_destination_tag payload (pull_request payload)
        ((relay ("v1" ∷ "pulls" ∷ []), body) ∷ [])
        (λ wrapped. unwrap_final-pull sphinx wrapped payload)
        (schedule-pull payload body request read printed) (λ next. refl) address secret packet rest
        m

  -- A cover packet goes the same way, and the last hop posts nothing.
  pub walk-cover :
      (payload address secret packet : Bytes) (rest : List (Bytes × Bytes))
      → Measured sphinx
      → Runs ((address, secret) ∷ rest)
      → Onion sphinx cover_destination_tag payload ((address, secret) ∷ rest) packet
      → map (λ p. p.0) (walk (suc (length rest)) address packet) ≡ forwards rest
  unfolding schedule
  walk-cover payload address secret packet rest m runs onion =
      let (posts, walked, passed) =
        walk-layers cover_destination_tag payload drop_cover []
          (λ wrapped r. unwrap_final-cover sphinx wrapped) refl (λ next. refl) address secret packet
          rest m runs onion in
      ap (map (λ p. p.0)) (walked ∙ append-nil posts) ∙ passed
