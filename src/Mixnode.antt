-- ===== src/Mixnode.antt =====
-- mixnode/src: a mix node's handler for packets and the calls that it schedules. A scheduled task
-- is run at once, its delay being time only; what is logged is left out. The HTTP client and the
-- JSON of the two bodies are parameters.
pub mod Walk
pub mod Identity
pub mod Cover
use parda.Base.{ℕ, Option, none, some, List, [], ◌∷◌, String, Bytes}
use parda.Result.{Result, ok, err}
use parda.Protocol.Error.{PardaError}
use parda.Protocol.Envelope.{MessageEnvelope}
use parda.Protocol.Mixnet.{
  PullRequest, Sphinx, UnwrapOutcome, forward, deliver, pull_request, drop_cover, process_packet,
}
use parda.Protocol.Transport.{Http, Url, relay, mix_packet, Reply}

pub record NodeJson : Type 0 where
  pub envelope_of : Bytes → Option MessageEnvelope
  pub envelope_json : MessageEnvelope → Option Bytes
  pub pull_of : Bytes → Option PullRequest
  pub pull_json : PullRequest → Option Bytes

pub record MixNodeState : Type 0 where
  pub secret_key : Bytes
  pub public_key : Bytes

pub data Answer : Type 0 where
  accepted : Answer
  bad_request : PardaError → Answer

abbrev pub then_post : {S B : Type 0} → Http S B → Url → Option Bytes → S → S
then_post http url none s = s
then_post http url (some body) s = (http.post url body s).1

module _ {S B : Type 0} (json : NodeJson) (http : Http S B) where
  pub forward_packet : Bytes → Bytes → S → S
  forward_packet next_hop_address packet_bytes s =
      then_post http (mix_packet next_hop_address) (some packet_bytes) s

  unfoldable pub stage_pull : Bytes → S → S
  stage_pull request_bytes s = elim (json.pull_of request_bytes) [
    | none ↦ s
    | some request ↦ then_post http (relay ("v1" ∷ "pulls" ∷ [])) (json.pull_json request) s
  ]

  pub deliver_envelope : Bytes → S → S
  deliver_envelope envelope_bytes s = elim (json.envelope_of envelope_bytes) [
    | none ↦ s
    | some envelope ↦
        then_post http (relay ("v1" ∷ "messages" ∷ envelope.recipient_id ∷ []))
          (json.envelope_json envelope) s
  ]

  pub schedule : UnwrapOutcome → S → S
  unfolding forward_packet stage_pull deliver_envelope
  schedule (forward next_hop_address delay packet_bytes) s =
      forward_packet next_hop_address packet_bytes s
  schedule (deliver envelope_bytes) s = deliver_envelope envelope_bytes s
  schedule (pull_request request_bytes) s = stage_pull request_bytes s
  schedule drop_cover s = s

  pub receive_packet : Sphinx → MixNodeState → Bytes → S → Answer × S
  unfolding schedule
  receive_packet sphinx state body s = elim (process_packet sphinx body state.secret_key) [
    | ok outcome ↦ (accepted, schedule outcome s)
    | err e ↦ (bad_request e, s)
  ]
