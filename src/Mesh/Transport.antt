-- ===== src/Mesh/Transport.antt =====
-- mesh/src/transport.rs: sending and receiving envelopes over the mesh. The two clock readings of a
-- sending (framing, admission) are arguments; a `HashSet` is a list without repetitions.
pub mod Claims
pub mod Receive
pub mod Finds
pub mod Send
use parda.Base.{
  ℕ, zero, suc, ◌+◌, ◌%◌, Bool, true, false, ◌||◌, Option, none, some, List, [], ◌∷◌, ◌++◌, map,
  String, Bytes, length, not, nat_beq, if◌then◌else◌, contains, ◌==◌, nat_key, string_key,
  bytes_key, keep_if,
}
use parda.Result.{Result, ok, err}
use parda.Protocol.Error.{ProtoResult, transport}
use parda.Protocol.Envelope.{MessageEnvelope, u64_mod}
use parda.Protocol.DeadDrop.{address_for, address_window, build_poll_set}
use parda.Mesh.Bundle.{Codec, wrap, unwrap}
use parda.Mesh.Relay.{MeshRelayAgent, admit, take_for_addresses}

abbrev pub default_address_window : ℕ
default_address_window = 8

abbrev pub default_decoys_per_real : ℕ
default_decoys_per_real = 7

pub record ReceiveState : Type 0 where
  pub low_watermark : ℕ
  pub claimed_ahead : List ℕ

pub record MeshTransport : Type 0 where
  pub relay : MeshRelayAgent
  pub tag_key : Bytes
  pub send_counter : ℕ
  pub receive_state : ReceiveState
  pub window : ℕ
  pub decoys_per_real : ℕ

abbrev pub no_claims : ReceiveState
no_claims = record { low_watermark = 0; claimed_ahead = [] }

unfoldable pub new : MeshRelayAgent → Bytes → MeshTransport
new relay tag_key = record {
  relay = relay;
  tag_key = tag_key;
  send_counter = 0;
  receive_state = no_claims;
  window = default_address_window;
  decoys_per_real = default_decoys_per_real;
}

unfoldable pub advance_send_counter : MeshTransport → MeshTransport
advance_send_counter t = record t { send_counter = (t.send_counter + 1) % u64_mod }

abbrev pub is_empty : String → Bool
is_empty s = s == ""

-- the guard of a sending
abbrev pub reveals_identity : MessageEnvelope → Bool
reveals_identity envelope =
    not envelope.sealed_sender
    || (not (is_empty envelope.sender_id) || not (is_empty envelope.recipient_id))

-- `HashSet::insert`
pub insert_claim : ℕ → List ℕ → List ℕ
insert_claim n claims = if contains claims n then claims else claims ++ n ∷ []

-- `HashSet::remove`
pub remove_claim : ℕ → List ℕ → List ℕ
remove_claim n claims = keep_if (λ m. not (nat_beq m n)) claims

pub insert_claims : List ℕ → List ℕ → List ℕ
insert_claims [] claims = claims
insert_claims (n ∷ ns) claims = insert_claims ns (insert_claim n claims)

-- The loop that moves the watermark past claimed numbers, on fuel: each turn but the last removes
-- a claim, so that the number of claims is enough.
pub advance : ℕ → ReceiveState → ReceiveState
advance zero state = state
advance (suc fuel) state =
    let next = advance fuel (record {
      low_watermark = (state.low_watermark + 1) % u64_mod;
      claimed_ahead = remove_claim state.low_watermark state.claimed_ahead;
    }) in
    if contains state.claimed_ahead state.low_watermark then next else state

-- `iter().position(|a| *a == address)`
pub position : List Bytes → Bytes → Option ℕ
position [] address = none
position (a ∷ addresses) address =
    let rest = position addresses address in
    if a == address then some 0 else elim rest [ none ↦ none | some n ↦ some (suc n) ]

module _ (c : Codec) where
  -- The envelopes taken, each with the number it claims: `newly_claimed` and `envelopes` in one.
  pub claim_all : ℕ → List Bytes → List Bytes → List (ℕ × MessageEnvelope)
  unfolding position
  claim_all window_start window_addresses [] = []
  claim_all window_start window_addresses (bytes ∷ taken) =
      let rest = claim_all window_start window_addresses taken in
      elim (unwrap c bytes) [
        | err e ↦ rest
        | ok (address, envelope) ↦ elim (position window_addresses address) [
          | none ↦ rest
          | some offset ↦ ((window_start + offset) % u64_mod, envelope) ∷ rest
        ]
      ]

abbrev pub claim_of : ℕ × MessageEnvelope → ℕ
claim_of (n, envelope) = n

abbrev pub envelope_of : ℕ × MessageEnvelope → MessageEnvelope
envelope_of (n, envelope) = envelope

module _ (expand : Bytes → Bytes → Bytes) where
  unfoldable pub next_send_address : MeshTransport → Bytes
  next_send_address t = address_for expand t.tag_key t.send_counter

  module _ (c : Codec) where
    -- the claims that a receiving makes on what the relay hands over
    pub claims : List Bytes → MeshTransport → List (ℕ × MessageEnvelope)
    unfolding claim_all
    claims poll_set t =
        let start = t.receive_state.low_watermark in
        claim_all c start (address_window expand t.tag_key start t.window)
          (take_for_addresses poll_set t.relay).0

    abbrev pub poll_set_of : (ℕ → Bytes) → (List Bytes → List Bytes) → MeshTransport → List Bytes
    poll_set_of random_decoy_address shuffle t =
        build_poll_set expand random_decoy_address shuffle t.tag_key t.receive_state.low_watermark
          t.window t.decoys_per_real

    pub receive :
        (ℕ → Bytes)
        → (List Bytes → List Bytes)
        → MeshTransport
        → ProtoResult (List MessageEnvelope) × MeshTransport
    unfolding claims insert_claims advance
    receive random_decoy_address shuffle t =
        let poll_set = poll_set_of random_decoy_address shuffle t in
        let new_claims = claims poll_set t in
        let ahead = insert_claims (map claim_of new_claims) t.receive_state.claimed_ahead in
        (
          ok (map envelope_of new_claims),
          record t {
            relay = (take_for_addresses poll_set t.relay).1;
            receive_state =
                advance (length ahead) (record t.receive_state { claimed_ahead = ahead });
          },
        )

module _ (c : Codec) (sha256 : Bytes → Bytes) where
  unfoldable pub send :
      ℕ → ℕ → MessageEnvelope → MeshTransport → ProtoResult (Unit {0}) × MeshTransport
  unfolding advance_send_counter
  send framed_ms now_ms envelope t =
      if reveals_identity envelope
      then (err (transport "send refuses an envelope that is not sealed with empty ids"), t)
      else elim envelope.dead_drop_address [
        | none ↦ (err (transport "send requires dead_drop_address to be set"), t)
        | some address ↦ elim (wrap c framed_ms envelope address) [
          | err e ↦ (err (transport "mesh bundle framing failed"), t)
          | ok bytes ↦
              let (r, relay) = admit c sha256 now_ms bytes t.relay in
              let t' : MeshTransport = record t { relay = relay } in
              elim r [
                | err e ↦ (err (transport "local relay refused own outgoing bundle"), t')
                | ok u ↦ (ok tt, advance_send_counter t')
              ]
        ]
      ]
