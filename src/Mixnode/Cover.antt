-- ===== src/Mixnode/Cover.antt =====
-- mixnode/src/cover_traffic.rs: the dummy packets that a node sends of its own accord. The random
-- choices (the path, the fabricated recipient and the token) are parameters, a wait is time only, and
-- a background loop is run for a number of rounds.
use parda.Base.{
  ℕ, zero, suc, ◌≡◌, refl, ap, Option, none, some, List, [], ◌∷◌, map, ◌++◌, Bytes, length, ltb,
  if◌then◌else◌,
}
use parda.Result.{ok, err}
use parda.Protocol.Error.{ProtoResult}
use parda.Protocol.Mixnet.{
  text, Sphinx, MixNodeDescriptor, PullRequest, min_path_length, default_mix_payload_size,
  build_packet_to, cover_destination_tag, pull_destination_tag,
}
use parda.Protocol.Mixnet.Onion.{Onion, Measured}
use parda.Protocol.Transport.{Http, relay, mix_packet}
use parda.Mixnode.{NodeJson}
use parda.Mixnode.Walk.{Outbox, outbox, onward, walk, Runs, forwards, walk-pull, walk-cover}

abbrev pub cover_payload_marker : Bytes
cover_payload_marker = text "parda-drop-cover"

module _ {S B : Type 0} (sphinx : Sphinx) (http : Http S B) where
  -- The post to `path[0]`; no packet is built for an empty path. A failure is only logged.
  pub emit : List MixNodeDescriptor → ProtoResult Bytes → S → S
  emit path (err e) s = s
  emit [] (ok packet) s = s
  emit (first ∷ path) (ok packet) s = (http.post (mix_packet first.address) packet s).1

  -- one round of `spawn`
  pub cover_round : List MixNodeDescriptor → ℕ → S → S
  unfolding emit
  cover_round peers avg_interval s =
      let path = sphinx.choose_multiple min_path_length peers in
      emit path
        (build_packet_to sphinx cover_payload_marker path avg_interval default_mix_payload_size
          cover_destination_tag)
        s

  -- `spawn`, for a number of rounds
  pub spawn : ℕ → List MixNodeDescriptor → ℕ → S → S
  unfolding cover_round
  spawn zero peers avg_interval s = s
  spawn (suc rounds) peers avg_interval s =
      let rest = spawn rounds peers avg_interval (cover_round peers avg_interval s) in
      if ltb (length peers) min_path_length then s else rest

  module _ (json : NodeJson) where
    -- one round of `spawn_pull_cover`, with the fabricated request
    pub pull_cover_round : PullRequest → List MixNodeDescriptor → ℕ → S → S
    unfolding emit
    pull_cover_round request peers avg_interval s =
        let path = sphinx.choose_multiple min_path_length peers in
        elim (json.pull_json request) [
          | none ↦ s
          | some payload ↦
              emit path
                (build_packet_to sphinx payload path avg_interval default_mix_payload_size
                  pull_destination_tag)
                s
        ]

    -- `spawn_pull_cover`, for the rounds of the given requests
    pub spawn_pull_cover : List PullRequest → List MixNodeDescriptor → ℕ → S → S
    unfolding pull_cover_round
    spawn_pull_cover [] peers avg_interval s = s
    spawn_pull_cover (request ∷ requests) peers avg_interval s =
        let rest =
          spawn_pull_cover requests peers avg_interval
            (pull_cover_round request peers avg_interval s) in
        if ltb (length peers) min_path_length then s else rest

module _ (sphinx : Sphinx) (json : NodeJson) (network : Bytes → Option Bytes) where
  -- everything that is posted in consequence of what a node has posted
  abbrev pub consequences : ℕ → Outbox → Outbox
  consequences fuel = onward (walk sphinx json network fuel)

  -- Where a node's peers are chosen as a path, a packet is built for it that is in layers with the
  -- cover destination for its hops, and every hop is run: with fuel for each hop, what a round of
  -- cover traffic leads to are the posts to the hops of the path in their order, and none to the
  -- relay.
  pub cover_round-walk :
      (peers : List MixNodeDescriptor) (avg_interval : ℕ) (first : MixNodeDescriptor)
      (path : List MixNodeDescriptor) (secret packet : Bytes) (rest : List (Bytes × Bytes))
      → Measured sphinx
      → sphinx.choose_multiple min_path_length peers ≡ first ∷ path
      → build_packet_to sphinx cover_payload_marker
          (first ∷ path)
          avg_interval
          default_mix_payload_size
          cover_destination_tag
        ≡ ok packet
      → Onion sphinx cover_destination_tag cover_payload_marker
          ((first.address, secret) ∷ rest)
          packet
      → Runs sphinx json network ((first.address, secret) ∷ rest)
      → map
          (λ p. p.0)
          (consequences (suc (length rest)) (cover_round sphinx outbox peers avg_interval []))
        ≡ mix_packet first.address ∷ forwards sphinx json network rest
  unfolding cover_round emit
  cover_round-walk peers avg_interval first path secret packet rest m chosen built onion runs =
      rw (cover_round, chosen, built)
        (ap (◌∷◌ (mix_packet first.address)) (
          walk-cover sphinx json network cover_payload_marker first.address secret packet rest m
            runs onion))

  -- A round of pull cover traffic goes the same way, and its last post stages the fabricated request
  -- at the relay, as that of a real pull would.
  pub pull_cover_round-walk :
      (peers : List MixNodeDescriptor) (avg_interval : ℕ) (request : PullRequest)
      (first : MixNodeDescriptor) (path : List MixNodeDescriptor) (secret payload packet : Bytes)
      (rest : List (Bytes × Bytes))
      → Measured sphinx
      → sphinx.choose_multiple min_path_length peers ≡ first ∷ path
      → json.pull_json request ≡ some payload
      → build_packet_to sphinx payload
          (first ∷ path)
          avg_interval
          default_mix_payload_size
          pull_destination_tag
        ≡ ok packet
      → Onion sphinx pull_destination_tag payload ((first.address, secret) ∷ rest) packet
      → Runs sphinx json network ((first.address, secret) ∷ rest)
      → json.pull_of payload ≡ some request
      → (posts : Outbox) × (consequences
            (suc (length rest))
            (pull_cover_round sphinx outbox json request peers avg_interval [])
          ≡ posts ++ (relay ("v1" ∷ "pulls" ∷ []), payload) ∷ [])
        × (map (λ p. p.0) posts ≡ mix_packet first.address ∷ forwards sphinx json network rest)
  unfolding pull_cover_round emit
  pull_cover_round-walk peers avg_interval request first path secret payload packet rest m chosen
        printed built onion runs read =
      let (posts, walked, passed) =
        walk-pull sphinx json network payload payload request first.address secret packet rest m
          read printed runs onion in
      let sent : pull_cover_round sphinx outbox json request peers avg_interval []
          ≡ (mix_packet first.address, packet) ∷ [] =
        rw (pull_cover_round, printed) (rw (chosen, built) refl) in
      (
        (mix_packet first.address, packet) ∷ posts,
        rw (sent, walked) refl,
        ap (◌∷◌ (mix_packet first.address)) passed,
      )
