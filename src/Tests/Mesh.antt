-- ===== src/Tests/Mesh.antt =====
-- The mesh theorems on a small relay and one framed bundle.
use parda.Base.{
  ℕ, ◌<◌, ◌+◌, ◌-◌, ◌≤◌, ◌≡◌, refl, ◌≢◌, ◌↔◌, ◌⊎◌, true, false, ◌||◌, Option, none, some, [], ◌∷◌,
  ◌++◌, map, arith, Bytes, length, replicate, drop, All, contains, nat_key, bytes_key,
}
use parda.HashMap.{contains_key, lookup}
use parda.Result.{ok, is_ok}
use parda.Protocol.DeadDrop.{address_kdf_context, address_for}
use parda.Protocol.SelfDestruct.{be_bytes}
use parda.Mesh.Bundle.{dead_drop_uri_prefix, wrap, framed, lifetime_ms, unwrap}
use parda.Mesh.Bundle.Lifetime.{unwrap-wrap}
use parda.Mesh.Relay.{
  RelayConfig, StoredBundle, MeshRelayAgent, new, stored_count, admit_checked, take_for_addresses,
  sweep_expired,
}
use parda.Mesh.Deadline.{sweep_expired-wrap}
use parda.Mesh.Relay.Invariant.{IsValid, new-IsValid, admit_checked-IsValid}
use parda.Mesh.Relay.Admission.{Arrives, Room, admit_checked_iff}
use parda.Mesh.Relay.Sync.{
  my_hashes, wanted, to_send, held_bytes, have, want, bundle, done, Session, sync_with_peer,
}
use parda.Mesh.Relay.Sync.Bounds.{sync_with_peer-stored_count}
use parda.Mesh.Transport.{
  MeshTransport, ReceiveState, next_send_address, receive, claims, claim_of, envelope_of,
  poll_set_of,
}
use parda.Mesh.Transport.Claims.{is_claimed}
use parda.Mesh.Transport.Receive.{IsClaim, receive_lem}
use parda.Tests.{test_codec, test_codec-CodecLaws, test_envelope, address_32, framed_bytes}

abbrev test_hash : Bytes → Bytes
test_hash = λ b. 0 ∷ b

envelope-framed : wrap test_codec 2000 test_envelope address_32 ≡ ok framed_bytes
unfolding wrap framed lifetime_ms
envelope-framed = refl

unwrap-wrap_example : unwrap test_codec framed_bytes ≡ ok (address_32, test_envelope)
unwrap-wrap_example =
    unwrap-wrap test_codec test_codec-CodecLaws 2000 test_envelope address_32 framed_bytes refl
      envelope-framed

abbrev small_config : RelayConfig
small_config = record { max_total_bundles = 3; max_total_bytes = 1000; max_bundles_per_session = 2 }

abbrev empty_relay : MeshRelayAgent
empty_relay = new small_config

empty_relay-IsValid : IsValid test_hash empty_relay
empty_relay-IsValid = new-IsValid test_hash small_config

-- A relay that was offered the framed bundle.
abbrev relay : MeshRelayAgent
relay = (admit_checked test_codec test_hash 2500 framed_bytes none empty_relay).1

relay-IsValid : IsValid test_hash relay
relay-IsValid =
    admit_checked-IsValid test_codec test_hash 2500 framed_bytes none empty_relay
      empty_relay-IsValid

abbrev budget : Option ℕ
budget = some 2

sweep_expired-wrap_example :
    let (r, a') = admit_checked test_codec test_hash 2500 framed_bytes budget empty_relay in
    ((r ≡ ok tt)
      ↔ (2500 < 2000 + (5000 - 1000)) × (budget ≢ some 0) × Room empty_relay framed_bytes)
    × (is_ok r ≡ false → a' ≡ empty_relay)
    × (is_ok r ≡ true
        → (lookup (test_hash framed_bytes) (sweep_expired 6000 a').store.by_hash ≡ none)
          ↔ 2000 + (5000 - 1000) ≤ 6000)
unfolding new
sweep_expired-wrap_example =
    sweep_expired-wrap test_codec test_codec-CodecLaws test_hash 2000 5000 2500 6000 test_envelope
      address_32 framed_bytes budget empty_relay refl (omega arith) refl envelope-framed
      empty_relay-IsValid refl

admit_checked_iff_example :
    ((admit_checked test_codec test_hash 2500 framed_bytes budget empty_relay).0 ≡ ok tt) ↔ (
      (b : StoredBundle) × Arrives test_codec 2500 framed_bytes b
      × ((contains_key (test_hash framed_bytes) empty_relay.store.by_hash ≡ true)
          ⊎ (budget ≢ some 0) × Room empty_relay framed_bytes))
admit_checked_iff_example =
    admit_checked_iff test_codec test_hash 2500 framed_bytes budget empty_relay

-- A session in which the peer has one bundle that the relay does not hold.
abbrev session : Session
session = record {
  agent = empty_relay;
  link = record {
    inbox =
        (2500, ok (have (test_hash framed_bytes ∷ [])))
        ∷ (2510, ok (want []))
        ∷ (2520, ok (bundle framed_bytes))
        ∷ (2530, ok done)
        ∷ [];
    outbox = [];
    sendable = 10;
  };
}

sync_with_peer-stored_count_example :
    stored_count (sync_with_peer test_codec test_hash 2500 session).1.agent
    ≤ stored_count (sweep_expired 2500 session.agent) + session.agent.config.max_bundles_per_session
sync_with_peer-stored_count_example = sync_with_peer-stored_count test_codec test_hash 2500 session

-- The address of number 4 in the test conversation, and a bundle for it.
abbrev address_4 : Bytes
address_4 = 0 ∷ 0 ∷ 0 ∷ 0 ∷ 0 ∷ 0 ∷ 0 ∷ 4 ∷ replicate 24 1

abbrev bundle_4 : Bytes
bundle_4 = test_codec.to_cbor (record {
  destination = dead_drop_uri_prefix ++ address_4;
  creation_ms = 2000;
  lifetime = 4000;
  payload = some (7 ∷ []);
})

abbrev relay_4 : MeshRelayAgent
relay_4 = record {
  config = small_config;
  store = record {
    by_hash =
        (test_hash bundle_4, record { bytes = bundle_4; address = address_4; expiry_ms = 6000 })
        ∷ [];
    total_bytes = length bundle_4;
  };
}

abbrev test_transport : MeshTransport
test_transport = record {
  relay = relay_4;
  tag_key = replicate 24 1;
  send_counter = 4;
  receive_state = record { low_watermark = 4; claimed_ahead = 6 ∷ [] };
  window = 3;
  decoys_per_real = 1;
}

abbrev test_expand : Bytes → Bytes → Bytes
test_expand key info = drop 31 info ++ key

receive_lem_example :
    let poll_set =
      poll_set_of test_expand test_codec (λ i. replicate 32 i) (λ xs. xs) test_transport in
    let found = claims test_expand test_codec poll_set test_transport in
    let (r, t') = receive test_expand test_codec (λ i. replicate 32 i) (λ xs. xs) test_transport in
    (r ≡ ok (map envelope_of found))
    × All
        (IsClaim test_expand
          (replicate 24 1)
          test_codec
          4
          3
          (take_for_addresses poll_set test_transport.relay).0)
        found
    × (is_claimed t'.receive_state.low_watermark t'.receive_state ≡ false)
    × (4 ≤ t'.receive_state.low_watermark)
    × ((n : ℕ)
        → is_claimed n t'.receive_state
          ≡ (is_claimed n test_transport.receive_state || contains (map claim_of found) n))
receive_lem_example =
    receive_lem test_expand test_codec (λ i. replicate 32 i) (λ xs. xs) test_transport (omega arith)

prefix_length : length dead_drop_uri_prefix ≡ 22
unfolding dead_drop_uri_prefix
prefix_length = refl

sends_to_4 : next_send_address test_expand test_transport ≡ address_4
unfolding next_send_address address_for be_bytes address_kdf_context
sends_to_4 = refl

session_requests :
    (my_hashes relay_4 ≡ test_hash bundle_4 ∷ [])
    × (wanted 1 (my_hashes relay_4) (test_hash bundle_4 ∷ (8 ∷ []) ∷ (9 ∷ []) ∷ []) ≡ (8 ∷ []) ∷ [])
    × (to_send relay_4 ((8 ∷ []) ∷ test_hash bundle_4 ∷ []) ≡ bundle_4 ∷ [])
unfolding my_hashes wanted to_send held_bytes dead_drop_uri_prefix
session_requests = (refl, refl, refl)

abbrev claimed_ahead : ReceiveState
claimed_ahead = record { low_watermark = 4; claimed_ahead = 6 ∷ 4 ∷ [] }
