-- ===== src/Tests/Delivery.antt =====
-- The way of one envelope from one device of a conversation to another, and a node with a radio.
use mathlib.Core.List.{Mem}
use parda.Base.{
  ℕ, suc, ◌+◌, ◌≡◌, ◌≤◌, refl, true, false, some, none, List, [], ◌∷◌, ◌++◌, arith, Bytes,
  replicate, drop, length, bytes_key, if◌then◌else◌,
}
use parda.HashMap.{lookup, contains_key, insert}
use parda.Result.{ok, err, is_ok}
use parda.Protocol.Envelope.{MessageEnvelope}
use parda.Protocol.DeadDrop.{address_for, address_kdf_context}
use parda.Protocol.SelfDestruct.{be_bytes}
use parda.Mesh.Bundle.{
  dead_drop_uri_prefix, wrap, framed, lifetime_ms, expiry_ms, bytes_as_bundle, destination_address,
  strip_prefix,
}
use parda.Mesh.Relay.{
  RelayConfig, StoredBundle, MeshRelayAgent, new, inspect, admit, admit_checked, admit_locked,
  sweep_expired, drop_hashes, drop_bundle, stored_count, stored_bytes,
}
use parda.Mesh.Relay.Invariant.{IsValid, new-IsValid, admit_checked-IsValid, sweep_expired-IsValid}
use parda.Mesh.Relay.Sync.{sync_with_peer}
use parda.Mesh.Relay.Sync.Exchange.{says, hands, stamped, session_of}
use parda.Mesh.Relay.Sync.Spread.{Fits, sync_with_peer-spreads}
use parda.Mesh.Transport.{MeshTransport, send, receive, next_send_address}
use parda.Mesh.Node.{MeshRadio}
use parda.Mesh.Node.Bounded.{syncs, accepts, calls, turns, turns-bounded}
use parda.Mesh.Relay.History.{sweeps}
use parda.Mesh.Error.{radio_unavailable}
use parda.Mesh.Delivery.{after_session, receive-send}
use parda.Tests.{test_codec, test_codec-CodecLaws, test_envelope, address_32, framed_bytes}

abbrev hash : Bytes → Bytes
hash b = 0 ∷ b

abbrev expand : Bytes → Bytes → Bytes
expand key info = drop 31 info ++ key

abbrev config : RelayConfig
config = record { max_total_bundles = 3; max_total_bytes = 1000; max_bundles_per_session = 2 }

-- the number whose eight bytes are fives
abbrev fives : ℕ
fives = 361700864190383365

abbrev device : MeshTransport
device = record {
  relay = record { config = config; store = record { by_hash = []; total_bytes = 0 } };
  tag_key = replicate 24 5;
  send_counter = fives;
  receive_state = record { low_watermark = fives; claimed_ahead = [] };
  window = 3;
  decoys_per_real = 1;
}

empty-IsValid : IsValid hash device.relay
unfolding new
empty-IsValid = new-IsValid hash config

next_address : next_send_address expand device ≡ address_32
unfolding next_send_address address_for be_bytes address_kdf_context
next_address = refl

envelope-sent : is_ok (send test_codec hash 2000 2500 test_envelope device).0 ≡ true
unfolding send admit admit_checked admit_locked inspect wrap framed lifetime_ms expiry_ms
    bytes_as_bundle destination_address strip_prefix dead_drop_uri_prefix
envelope-sent = refl

abbrev clock : ℕ → ℕ
clock i = 3000

abbrev sender : MeshRelayAgent
sender = sweep_expired 2900 (send test_codec hash 2000 2500 test_envelope device).1.relay

envelope-framed :
    wrap test_codec 2000 test_envelope (next_send_address expand device) ≡ ok framed_bytes
unfolding wrap framed lifetime_ms next_send_address address_for be_bytes address_kdf_context
envelope-framed = refl

envelope-addressed : test_envelope.dead_drop_address ≡ some (next_send_address expand device)
unfolding next_send_address address_for be_bytes address_kdf_context
envelope-addressed = refl

address-length : length (next_send_address expand device) ≡ 32
unfolding next_send_address address_for be_bytes address_kdf_context
address-length = refl

framed_bytes-expires : expiry_ms test_codec framed_bytes ≡ ok 6000
unfolding expiry_ms bytes_as_bundle dead_drop_uri_prefix
framed_bytes-expires = refl

nothing_held :
    contains_key (hash framed_bytes) (sweep_expired 2950 device.relay).store.by_hash ≡ false
unfolding sweep_expired drop_hashes
nothing_held = refl

sender-Fits : Fits (sweep_expired 2950 device.relay) sender
unfolding sweep_expired drop_hashes drop_bundle send admit admit_checked admit_locked inspect wrap
    framed lifetime_ms expiry_ms bytes_as_bundle destination_address strip_prefix
    dead_drop_uri_prefix insert
sender-Fits = omega arith

receive-send_example :
    (envelopes : List MessageEnvelope) × ((receive expand test_codec
        (λ i. replicate 32 i)
        (λ xs. xs)
        (after_session test_codec hash clock 2950 0 sender device)).0
      ≡ ok envelopes)
    × Mem test_envelope envelopes
receive-send_example =
    receive-send expand test_codec hash test_codec-CodecLaws clock 2000 2500 2900 2950 0 6000
      (λ i. replicate 32 i) (λ xs. xs) device device test_envelope framed_bytes (λ xs. refl)
      (λ xs a. refl) empty-IsValid empty-IsValid refl (omega arith) (omega arith) (omega arith)
      envelope-addressed address-length envelope-framed framed_bytes-expires (omega arith)
      (λ i. omega arith) refl nothing_held envelope-sent sender-Fits

sender-IsValid : IsValid hash sender
unfolding send admit wrap framed lifetime_ms inspect expiry_ms destination_address
    dead_drop_uri_prefix admit_locked
sender-IsValid =
    sweep_expired-IsValid hash 2900
      (admit_checked test_codec hash 2500 framed_bytes none device.relay).1
      (admit_checked-IsValid test_codec hash 2500 framed_bytes none device.relay empty-IsValid)

sync_with_peer-spreads_example :
    let swept = sweep_expired 2950 device.relay in
    let (r, s) = sync_with_peer test_codec hash 2950 (
      session_of device.relay
        (stamped clock 0 (says sender swept))
        []
        (suc (suc (length (hands swept sender) + 1)))) in
    (is_ok r ≡ true)
    × (s.link.outbox ≡ says swept sender)
    × ((h : Bytes) (held : StoredBundle)
        → lookup h sender.store.by_hash ≡ some held
        → ((i : ℕ) → inspect test_codec (clock i) held.bytes ≡ ok held)
        → lookup h s.agent.store.by_hash ≡ (
            if contains_key h swept.store.by_hash then lookup h swept.store.by_hash else some held))
sync_with_peer-spreads_example =
    sync_with_peer-spreads test_codec hash clock 2950 0 device.relay sender sender-IsValid
      sender-Fits

-- A radio that sees one peer, the sender, connects to it and is asked for no other link.
abbrev one_peer : MeshRadio (ℕ) (ℕ)
one_peer = record {
  now = λ t. t;
  fresh = λ t. replicate 16 t;
  advertise = λ token t. (ok tt, t);
  scan = λ t. (ok (7 ∷ []), t + 1);
  connect = λ peer t.
      (ok (session_of device.relay (stamped clock 0 (says sender device.relay)) [] 9).link, t + 1);
  accept = λ t. (err (radio_unavailable ""), t);
}

turns-bounded_example :
    let n' =
      turns one_peer test_codec hash
        (syncs ∷ accepts ∷ calls (sweeps 2980) ∷ syncs ∷ [])
        (record { radio = 2950; relay = device.relay }) in
    IsValid hash n'.relay
    × (n'.relay.config ≡ config)
    × (stored_count n'.relay ≤ 3)
    × (stored_bytes n'.relay ≤ 1000)
turns-bounded_example =
    turns-bounded one_peer test_codec hash (syncs ∷ accepts ∷ calls (sweeps 2980) ∷ syncs ∷ [])
      (record { radio = 2950; relay = device.relay }) empty-IsValid
