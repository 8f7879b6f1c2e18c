-- ===== src/Mesh/Delivery.antt =====
-- From one device to another: an envelope that a device sends, the session in which the relay of
-- another takes it over, and the receiving there.
use mathlib.Core.List.{Mem}
use parda.Base.{
  ℕ, suc, ◌+◌, ◌≤◌, ◌<◌, ◌≡◌, ap, sym, ◌∙◌, true, false, none, some, List, [], arith, Bytes, length,
  contains, bytes_key, bytes_beq_iff, inl, inr,
}
use parda.HashMap.{lookup, contains_key}
use parda.Result.{ok, is_ok}
use parda.Protocol.Envelope.{MessageEnvelope, u64_mod}
use parda.Protocol.DeadDrop.{address_for}
use parda.Mesh.Bundle.{Codec, wrap, unwrap, expiry_ms, bytes_as_bundle}
use parda.Mesh.Bundle.Lifetime.{CodecLaws, unwrap-wrap}
use parda.Mesh.Relay.{StoredBundle, MeshRelayAgent, admit, admit_checked, inspect, sweep_expired}
use parda.Mesh.Relay.Invariant.{IsValid, admit_checked-IsValid, sweep_expired-IsValid}
use parda.Mesh.Relay.Admission.{Arrives, Arrives→inspect, admit_checked_effect}
use parda.Mesh.Relay.Contents.{lookup-sweep_expired}
use parda.Mesh.Relay.Sync.{sync_with_peer}
use parda.Mesh.Relay.Sync.Bounds.{sync_with_peer-IsValid}
use parda.Mesh.Relay.Sync.Exchange.{says, hands, stamped, session_of}
use parda.Mesh.Relay.Sync.Spread.{Fits, sync_with_peer-spreads}
use parda.Mesh.Transport.{MeshTransport, next_send_address, send, receive}
use parda.Mesh.Transport.Send.{send_lem}
use parda.Mesh.Transport.Finds.{receive-Mem}

-- a bundle fits whenever it comes in, as long as it has not expired
Arrives-inspect :
    (c : Codec) (sent_ms now_ms : ℕ) (bytes : Bytes) (b : StoredBundle)
    → Arrives c sent_ms bytes b
    → now_ms < b.expiry_ms
    → inspect c now_ms b.bytes ≡ ok b
Arrives-inspect c sent_ms now_ms bytes b (decoded, _, same) early =
    ap (inspect c now_ms) same ∙ Arrives→inspect c now_ms bytes b (decoded, early, same)

-- the address that a relay files a bundle under is the one that it unwraps to
Arrives-address :
    (c : Codec) (now_ms : ℕ) (bytes address : Bytes) (b : StoredBundle) (e : MessageEnvelope)
    → Arrives c now_ms bytes b
    → unwrap c bytes ≡ ok (address, e)
    → b.address ≡ address
unfolding unwrap bytes_as_bundle
Arrives-address c now_ms bytes address b e ((bundle, decoded, at, _), _, _) opened = ground arith

module _ (c : Codec) (sha256 : Bytes → Bytes) where
  -- the bundle of a sending that succeeded, where its hash was new
  send-held :
      (framed_ms now_ms : ℕ) (e : MessageEnvelope) (address bytes : Bytes) (t : MeshTransport)
      → e.dead_drop_address ≡ some address
      → wrap c framed_ms e address ≡ ok bytes
      → contains_key (sha256 bytes) t.relay.store.by_hash ≡ false
      → let (r, t') = send c sha256 framed_ms now_ms e t in
        is_ok r ≡ true
        → (b : StoredBundle) × Arrives c now_ms bytes b
          × (lookup (sha256 bytes) t'.relay.store.by_hash ≡ some b)
          × (t'.relay ≡ (admit_checked c sha256 now_ms bytes none t.relay).1)
  unfolding admit
  send-held framed_ms now_ms e address bytes t addressed framed fresh done =
      let sent = (send_lem c sha256 framed_ms now_ms e t).0 done in
      let same : sent.bytes ≡ bytes = cc (sent.addressed, sent.framed) in
      let step : admit_checked c sha256 now_ms bytes none t.relay
          ≡ (ok tt, (send c sha256 framed_ms now_ms e t).1.relay) =
        ap (λ bs. admit_checked c sha256 now_ms bs none t.relay) (sym same) ∙ sent.admitted in
      elim (admit_checked_effect c sha256 now_ms bytes none t.relay) [
        | inl (unchanged, held) ↦ absurd (ground (arith, step, held (ap (λ p. p.0) step)))
        | inr (_, _, (b, arrived, looks, _)) ↦ (
          b,
          arrived,
          ap (λ p. lookup (sha256 bytes) p.1.store.by_hash) (sym step)
              ∙ looks (sha256 bytes)
              ∙ ground (arith, bytes_beq_iff (sha256 bytes) (sha256 bytes)),
          ap (λ p. p.1) (sym step),
        )
      ]

  -- a transport after its relay's session, at `sync_ms`, with a relay in the state `peer`
  abbrev pub after_session :
      (clock : ℕ → ℕ) (sync_ms n : ℕ) (peer : MeshRelayAgent) → MeshTransport → MeshTransport
  after_session clock sync_ms n peer t =
      let swept = sweep_expired sync_ms t.relay in
      let session =
        session_of t.relay (stamped clock 0 (says peer swept)) []
          (suc (suc (length (hands swept peer) + suc n))) in
      record t { relay = (sync_with_peer c sha256 sync_ms session).1.agent }

module _ (expand : Bytes → Bytes → Bytes) (c : Codec) (sha256 : Bytes → Bytes) where
  -- Where the codecs read back what they wrote and the shuffle only reorders: an envelope that one
  -- device sends successfully, at an address of 32 bytes that is its next one, is received by another
  -- device of the same conversation whose relay has had a session with the first one's after that
  -- one's sweep. The number is to lie in the receiver's window, below 2 ^ 64, and the sweep and every
  -- message of the session before the bundle's expiry; both relays are well formed, the bundle's hash
  -- is new to both, and the caps leave room for what the first one holds.
  pub receive-send :
      (laws : CodecLaws c) (clock : ℕ → ℕ) (framed_ms sent_ms sweep_ms sync_ms n expiry : ℕ)
      (random_decoy_address : ℕ → Bytes) (shuffle : List Bytes → List Bytes)
      (alice bob : MeshTransport) (e : MessageEnvelope) (bytes : Bytes)
      → ((xs : List Bytes) → length (shuffle xs) ≡ length xs)
      → ((xs : List Bytes) (a : Bytes) → contains (shuffle xs) a ≡ contains xs a)
      → IsValid sha256 alice.relay
      → IsValid sha256 bob.relay
      → alice.tag_key ≡ bob.tag_key
      → bob.receive_state.low_watermark ≤ alice.send_counter
      → alice.send_counter < bob.receive_state.low_watermark + bob.window
      → bob.receive_state.low_watermark + bob.window < u64_mod
      → e.dead_drop_address ≡ some (next_send_address expand alice)
      → length (next_send_address expand alice) ≡ 32
      → wrap c framed_ms e (next_send_address expand alice) ≡ ok bytes
      → expiry_ms c bytes ≡ ok expiry
      → sweep_ms < expiry
      → ((i : ℕ) → clock i < expiry)
      → contains_key (sha256 bytes) alice.relay.store.by_hash ≡ false
      → contains_key (sha256 bytes) (sweep_expired sync_ms bob.relay).store.by_hash ≡ false
      → is_ok (send c sha256 framed_ms sent_ms e alice).0 ≡ true
      → Fits
          (sweep_expired sync_ms bob.relay)
          (sweep_expired sweep_ms (send c sha256 framed_ms sent_ms e alice).1.relay)
      → let peer = sweep_expired sweep_ms (send c sha256 framed_ms sent_ms e alice).1.relay in
        (envelopes : List MessageEnvelope) × ((receive expand c random_decoy_address shuffle
            (after_session c sha256 clock sync_ms n peer bob)).0
          ≡ ok envelopes)
        × Mem e envelopes
  unfolding next_send_address
  receive-send laws clock framed_ms sent_ms sweep_ms sync_ms n expiry random_decoy_address shuffle
        alice bob e bytes sized kept alice-IsValid bob-IsValid key low high bound addressed sized_32
        framed expires unswept early new_here new_there sent fits =
      let address = next_send_address expand alice in
      let alice' = (send c sha256 framed_ms sent_ms e alice).1 in
      let peer = sweep_expired sweep_ms alice'.relay in
      let swept = sweep_expired sync_ms bob.relay in
      let opened = unwrap-wrap c laws framed_ms e address bytes sized_32 framed in
      let (b, arrived, held, admitted) =
        send-held c sha256 framed_ms sent_ms e address bytes alice addressed framed new_here sent in
      let relay-IsValid : IsValid sha256 alice'.relay =
        rw admitted (admit_checked-IsValid c sha256 sent_ms bytes none alice.relay alice-IsValid) in
      let lives : b.expiry_ms ≡ expiry = cc (arrived.0.3, expires) in
      let kept_by_peer : lookup (sha256 bytes) peer.store.by_hash ≡ some b =
        lookup-sweep_expired sha256 sweep_ms (sha256 bytes) alice'.relay relay-IsValid
        ∙ ground (arith, held, lives) in
      let fit = λ (i : ℕ).
        Arrives-inspect c sent_ms (clock i) bytes b arrived (omega (arith, lives, early i)) in
      let (_, _, spread) =
        sync_with_peer-spreads c sha256 clock sync_ms n bob.relay peer
          (sweep_expired-IsValid sha256 sweep_ms alice'.relay relay-IsValid) fits in
      let session =
        session_of bob.relay (stamped clock 0 (says peer swept)) []
          (suc (suc (length (hands swept peer) + suc n))) in
      let joint : address ≡ address_for expand bob.tag_key alice.send_counter =
        ap (λ k. address_for expand k alice.send_counter) key in
      receive-Mem expand c sha256 random_decoy_address shuffle
        (after_session c sha256 clock sync_ms n peer bob) alice.send_counter (sha256 bytes) b e
        sized kept (sync_with_peer-IsValid c sha256 sync_ms session bob-IsValid) low high bound
        (spread (sha256 bytes) b kept_by_peer fit ∙ ground (arith, new_there))
        (Arrives-address c sent_ms bytes address b e arrived opened ∙ joint)
        (ap (unwrap c) arrived.2 ∙ opened ∙ ap (λ a. ok (a, e)) joint)
