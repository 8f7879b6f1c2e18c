-- ===== src/Mesh/Relay/Sync/Takes.antt =====
-- What a relay holds after it was handed bundles: it keeps what it held, and takes what it has room
-- for.
use parda.Base.{
  ℕ, suc, ◌+◌, ◌≤◌, ◌<◌, ◌≡◌, ◌≢◌, inl, inr, refl, ◌∙◌, true, false, Option, some, List, [], ◌∷◌,
  ◌++◌, map, arith, Bytes, length, length-append, contains, sum_by, All, bytes_key, bytes_beq_iff,
  ◌==◌, Bool-cases,
}
use parda.HashMap.{
  lookup, contains_key, lookup-insert, insert_absent, lookup_absent, contains_key-lookup,
}
use parda.Result.{ok, err, Result-cases}
use parda.Mesh.Bundle.{Codec}
use parda.Mesh.Relay.{
  StoredBundle, MeshRelayAgent, admit_checked, inspect, admit_locked, stored, sweep_expired,
}
use parda.Mesh.Relay.Admission.{inspect→Arrives, Room, admit_locked_lem}
use parda.Mesh.Relay.Sync.{have, want, bundle, done, Inbox, Session, receive_loop, sync_with_peer}
use parda.Mesh.Relay.Sync.Bounds.{session_rule}
use parda.Mesh.Relay.Sync.Exchange.{stamped}

-- What one bundle may change: it adds at most itself, under its own hash, if that is not held.
pub record Adds (sha256 : Bytes → Bytes) (bytes : Bytes) (a a' : MeshRelayAgent) : Type 0 where
  pub same_config : a'.config ≡ a.config
  pub one_more : length a'.store.by_hash ≤ length a.store.by_hash + 1
  pub few_bytes : a'.store.total_bytes ≤ a.store.total_bytes + length bytes
  pub kept :
      (h : Bytes) (b : StoredBundle)
      → lookup h a.store.by_hash ≡ some b
      → lookup h a'.store.by_hash ≡ some b
  pub apart : (h : Bytes) → sha256 bytes ≢ h → lookup h a'.store.by_hash ≡ lookup h a.store.by_hash

module _ (c : Codec) (sha256 : Bytes → Bytes) where
  Adds-same : (bytes : Bytes) (a a' : MeshRelayAgent) → a' ≡ a → Adds sha256 bytes a a'
  Adds-same bytes a a' e = record {
    same_config = ground (arith, e);
    one_more = ground (arith, e);
    few_bytes = ground (arith, e);
    kept = λ h b held. ground (arith, e, held);
    apart = λ h n. ground (arith, e);
  }

  Adds-stored :
      (bytes : Bytes) (b : StoredBundle) (a : MeshRelayAgent)
      → b.bytes ≡ bytes
      → contains_key (sha256 b.bytes) a.store.by_hash ≡ false
      → Adds sha256 bytes a (stored a (sha256 b.bytes) b)
  Adds-stored bytes b a e fresh = record {
    same_config = refl;
    one_more = ground (
      arith,
      insert_absent (sha256 b.bytes) b a.store.by_hash fresh,
      length-append a.store.by_hash ((sha256 b.bytes, b) ∷ []),
    );
    few_bytes = ground (arith, e);
    kept = λ h b' held. ground (
      arith,
      lookup-insert (sha256 b.bytes) h b a.store.by_hash,
      lookup_absent (sha256 b.bytes) a.store.by_hash fresh,
      bytes_beq_iff (sha256 b.bytes) h,
    );
    apart = λ h n. ground (
      arith,
      lookup-insert (sha256 b.bytes) h b a.store.by_hash,
      bytes_beq_iff (sha256 b.bytes) h,
      e,
    );
  }

  pub admit_checked-Adds :
      (now_ms : ℕ) (bytes : Bytes) (budget : Option ℕ) (a : MeshRelayAgent)
      → Adds sha256 bytes a (admit_checked c sha256 now_ms bytes budget a).1
  unfolding admit_checked
  admit_checked-Adds now_ms bytes budget a = elim (Result-cases (inspect c now_ms bytes)) [
    | inl (e, p) ↦ Adds-same bytes a _ (ground (arith, p))
    | inr (b, p) ↦ elim (admit_locked_lem sha256 budget b a) [
      | inl (same, held) ↦ Adds-same bytes a _ (ground (arith, p, same))
      | inr (accepted, fresh, grown) ↦
          let e : (admit_checked c sha256 now_ms bytes budget a).1 ≡ stored a (sha256 b.bytes) b =
            ground (arith, p, grown) in
          rw e (Adds-stored bytes b a (inspect→Arrives c now_ms bytes b p).2 fresh)
    ]
  ]

  -- What a relay holds it still holds after the receive loop.
  pub receive_loop-kept :
      (inbox : Inbox) (admitted budget : ℕ) (a : MeshRelayAgent) (h : Bytes) (b : StoredBundle)
      → lookup h a.store.by_hash ≡ some b
      → lookup h (receive_loop c sha256 inbox admitted budget a).1.store.by_hash ≡ some b
  unfolding receive_loop
  receive_loop-kept [] admitted budget a h b held = held
  receive_loop-kept ((now, err e) ∷ rest) admitted budget a h b held = held
  receive_loop-kept ((now, ok done) ∷ rest) admitted budget a h b held = held
  receive_loop-kept ((now, ok (have m)) ∷ rest) admitted budget a h b held = held
  receive_loop-kept ((now, ok (want m)) ∷ rest) admitted budget a h b held = held
  receive_loop-kept ((now, ok (bundle bytes)) ∷ rest) admitted budget a h b held =
      receive_loop-kept rest _ _ _ h b
        ((admit_checked-Adds now bytes (some budget) a).kept h b held)

  -- both global caps leave room for all of the bundles
  abbrev pub RoomFor : MeshRelayAgent → List Bytes → Type 0
  RoomFor a xs =
      (length a.store.by_hash + length xs ≤ a.config.max_total_bundles)
      × (a.store.total_bytes + sum_by length xs ≤ a.config.max_total_bytes)

  RoomFor-rest :
      (x : Bytes) (xs : List Bytes) (a a' : MeshRelayAgent)
      → Adds sha256 x a a'
      → RoomFor a (x ∷ xs)
      → RoomFor a' xs
  RoomFor-rest x xs a a' adds room = ground (arith, adds.same_config, adds.one_more, adds.few_bytes)

  -- a bundle that is fit for the relay and not held is stored
  admit_checked-stores :
      (now_ms budget : ℕ) (bytes : Bytes) (b : StoredBundle) (a : MeshRelayAgent)
      → inspect c now_ms bytes ≡ ok b
      → contains_key (sha256 bytes) a.store.by_hash ≡ false
      → 0 < budget
      → Room a bytes
      → lookup (sha256 bytes) (admit_checked c sha256 now_ms bytes (some budget) a).1.store.by_hash
        ≡ some b
  unfolding admit_checked admit_locked
  admit_checked-stores now_ms budget bytes b a fit fresh left room =
      let arrived = inspect→Arrives c now_ms bytes b fit in
      ground (
        arith,
        fit,
        arrived.2,
        lookup-insert (sha256 bytes) (sha256 bytes) b a.store.by_hash,
        bytes_beq_iff (sha256 bytes) (sha256 bytes),
      )

  -- A bundle that stands among those that a peer hands over is held after the receive loop, where it
  -- is fit for the relay when it comes in, the session's budget and the global caps leave room for
  -- all of them, and none of the others has its hash.
  pub receive_loop-takes :
      (clock : ℕ → ℕ) (x : Bytes) (b : StoredBundle)
      → ((i : ℕ) → inspect c (clock i) x ≡ ok b)
      → (xs : List Bytes) (i admitted budget : ℕ) (a : MeshRelayAgent) → contains xs x ≡ true
      → All (λ y. sha256 y ≡ sha256 x → y ≡ x) xs
      → contains_key (sha256 x) a.store.by_hash ≡ false
      → length xs ≤ budget
      → RoomFor a xs
      → lookup
          (sha256 x)
          (receive_loop c sha256
            (stamped clock i (map bundle xs ++ done ∷ []))
            admitted
            budget
            a).1.store.by_hash
        ≡ some b
  unfolding receive_loop
  receive_loop-takes clock x b fit [] i admitted budget a inside apart fresh enough room = cc
  receive_loop-takes clock x b fit (y ∷ ys) i admitted budget a inside apart fresh enough room =
      let (r, a') = admit_checked c sha256 (clock i) y (some budget) a in
      let adds = admit_checked-Adds (clock i) y (some budget) a in
      elim (Bool-cases (y == x)) [
        | inl same ↦
            receive_loop-kept (stamped clock (suc i) (map bundle ys ++ done ∷ [])) _ _ a' (sha256 x)
              b
              (let e : y ≡ x = ground (arith, bytes_beq_iff y x) in
                let here : Room a x = ground (arith, e) in
                rw e (admit_checked-stores (clock i) budget x b a (fit i) fresh (omega arith) here))
        | inr other ↦
            receive_loop-takes clock x b fit ys (suc i) _ _ a' (ground (arith, other, inside))
              apart.1
              (contains_key-lookup (sha256 x) a'.store.by_hash (
                adds.apart (sha256 x) (λ e. ground (arith, apart.0 e, bytes_beq_iff y x))
                ∙ lookup_absent (sha256 x) a.store.by_hash fresh))
              (ground arith) (RoomFor-rest y ys a a' adds room)
      ]

  receive_loop-config :
      (inbox : Inbox) (admitted budget : ℕ) (a : MeshRelayAgent)
      → (receive_loop c sha256 inbox admitted budget a).1.config ≡ a.config
  unfolding receive_loop
  receive_loop-config [] admitted budget a = refl
  receive_loop-config ((now, err e) ∷ rest) admitted budget a = refl
  receive_loop-config ((now, ok done) ∷ rest) admitted budget a = refl
  receive_loop-config ((now, ok (have m)) ∷ rest) admitted budget a = refl
  receive_loop-config ((now, ok (want m)) ∷ rest) admitted budget a = refl
  receive_loop-config ((now, ok (bundle bytes)) ∷ rest) admitted budget a =
      receive_loop-config rest _ _ (admit_checked c sha256 now bytes (some budget) a).1
      ∙ (admit_checked-Adds now bytes (some budget) a).same_config

  -- No session changes the caps.
  pub sync_with_peer-config :
      (now_ms : ℕ) (s : Session)
      → (sync_with_peer c sha256 now_ms s).1.agent.config ≡ s.agent.config
  unfolding sweep_expired
  sync_with_peer-config now_ms s =
      session_rule c sha256 (λ a. a.config ≡ s.agent.config) now_ms s refl
        (λ inbox. receive_loop-config inbox _ _ (sweep_expired now_ms s.agent))
