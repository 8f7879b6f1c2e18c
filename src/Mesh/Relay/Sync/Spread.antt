-- ===== src/Mesh/Relay/Sync/Spread.antt =====
-- Epidemic propagation: after a session with a peer a relay holds what the peer held.
use parda.Base.{
  ℕ, suc, ◌+◌, ◌≤◌, ◌≡◌, refl, ap, ◌∙◌, sym, true, false, some, List, [], ◌∷◌, ◌++◌, map, arith,
  Bytes, length, contains, All, bytes_key, bytes_beq_iff, if◌then◌else◌, inl, inr, Option-cases,
}
use parda.HashMap.{HashMap, lookup, contains_key, contains_key-lookup, lookup_absent}
use parda.HashMap.Within.{Within-self}
use parda.Result.{ok, is_ok}
use parda.Mesh.Bundle.{Codec}
use parda.Mesh.Relay.{StoredBundle, MeshRelayAgent, inspect, sweep_expired, entry_hash, entry_bytes}
use parda.Mesh.Relay.Invariant.{IsValid}
use parda.Mesh.Relay.Sync.{bundle, done, sync_with_peer, receive_loop, my_hashes}
use parda.Mesh.Relay.Sync.Exchange.{says, hands, stamped, session_of, takes_in, sync_with_peer-says}
use parda.Mesh.Relay.Sync.Takes.{receive_loop-takes, receive_loop-kept}
use parda.Mesh.Relay.Sync.Hands.{hands-missing, hands_few, contains-missing, missing-apart, missing}

contains-my_hashes :
    (m : HashMap Bytes StoredBundle) (h : Bytes) → contains (map entry_hash m) h ≡ contains_key h m
contains-my_hashes [] h = refl
contains-my_hashes ((k, b) ∷ m) h = ground (arith, contains-my_hashes m h)

hash-lookup :
    (sha256 : Bytes → Bytes) (m : HashMap Bytes StoredBundle) (h : Bytes) (b : StoredBundle)
    → All (λ (e : Bytes × StoredBundle). e.0 ≡ sha256 (entry_bytes e)) m
    → lookup h m ≡ some b
    → h ≡ sha256 b.bytes
hash-lookup sha256 [] h b hashed found = cc
hash-lookup sha256 ((k, v) ∷ m) h b hashed found =
    ground (arith, bytes_beq_iff k h, hash-lookup sha256 m h b hashed.1)

-- the session caps are not reached, and both global caps leave room for all that the peer holds
abbrev pub Fits : MeshRelayAgent → MeshRelayAgent → Type 0
Fits a b =
    (length b.store.by_hash ≤ a.config.max_bundles_per_session)
    × (length b.store.by_hash ≤ b.config.max_bundles_per_session)
    × (length a.store.by_hash + length b.store.by_hash ≤ a.config.max_total_bundles)
    × (a.store.total_bytes + b.store.total_bytes ≤ a.config.max_total_bytes)

module _ (c : Codec) (sha256 : Bytes → Bytes) (clock : ℕ → ℕ) where
  receive_loop-ok :
      (bytes : List Bytes) (i admitted budget : ℕ) (a : MeshRelayAgent)
      → is_ok
          (receive_loop c sha256
            (stamped clock i (map bundle bytes ++ done ∷ []))
            admitted
            budget
            a).0
        ≡ true
  unfolding receive_loop
  receive_loop-ok [] i admitted budget a = refl
  receive_loop-ok (x ∷ bytes) i admitted budget a = receive_loop-ok bytes (suc i) _ _ _

  takes_in-lacks :
      (a b : MeshRelayAgent) (held : StoredBundle)
      → IsValid sha256 b
      → Fits a b
      → lookup (sha256 held.bytes) b.store.by_hash ≡ some held
      → ((i : ℕ) → inspect c (clock i) held.bytes ≡ ok held)
      → contains_key (sha256 held.bytes) a.store.by_hash ≡ false
      → lookup (sha256 held.bytes) (takes_in c sha256 clock a (hands b a)).1.store.by_hash
        ≡ some held
  unfolding my_hashes
  takes_in-lacks a b held v fits found fit lacks =
      let all = b.store.by_hash in
      let hashes = my_hashes a in
      let (fewer, shorter) = hands_few hashes all in
      let unnamed : contains hashes (sha256 held.bytes) ≡ false =
        contains-my_hashes a.store.by_hash (sha256 held.bytes) ∙ lacks in
      rw (hands-missing sha256 b a v fits.1 fits.0) (
        receive_loop-takes c sha256 clock held.bytes held fit (map entry_bytes (missing a b)) 2 0
          a.config.max_bundles_per_session a
          (contains-missing hashes all (sha256 held.bytes) held found unnamed)
          (missing-apart sha256 hashes all all held (Within-self all v.distinct) v.hashed found)
          lacks (omega arith) (omega arith, omega (arith, v.counted)))

  -- After the bundles of a valid peer have come in, a relay with room for all of them looks up, under
  -- the hash of a bundle that the peer holds and that has not expired, what it held itself, or else
  -- the peer's bundle.
  takes_in-lookup :
      (a b : MeshRelayAgent) (h : Bytes) (held : StoredBundle)
      → IsValid sha256 b
      → Fits a b
      → lookup h b.store.by_hash ≡ some held
      → ((i : ℕ) → inspect c (clock i) held.bytes ≡ ok held)
      → lookup h (takes_in c sha256 clock a (hands b a)).1.store.by_hash
        ≡ (if contains_key h a.store.by_hash then lookup h a.store.by_hash else some held)
  takes_in-lookup a b h held v fits found fit =
      let after = (takes_in c sha256 clock a (hands b a)).1.store.by_hash in
      let inbox = stamped clock 2 (map bundle (hands b a) ++ done ∷ []) in
      elim (Option-cases (lookup h a.store.by_hash)) [
        | inl absent ↦
            let e : h ≡ sha256 held.bytes =
              hash-lookup sha256 b.store.by_hash h held v.hashed found in
            let lacks = contains_key-lookup h a.store.by_hash absent in
            rw lacks (
              ap (λ k. lookup k after) e
              ∙ takes_in-lacks a b held v fits (ap (λ k. lookup k b.store.by_hash) (sym e) ∙ found)
                  fit (ap (λ k. contains_key k a.store.by_hash) (sym e) ∙ lacks))
        | inr (own, has) ↦
            receive_loop-kept c sha256 inbox 0 a.config.max_bundles_per_session a h own has
            ∙ ground (arith, has, lookup_absent h a.store.by_hash)
      ]

  -- Where the session caps are not below the number of bundles that a well-formed peer holds and the
  -- global caps leave room for them, a session over a link that takes all messages and brings what
  -- the peer says succeeds. The relay has said what the peer's own session takes in, and under the
  -- hash of every bundle that the peer holds and that is fit whenever it comes in, it now holds what
  -- it held itself after its sweep, or else the peer's bundle.
  pub sync_with_peer-spreads :
      (now_ms n : ℕ) (a b : MeshRelayAgent)
      → IsValid sha256 b
      → Fits (sweep_expired now_ms a) b
      → let swept = sweep_expired now_ms a in
        let (r, s) = sync_with_peer c sha256 now_ms (
          session_of a
            (stamped clock 0 (says b swept))
            []
            (suc (suc (length (hands swept b) + suc n)))) in
        (is_ok r ≡ true)
        × (s.link.outbox ≡ says swept b)
        × ((h : Bytes) (held : StoredBundle)
            → lookup h b.store.by_hash ≡ some held
            → ((i : ℕ) → inspect c (clock i) held.bytes ≡ ok held)
            → lookup h s.agent.store.by_hash ≡ (
                if contains_key h swept.store.by_hash
                then lookup h swept.store.by_hash
                else some held))
  sync_with_peer-spreads now_ms n a b v fits =
      let swept = sweep_expired now_ms a in
      rw (sync_with_peer-says c sha256 clock now_ms n a b) (
        receive_loop-ok (hands b swept) 2 0 swept.config.max_bundles_per_session swept,
        refl,
        λ h held found fit. takes_in-lookup swept b h held v fits found fit,
      )
