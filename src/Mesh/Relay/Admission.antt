-- ===== src/Mesh/Relay/Admission.antt =====
-- When the relay takes a bundle, and what it holds then.
use parda.Base.{
  ℕ, ◌+◌, ◌≤◌, ◌<◌, ◌≡◌, ◌↔◌, ◌⊎◌, inl, inr, true, false, Option, some, arith, Bytes, length,
  bytes_key, if◌then◌else◌, ◌==◌, ◌≢◌, Option-cases, Bool-cases, ◌&&◌,
}
use parda.HashMap.{lookup, contains_key, lookup-insert}
use parda.Result.{ok, Result-cases}
use parda.Mesh.Bundle.{Codec, Bundle, expiry_ms, bytes_as_bundle, destination_address}
use parda.Mesh.Relay.{
  StoredBundle, MeshRelayAgent, inspect, admit_locked, admit_checked, budget_left, has_room, stored,
  stored_bytes,
}

-- The bytes decode to a bundle for a dead drop that has not expired, and `b` records it.
abbrev pub Arrives : Codec → ℕ → Bytes → StoredBundle → Type 0
Arrives c now_ms bytes b =
    ((bundle : Bundle) × (c.try_from bytes ≡ some bundle)
      × (destination_address c bundle ≡ ok b.address)
      × (expiry_ms c bytes ≡ ok b.expiry_ms))
    × (now_ms < b.expiry_ms)
    × (b.bytes ≡ bytes)

module _ (c : Codec) (now_ms : ℕ) (bytes : Bytes) (b : StoredBundle) where
  pub inspect→Arrives : inspect c now_ms bytes ≡ ok b → Arrives c now_ms bytes b
  unfolding inspect bytes_as_bundle
  inspect→Arrives h = elim (Option-cases (c.try_from bytes)) [
    | inl p ↦ ground arith
    | inr (bundle, p) ↦ ((bundle, p, ground arith, ground arith), ground arith, ground arith)
  ]

  pub Arrives→inspect : Arrives c now_ms bytes b → inspect c now_ms bytes ≡ ok b
  unfolding inspect bytes_as_bundle
  Arrives→inspect h = ground arith

-- Both global caps leave room for the bytes.
abbrev pub Room : MeshRelayAgent → Bytes → Type 0
Room a bytes =
    (length a.store.by_hash < a.config.max_total_bundles)
    × (a.store.total_bytes + length bytes ≤ a.config.max_total_bytes)

-- The part under the lock changes nothing, or stores a bundle that was not held.
abbrev pub Locked : (Bytes → Bytes) → Option ℕ → StoredBundle → MeshRelayAgent → Type 0
Locked sha256 budget b a =
    let (r, a') = admit_locked sha256 budget b a in
    let held = contains_key (sha256 b.bytes) a.store.by_hash in
    (a' ≡ a) × ((r ≡ ok tt) → held ≡ true)
    ⊎ (r ≡ ok tt) × (held ≡ false) × (a' ≡ stored a (sha256 b.bytes) b)

pub admit_locked_lem :
    (sha256 : Bytes → Bytes) (budget : Option ℕ) (b : StoredBundle) (a : MeshRelayAgent)
    → Locked sha256 budget b a
unfolding admit_locked
admit_locked_lem sha256 budget b a =
    elim (Bool-cases (contains_key (sha256 b.bytes) a.store.by_hash)) [
      | inl held ↦ inl (ground arith, ground arith)
      | inr fresh ↦ elim (Bool-cases (budget_left budget && has_room a b.bytes)) [
        | inl fits ↦ inr (ground arith, fresh, ground arith)
        | inr full ↦ inl (ground arith, ground arith)
      ]
    ]

module _ (c : Codec) (sha256 : Bytes → Bytes) where
  -- A bundle is accepted exactly when it decodes, is for a dead drop and has not expired, and either
  -- its hash is held already or the session's budget is not used up and both global caps leave room.
  pub admit_checked_iff :
      (now_ms : ℕ) (bytes : Bytes) (budget : Option ℕ) (a : MeshRelayAgent)
      → ((admit_checked c sha256 now_ms bytes budget a).0 ≡ ok tt) ↔ (
          (b : StoredBundle) × Arrives c now_ms bytes b
          × ((contains_key (sha256 bytes) a.store.by_hash ≡ true)
              ⊎ (budget ≢ some 0) × Room a bytes))
  unfolding admit_checked admit_locked
  admit_checked_iff now_ms bytes budget a = elim (Result-cases (inspect c now_ms bytes)) [
    | inl (e, p) ↦ (λ h. ground arith, λ h. ground (arith, Arrives→inspect c now_ms bytes h.0 h.1))
    | inr (b, p) ↦ (
      λ h. (
        b,
        inspect→Arrives c now_ms bytes b p,
        ground (arith, inspect→Arrives c now_ms bytes b p),
      ),
      λ h.
          ground
            (arith, Arrives→inspect c now_ms bytes h.0 h.1, inspect→Arrives c now_ms bytes b p),
    )
  ]

  -- A refusal changes nothing. An accepted bundle either was held already, and nothing changes, or is
  -- now what its hash looks up, every other hash looks up what it did, and the byte count has grown
  -- by the bundle's length.
  pub admit_checked_effect :
      (now_ms : ℕ) (bytes : Bytes) (budget : Option ℕ) (a : MeshRelayAgent)
      → let (r, a') = admit_checked c sha256 now_ms bytes budget a in
        (a' ≡ a) × ((r ≡ ok tt) → contains_key (sha256 bytes) a.store.by_hash ≡ true)
        ⊎ (r ≡ ok tt)
          × (contains_key (sha256 bytes) a.store.by_hash ≡ false)
          × ((b : StoredBundle) × Arrives c now_ms bytes b
              × ((h : Bytes)
                  → lookup h a'.store.by_hash
                    ≡ (if sha256 bytes == h then some b else lookup h a.store.by_hash))
              × (stored_bytes a' ≡ stored_bytes a + length bytes))
  unfolding admit_checked stored_bytes
  admit_checked_effect now_ms bytes budget a = elim (Result-cases (inspect c now_ms bytes)) [
    | inl (e, p) ↦ inl (ground arith, ground arith)
    | inr (b, p) ↦
        let arrived = inspect→Arrives c now_ms bytes b p in
        elim (admit_locked_lem sha256 budget b a) [
          | inl (same, held) ↦ inl (ground arith, ground arith)
          | inr (accepted, fresh, grown) ↦ inr (
            ground arith,
            ground arith,
            (
              b,
              arrived,
              λ h. ground (arith, lookup-insert (sha256 b.bytes) h b a.store.by_hash),
              ground arith,
            ),
          )
        ]
  ]
