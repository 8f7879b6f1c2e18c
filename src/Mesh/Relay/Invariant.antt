-- ===== src/Mesh/Relay/Invariant.antt =====
-- The relay's storage invariant and that every change of the store keeps it.
use parda.Base.{
  ℕ, ◌≤◌, ◌≡◌, refl, true, false, Option, List, [], ◌∷◌, arith, Bytes, length, length-append,
  sum_by, sum_by-append, All, All-append, Option-cases, inl, inr, bytes_key,
}
use parda.HashMap.{
  Distinct, lookup, contains_key, insert_absent, insert-Distinct, remove-Distinct, sum_by-remove,
  remove-All, length-remove-le,
}
use parda.Exec.{lift_cases}
use parda.Mesh.Bundle.{Codec}
use parda.Mesh.Relay.{
  RelayConfig, StoredBundle, RelayStore, MeshRelayAgent, new, inspect, admit_locked, admit_checked,
  drop_bundle, drop_hashes, sweep_expired, take_hashes, take_for_addresses, entry_bytes, stored,
  has_room,
}

abbrev pub entry_size : Bytes × StoredBundle → ℕ
entry_size e = length (entry_bytes e)

-- The byte count is the sum over the entries, every entry stands once under the hash of its own
-- bytes, and both global caps hold.
pub record IsStore (sha256 : Bytes → Bytes) (config : RelayConfig) (s : RelayStore) : Type 0 where
  pub distinct : Distinct s.by_hash
  pub counted : s.total_bytes ≡ sum_by entry_size s.by_hash
  pub hashed : All (λ (e : Bytes × StoredBundle). e.0 ≡ sha256 (entry_bytes e)) s.by_hash
  pub few_bundles : length s.by_hash ≤ config.max_total_bundles
  pub few_bytes : s.total_bytes ≤ config.max_total_bytes

abbrev pub IsValid : (Bytes → Bytes) → MeshRelayAgent → Type 0
IsValid sha256 a = IsStore sha256 a.config a.store

module _ (sha256 : Bytes → Bytes) where
  pub new-IsValid : (config : RelayConfig) → IsValid sha256 (new config)
  unfolding new
  new-IsValid config = record {
    distinct = tt;
    counted = refl;
    hashed = tt;
    few_bundles = omega arith;
    few_bytes = omega arith;
  }

  stored-IsValid :
      (a : MeshRelayAgent) (b : StoredBundle)
      → contains_key (sha256 b.bytes) a.store.by_hash ≡ false
      → has_room a b.bytes ≡ true
      → IsValid sha256 a
      → IsValid sha256 (stored a (sha256 b.bytes) b)
  stored-IsValid a b new_hash room v = record {
    distinct = insert-Distinct (sha256 b.bytes) b a.store.by_hash v.distinct;
    counted = rw (insert_absent _ b a.store.by_hash new_hash) (
        omega
          (arith, v.counted, sum_by-append entry_size a.store.by_hash ((sha256 b.bytes, b) ∷ [])));
    hashed =
        rw (insert_absent _ b a.store.by_hash new_hash)
          (All-append _ a.store.by_hash ((sha256 b.bytes, b) ∷ []) v.hashed (refl, tt));
    few_bundles =
        rw (insert_absent _ b a.store.by_hash new_hash)
          (ground (arith, length-append a.store.by_hash ((sha256 b.bytes, b) ∷ [])));
    few_bytes = ground arith;
  }

  pub admit_locked-IsValid :
      (budget : Option ℕ) (b : StoredBundle) (a : MeshRelayAgent)
      → IsValid sha256 a
      → IsValid sha256 (admit_locked sha256 budget b a).1
  unfolding admit_locked
  admit_locked-IsValid budget b a v = ground (arith, stored-IsValid a b)

  pub drop_bundle-IsStore :
      (config : RelayConfig) (hash : Bytes) (s : RelayStore)
      → IsStore sha256 config s
      → IsStore sha256 config (drop_bundle hash s)
  unfolding drop_bundle
  drop_bundle-IsStore config hash s v = elim (Option-cases (lookup hash s.by_hash)) [
    | inl absent ↦ rw (absent, drop_bundle) v
    | inr (b, held) ↦
        rw (held, drop_bundle)
          (record {
            distinct = remove-Distinct hash s.by_hash v.distinct;
            counted =
                omega (arith, v.counted, sum_by-remove entry_size hash b s.by_hash v.distinct held);
            hashed = remove-All _ hash s.by_hash v.hashed;
            few_bundles = omega (arith, v.few_bundles, length-remove-le hash s.by_hash);
            few_bytes = omega (arith, v.few_bytes);
          })
  ]

  pub drop_hashes-IsStore :
      (config : RelayConfig) (hashes : List Bytes) (s : RelayStore)
      → IsStore sha256 config s
      → IsStore sha256 config (drop_hashes hashes s)
  unfolding drop_hashes
  drop_hashes-IsStore config [] s v = v
  drop_hashes-IsStore config (hash ∷ hashes) s v =
      drop_hashes-IsStore config hashes _ (drop_bundle-IsStore config hash s v)

  -- The loop of `take_for_addresses` leaves the store that the loop of `sweep_expired` would.
  pub take_hashes-drop_hashes :
      (hashes : List Bytes) (s : RelayStore) → (take_hashes hashes s).1 ≡ drop_hashes hashes s
  unfolding take_hashes drop_hashes
  take_hashes-drop_hashes [] s = refl
  take_hashes-drop_hashes (hash ∷ hashes) s = take_hashes-drop_hashes hashes (drop_bundle hash s)

  pub sweep_expired-IsValid :
      (now_ms : ℕ) (a : MeshRelayAgent) → IsValid sha256 a → IsValid sha256 (sweep_expired now_ms a)
  unfolding sweep_expired
  sweep_expired-IsValid now_ms a v = drop_hashes-IsStore a.config _ a.store v

  pub take_for_addresses-IsValid :
      (addresses : List Bytes) (a : MeshRelayAgent)
      → IsValid sha256 a
      → IsValid sha256 (take_for_addresses addresses a).1
  unfolding take_for_addresses
  take_for_addresses-IsValid addresses a v =
      rw (take_hashes-drop_hashes _ a.store) (drop_hashes-IsStore a.config _ a.store v)

module _ (c : Codec) (sha256 : Bytes → Bytes) where
  pub admit_checked-IsValid :
      (now_ms : ℕ) (bytes : Bytes) (budget : Option ℕ) (a : MeshRelayAgent)
      → IsValid sha256 a
      → IsValid sha256 (admit_checked c sha256 now_ms bytes budget a).1
  unfolding admit_checked
  admit_checked-IsValid now_ms bytes budget a v =
      lift_cases (λ r. IsValid sha256 r.1) (inspect c now_ms bytes) _ a (λ e _. v)
        (λ b _. admit_locked-IsValid sha256 budget b a v)
