-- ===== src/Mesh/Relay/Contents.antt =====
-- What the relay holds after a sweep or a pick-up, and what a pick-up hands over.
use parda.Base.{
  ℕ, ◌+◌, ◌≤◌, ◌≡◌, refl, Bool, none, List, [], ◌∷◌, map, arith, Bytes, length, not, if◌then◌else◌,
  contains, keep_if, sum_by, Option-cases, inl, inr, bytes_key, bytes_beq_iff,
}
use parda.HashMap.{
  HashMap, lookup, Distinct, passing, lookup-remove, keep_if-Distinct, sum_by-remove,
}
use parda.HashMap.Within.{Within, Within-remove, Within-self, Within-keep_if, contains-keep_if}
use parda.Mesh.Relay.{
  StoredBundle, RelayStore, RelayConfig, MeshRelayAgent, drop_bundle, drop_hashes, sweep_expired,
  take_hashes, take_for_addresses, bundles_for_addresses, is_expired, is_wanted, entry_hash,
  entry_bytes, stored_bytes,
}
use parda.Mesh.Relay.Invariant.{
  IsStore, IsValid, take_hashes-drop_hashes, drop_bundle-IsStore, entry_size,
}

lookup-drop_bundle :
    (hash h : Bytes) (s : RelayStore)
    → lookup h (drop_bundle hash s).by_hash
      ≡ (if contains (hash ∷ []) h then none else lookup h s.by_hash)
unfolding drop_bundle
lookup-drop_bundle hash h s = ground (arith, lookup-remove hash h s.by_hash, bytes_beq_iff hash h)

lookup-drop_hashes :
    (hashes : List Bytes) (h : Bytes) (s : RelayStore)
    → lookup h (drop_hashes hashes s).by_hash
      ≡ (if contains hashes h then none else lookup h s.by_hash)
unfolding drop_hashes
lookup-drop_hashes [] h s = refl
lookup-drop_hashes (hash ∷ hashes) h s =
    ground (arith, lookup-drop_hashes hashes h (drop_bundle hash s), lookup-drop_bundle hash h s)

length-take_hashes :
    (hashes : List Bytes) (s : RelayStore) → length (take_hashes hashes s).0 ≤ length hashes
unfolding take_hashes
length-take_hashes [] s = omega arith
length-take_hashes (hash ∷ hashes) s =
    ground (arith, length-take_hashes hashes (drop_bundle hash s))

length-map-keep_if :
    (test : Bytes × StoredBundle → Bool) (m : HashMap Bytes StoredBundle)
    → length (map entry_hash (keep_if test m)) ≤ length m
length-map-keep_if test [] = omega arith
length-map-keep_if test (e ∷ m) = ground (arith, length-map-keep_if test m)

-- A pick-up hands over at most what is held.
pub length-take_for_addresses :
    (addresses : List Bytes) (a : MeshRelayAgent)
    → length (take_for_addresses addresses a).0 ≤ length a.store.by_hash
unfolding take_for_addresses
length-take_for_addresses addresses a =
    let hashes = map entry_hash (keep_if (is_wanted addresses) a.store.by_hash) in
    ground (
      arith,
      length-take_hashes hashes a.store,
      length-map-keep_if (is_wanted addresses) a.store.by_hash,
    )

module _ (sha256 : Bytes → Bytes) where
  -- After a sweep a well-formed relay holds of each hash what it held before, unless that had
  -- expired.
  pub lookup-sweep_expired :
      (now_ms : ℕ) (h : Bytes) (a : MeshRelayAgent)
      → IsValid sha256 a
      → lookup h (sweep_expired now_ms a).store.by_hash
        ≡ passing (λ e. not (is_expired now_ms e)) h (lookup h a.store.by_hash)
  unfolding sweep_expired
  lookup-sweep_expired now_ms h a v = ground (
    arith,
    lookup-drop_hashes (map entry_hash (keep_if (is_expired now_ms) a.store.by_hash)) h a.store,
    contains-keep_if (is_expired now_ms) h a.store.by_hash v.distinct,
  )

  take_hashes-Within :
      (entries : HashMap Bytes StoredBundle) (s : RelayStore)
      → Distinct entries
      → Within s.by_hash entries
      → (take_hashes (map entry_hash entries) s).0 ≡ map entry_bytes entries
  unfolding take_hashes drop_bundle
  take_hashes-Within [] s d w = refl
  take_hashes-Within ((k, b) ∷ entries) s d w = ground (
    arith,
    take_hashes-Within entries (drop_bundle k s) d.1,
    Within-remove k s.by_hash entries d.0 w.1,
  )

  take_hashes-bytes :
      (config : RelayConfig) (hashes : List Bytes) (s : RelayStore)
      → IsStore sha256 config s
      → (take_hashes hashes s).1.total_bytes + sum_by length (take_hashes hashes s).0
        ≡ s.total_bytes
  unfolding take_hashes drop_bundle
  take_hashes-bytes config [] s v = omega arith
  take_hashes-bytes config (k ∷ hashes) s v =
      let ih =
        take_hashes-bytes config hashes (drop_bundle k s)
          (drop_bundle-IsStore sha256 config k s v) in
      elim (Option-cases (lookup k s.by_hash)) [
        | inl absent ↦ ground (arith, ih)
        | inr (b, held) ↦
            ground (arith, ih, v.counted, sum_by-remove entry_size k b s.by_hash v.distinct held)
      ]

  -- A pick-up from a well-formed relay returns the bytes of exactly the bundles at the wanted
  -- addresses, as the reading that removes nothing would; it leaves of each hash what it held,
  -- unless that was wanted; and the byte count goes down by what was handed over.
  pub take_for_addresses_lem :
      (addresses : List Bytes) (a : MeshRelayAgent)
      → IsValid sha256 a
      → let (taken, a') = take_for_addresses addresses a in
        (taken ≡ bundles_for_addresses a addresses)
        × ((h : Bytes)
            → lookup h a'.store.by_hash
              ≡ passing (λ e. not (is_wanted addresses e)) h (lookup h a.store.by_hash))
        × (stored_bytes a' + sum_by length taken ≡ stored_bytes a)
  unfolding take_for_addresses bundles_for_addresses stored_bytes
  take_for_addresses_lem addresses a v =
      let m = a.store.by_hash in
      let entries = keep_if (is_wanted addresses) m in
      (
        take_hashes-Within entries a.store (keep_if-Distinct (is_wanted addresses) m v.distinct)
            (Within-keep_if (is_wanted addresses) m m (Within-self m v.distinct)),
        λ h. rw (take_hashes-drop_hashes sha256 (map entry_hash entries) a.store) (
            ground (
              arith,
              lookup-drop_hashes (map entry_hash entries) h a.store,
              contains-keep_if (is_wanted addresses) h m v.distinct,
            )),
        take_hashes-bytes a.config (map entry_hash entries) a.store v,
      )
