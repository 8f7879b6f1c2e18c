-- ===== src/Protocol/DeadDrop.antt =====
-- protocol/src/dead_drop.rs: the blinded addresses of a conversation. HKDF-Expand, the random
-- decoys (by number of the draw) and the shuffle are parameters.
use parda.Base.{
  ℕ, zero, suc, ◌+◌, ◌-◌, ◌*◌, ◌≤◌, ◌<◌, ◌≡◌, refl, ◌∙◌, List, [], ◌∷◌, ◌++◌, map, arith, Bytes,
  length, min, contains, bytes_key, length-append, true, inl, inr, nat_beq, Bool-cases,
  bytes_beq_iff, ap,
}
use parda.Protocol.Envelope.{u64_mod}
use parda.Protocol.SelfDestruct.{be_bytes}
use parda.Mesh.Bundle.{codes}

unfoldable pub address_kdf_context : Bytes
address_kdf_context = codes "PARDA-Phase4-DeadDropAddress-V1"

-- `from, from + 1, …`, `count` numbers
unfoldable pub count_from : ℕ → ℕ → List ℕ
count_from from zero = []
count_from from (suc count) = from ∷ count_from (suc from) count

module _ (expand : Bytes → Bytes → Bytes) where
  unfoldable pub address_for : Bytes → ℕ → Bytes
  address_for tag_key n = expand tag_key (address_kdf_context ++ be_bytes 8 n)

  -- `start..start.saturating_add(window)`
  unfoldable pub address_window : Bytes → ℕ → ℕ → List Bytes
  address_window tag_key start window =
      map (address_for tag_key) (count_from start (min (start + window) (u64_mod - 1) - start))

  pub build_poll_set : (ℕ → Bytes) → (List Bytes → List Bytes) → Bytes → ℕ → ℕ → ℕ → List Bytes
  build_poll_set random_decoy_address shuffle tag_key start window decoys_per_real = shuffle (
      address_window tag_key start window
      ++ map random_decoy_address (count_from 0 (window * decoys_per_real)))

  pub contains-map-count_from :
      (tag_key : Bytes) (count from n : ℕ)
      → from ≤ n
      → n < from + count
      → contains (map (address_for tag_key) (count_from from count)) (address_for tag_key n) ≡ true
  unfolding count_from
  contains-map-count_from tag_key zero from n low high = ground arith
  contains-map-count_from tag_key (suc count) from n low high = elim (Bool-cases (nat_beq from n)) [
    | inl same ↦
        let e : address_for tag_key from ≡ address_for tag_key n =
          ap (address_for tag_key) (ground arith) in
        ground (arith, bytes_beq_iff (address_for tag_key from) (address_for tag_key n))
    | inr differ ↦ ground (arith, contains-map-count_from tag_key count (suc from) n)
  ]

  length-map-count_from :
      (f : ℕ → Bytes) (count from : ℕ) → length (map f (count_from from count)) ≡ count
  unfolding count_from
  length-map-count_from f zero from = refl
  length-map-count_from f (suc count) from =
      ground (arith, length-map-count_from f count (suc from))

  contains-append-left :
      (xs ys : List Bytes) (a : Bytes) → contains xs a ≡ true → contains (xs ++ ys) a ≡ true
  contains-append-left [] ys a h = cc
  contains-append-left (x ∷ xs) ys a h = ground (arith, contains-append-left xs ys a)

  -- Where the shuffle only reorders and the window ends within the 64-bit range, the poll set has
  -- the address of every number of the window, among as many others as decoys were asked for.
  pub build_poll_set_lem :
      (random_decoy_address : ℕ → Bytes) (shuffle : List Bytes → List Bytes) (tag_key : Bytes)
      (start window decoys_per_real : ℕ)
      → ((xs : List Bytes) → length (shuffle xs) ≡ length xs)
      → ((xs : List Bytes) (a : Bytes) → contains (shuffle xs) a ≡ contains xs a)
      → start + window < u64_mod
      → let poll_set =
          build_poll_set random_decoy_address shuffle tag_key start window decoys_per_real in
        ((n : ℕ)
          → start ≤ n
          → n < start + window
          → contains poll_set (address_for tag_key n) ≡ true)
        × (length poll_set ≡ window + window * decoys_per_real)
  unfolding build_poll_set address_window
  build_poll_set_lem random_decoy_address shuffle tag_key start window decoys_per_real sized kept
        bound =
      let real = address_window tag_key start window in
      let decoys = map random_decoy_address (count_from 0 (window * decoys_per_real)) in
      let count = min (start + window) (u64_mod - 1) - start in
      (
        λ n low high.
            kept (real ++ decoys) (address_for tag_key n)
            ∙ contains-append-left real decoys (address_for tag_key n)
                (contains-map-count_from tag_key count start n low (omega arith)),
        ground (
          arith,
          sized (real ++ decoys),
          length-append real decoys,
          length-map-count_from (address_for tag_key) count start,
          length-map-count_from random_decoy_address (window * decoys_per_real) 0,
        ),
      )
