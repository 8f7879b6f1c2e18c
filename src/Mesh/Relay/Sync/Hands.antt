-- ===== src/Mesh/Relay/Sync/Hands.antt =====
-- What a relay hands to a peer: where the session caps are not reached, exactly the bundles that the
-- peer does not hold.
use parda.Base.{
  ℕ, zero, suc, ◌≤◌, ◌≡◌, refl, ap, Bool, true, false, some, List, [], ◌∷◌, map, arith, Bytes,
  length, not, contains, take, keep_if, length-keep_if, sum_by, All, bytes_key, bytes_beq_iff,
}
use parda.HashMap.{HashMap, lookup}
use parda.HashMap.Within.{Within, Within-self, Within-keep_if}
use parda.Mesh.Relay.{StoredBundle, MeshRelayAgent, entry_hash, entry_bytes}
use parda.Mesh.Relay.Invariant.{IsValid, entry_size}
use parda.Mesh.Relay.Sync.{my_hashes, wanted, held_bytes, to_send}
use parda.Mesh.Relay.Sync.Exchange.{hands}

-- an entry whose hash the peer does not name
abbrev pub is_missing : List Bytes → Bytes × StoredBundle → Bool
is_missing held e = not (contains held (entry_hash e))

-- the entries of `a` that `b` lacks
abbrev pub missing : MeshRelayAgent → MeshRelayAgent → HashMap Bytes StoredBundle
missing b a = keep_if (is_missing (my_hashes b)) a.store.by_hash

take_all {ℓ} : {A : Type ℓ} (n : ℕ) (xs : List A) → length xs ≤ n → take n xs ≡ xs
take_all zero [] h = refl
take_all zero (x ∷ xs) h = absurd (omega arith)
take_all (suc n) [] h = refl
take_all (suc n) (x ∷ xs) h = ap (◌∷◌ x) (take_all n xs (omega arith))

length-map {ℓ κ} :
    {A : Type ℓ} {B : Type κ} (f : A → B) (xs : List A) → length (map f xs) ≡ length xs
length-map f [] = refl
length-map f (x ∷ xs) = ap suc (length-map f xs)

keep_if-map :
    (held : List Bytes) (m : HashMap Bytes StoredBundle)
    → keep_if (λ h. not (contains held h)) (map entry_hash m)
      ≡ map entry_hash (keep_if (is_missing held) m)
keep_if-map held [] = refl
keep_if-map held (e ∷ m) = ground (arith, keep_if-map held m)

held_bytes-Within :
    (store entries : HashMap Bytes StoredBundle)
    → Within store entries
    → held_bytes store (map entry_hash entries) ≡ map entry_bytes entries
unfolding held_bytes
held_bytes-Within store [] w = refl
held_bytes-Within store ((h, b) ∷ entries) w = ground (arith, held_bytes-Within store entries w.1)

module _ (sha256 : Bytes → Bytes) (a b : MeshRelayAgent) where
  -- Where neither session cap is below the number of bundles that a relay holds, it hands a peer the
  -- bytes of exactly the bundles that the peer lacks.
  pub hands-missing :
      IsValid sha256 a
      → length a.store.by_hash ≤ a.config.max_bundles_per_session
      → length a.store.by_hash ≤ b.config.max_bundles_per_session
      → hands a b ≡ map entry_bytes (missing b a)
  unfolding my_hashes wanted to_send
  hands-missing v mine theirs =
      let entries = missing b a in
      let few : length (map entry_hash entries) ≤ length a.store.by_hash = omega (
        arith,
        length-map entry_hash entries,
        length-keep_if (is_missing (my_hashes b)) a.store.by_hash,
      ) in
      rw (keep_if-map (map entry_hash b.store.by_hash) a.store.by_hash) (
        rw (take_all b.config.max_bundles_per_session (map entry_hash entries) (omega arith)) (
          rw (take_all a.config.max_bundles_per_session (map entry_hash entries) (omega arith)) (
            held_bytes-Within a.store.by_hash entries (
              Within-keep_if (is_missing (my_hashes b)) a.store.by_hash a.store.by_hash
                (Within-self a.store.by_hash v.distinct)))))

sum_by-keep_if :
    (test : Bytes × StoredBundle → Bool) (m : HashMap Bytes StoredBundle)
    → sum_by length (map entry_bytes (keep_if test m)) ≤ sum_by entry_size m
sum_by-keep_if test [] = omega arith
sum_by-keep_if test (e ∷ m) = ground (arith, sum_by-keep_if test m)

-- what is handed over is not longer, nor more, than what is held
pub hands_few :
    (held : List Bytes) (m : HashMap Bytes StoredBundle)
    → (length (map entry_bytes (keep_if (is_missing held) m)) ≤ length m)
      × (sum_by length (map entry_bytes (keep_if (is_missing held) m)) ≤ sum_by entry_size m)
hands_few held m = (
  omega (
    arith,
    length-map entry_bytes (keep_if (is_missing held) m),
    length-keep_if (is_missing held) m,
  ),
  sum_by-keep_if (is_missing held) m,
)

pub contains-missing :
    (held : List Bytes) (m : HashMap Bytes StoredBundle) (h : Bytes) (b : StoredBundle)
    → lookup h m ≡ some b
    → contains held h ≡ false
    → contains (map entry_bytes (keep_if (is_missing held) m)) b.bytes ≡ true
contains-missing held [] h b found lacks = cc
contains-missing held ((k, w) ∷ m) h b found lacks =
    ground (arith, contains-missing held m h b, bytes_beq_iff k h, bytes_beq_iff w.bytes b.bytes)

-- every bundle handed over stands under its own hash, so that no two share one
pub missing-apart :
    (sha256 : Bytes → Bytes) (held : List Bytes) (m : HashMap Bytes StoredBundle)
    (all : HashMap Bytes StoredBundle) (b : StoredBundle)
    → Within all m
    → All (λ (e : Bytes × StoredBundle). e.0 ≡ sha256 (entry_bytes e)) m
    → lookup (sha256 b.bytes) all ≡ some b
    → All
        (λ y. sha256 y ≡ sha256 b.bytes → y ≡ b.bytes)
        (map entry_bytes (keep_if (is_missing held) m))
missing-apart sha256 held [] all b w hashed found = tt
missing-apart sha256 held ((k, v) ∷ m) all b w hashed found =
    ground (arith, missing-apart sha256 held m all b w.1 hashed.1 found)
