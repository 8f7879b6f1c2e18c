-- ===== src/Mesh/Relay.antt =====
-- mesh/src/relay.rs: the store-and-forward relay agent. A method is an action on the agent; the
-- lock makes each of them one step. The clock is an argument, SHA-256 and the bundle codec are
-- parameters. Sums of lengths of byte strings held in memory do not wrap a `usize`.
pub mod Invariant
pub mod Sync
pub mod Admission
pub mod Contents
pub mod History
use parda.Base.{
  ℕ, ◌+◌, ◌-◌, ◌*◌, Bool, true, false, ◌&&◌, ◌||◌, Option, none, some, List, [], ◌∷◌, map, Bytes,
  ltb, leb, not, nat_beq, if◌then◌else◌, contains, length, keep_if, bytes_key,
}
use parda.HashMap.{HashMap, lookup, contains_key, insert, remove}
use parda.Result.{ok, err, ok_or, ensure}
use parda.Exec.{Exec, pure, lift, get, put, ◌>>=◌, ◌>>◌}
use parda.Mesh.Error.{MeshError, MeshResult, relay_refused}
use parda.Mesh.Bundle.{Codec, bytes_as_bundle, destination_address}
use parda.Mesh.Bundle

pub record RelayConfig : Type 0 where
  pub max_total_bundles : ℕ
  pub max_total_bytes : ℕ
  pub max_bundles_per_session : ℕ

abbrev pub default_config : RelayConfig
default_config = record {
  max_total_bundles = 500;
  max_total_bytes = 8 * 1024 * 1024;
  max_bundles_per_session = 20;
}

pub record StoredBundle : Type 0 where
  pub bytes : Bytes
  pub address : Bytes
  pub expiry_ms : ℕ

pub record RelayStore : Type 0 where
  pub by_hash : HashMap Bytes StoredBundle
  pub total_bytes : ℕ

pub record MeshRelayAgent : Type 0 where
  pub config : RelayConfig
  pub store : RelayStore

unfoldable pub new : RelayConfig → MeshRelayAgent
new config = record { config = config; store = record { by_hash = []; total_bytes = 0 } }

unfoldable pub stored_count : MeshRelayAgent → ℕ
stored_count a = length a.store.by_hash

unfoldable pub stored_bytes : MeshRelayAgent → ℕ
stored_bytes a = a.store.total_bytes

abbrev pub Action : Type 0 → Type 0
Action A = Exec MeshError MeshRelayAgent A

-- `if *budget == 0 { refuse }`, for a session that has a budget
abbrev pub budget_left : Option ℕ → Bool
budget_left none = true
budget_left (some budget) = not (nat_beq budget 0)

-- the global caps
abbrev pub has_room : MeshRelayAgent → Bytes → Bool
has_room a bytes = not (
    leb a.config.max_total_bundles (length a.store.by_hash)
    || ltb a.config.max_total_bytes (a.store.total_bytes + length bytes))

-- `store.total_bytes += …; store.by_hash.insert(…)`
abbrev pub stored : MeshRelayAgent → Bytes → StoredBundle → MeshRelayAgent
stored a hash b = record a {
  store = record {
    by_hash = insert hash b a.store.by_hash;
    total_bytes = a.store.total_bytes + length b.bytes;
  };
}

module _ (c : Codec) where
  -- the checks before the lock is taken: what would be stored
  unfoldable pub inspect : ℕ → Bytes → MeshResult StoredBundle
  inspect now_ms bytes = elim (Bundle.expiry_ms c bytes) [
    | err e ↦ err e
    | ok expiry ↦
        if leb expiry now_ms
        then err (relay_refused "bundle already expired on arrival")
        else elim (bytes_as_bundle c bytes) [
          | err e ↦ err e
          | ok bundle ↦ elim (destination_address c bundle) [
            | err e ↦ err e
            | ok address ↦ ok (record { bytes = bytes; address = address; expiry_ms = expiry })
          ]
        ]
  ]

module _ (sha256 : Bytes → Bytes) where
  -- the part under the lock
  unfoldable pub admit_locked : Option ℕ → StoredBundle → Action (Unit {0})
  admit_locked session_budget b = do
    a ← get
    let hash = sha256 b.bytes
    if contains_key hash a.store.by_hash then pure tt else do
      lift (ensure (budget_left session_budget) (relay_refused "per-session admission cap reached"))
      lift (ensure (has_room a b.bytes) (relay_refused "global storage cap reached"))
      put (stored a hash b)

module _ (c : Codec) (sha256 : Bytes → Bytes) where
  unfoldable pub admit_checked : ℕ → Bytes → Option ℕ → Action (Unit {0})
  admit_checked now_ms bytes session_budget = do
    b ← lift (inspect c now_ms bytes)
    admit_locked sha256 session_budget b

  -- the device's own bundles have no session
  unfoldable pub admit : ℕ → Bytes → Action (Unit {0})
  unfolding admit_checked
  admit now_ms bytes = admit_checked now_ms bytes none

abbrev pub is_wanted : List Bytes → Bytes × StoredBundle → Bool
is_wanted addresses (hash, b) = contains addresses b.address

abbrev pub is_expired : ℕ → Bytes × StoredBundle → Bool
is_expired now_ms (hash, b) = leb b.expiry_ms now_ms

abbrev pub entry_hash : Bytes × StoredBundle → Bytes
entry_hash e = e.0

abbrev pub entry_bytes : Bytes × StoredBundle → Bytes
entry_bytes e = e.1.bytes

unfoldable pub bundles_for_addresses : MeshRelayAgent → List Bytes → List Bytes
bundles_for_addresses a addresses = map entry_bytes (keep_if (is_wanted addresses) a.store.by_hash)

-- `store.by_hash.remove(&hash)` with the byte count
unfoldable pub drop_bundle : Bytes → RelayStore → RelayStore
drop_bundle hash s = elim (lookup hash s.by_hash) [
  | none ↦ s
  | some b ↦ record {
    by_hash = remove hash s.by_hash;
    total_bytes = s.total_bytes - length b.bytes;
  }
]

-- the loop over the hashes that were collected first
pub take_hashes : List Bytes → RelayStore → List Bytes × RelayStore
take_hashes [] s = ([], s)
take_hashes (hash ∷ hashes) s =
    let (rest, s') = take_hashes hashes (drop_bundle hash s) in
    (elim (lookup hash s.by_hash) [ none ↦ rest | some b ↦ b.bytes ∷ rest ], s')

pub take_for_addresses : List Bytes → MeshRelayAgent → List Bytes × MeshRelayAgent
take_for_addresses addresses a =
    let (taken, s) =
      take_hashes (map entry_hash (keep_if (is_wanted addresses) a.store.by_hash)) a.store in
    (taken, record a { store = s })

unfoldable pub drop_hashes : List Bytes → RelayStore → RelayStore
drop_hashes [] s = s
drop_hashes (hash ∷ hashes) s = drop_hashes hashes (drop_bundle hash s)

unfoldable pub sweep_expired : ℕ → MeshRelayAgent → MeshRelayAgent
sweep_expired now_ms a = record a {
  store = drop_hashes (map entry_hash (keep_if (is_expired now_ms) a.store.by_hash)) a.store;
}
