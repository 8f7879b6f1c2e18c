-- ===== src/Protocol/Store.antt =====
-- protocol/src/store.rs: the in-memory store of libsignal's records. A record is its serialised
-- bytes, an identity key its bytes, and an address the text it prints as; the id that libsignal
-- reads from a record is a parameter.
pub mod Burn
use parda.Base.{
  ℕ, Bool, true, false, ◌||◌, Option, none, some, List, [], ◌∷◌, String, Bytes, string_key, nat_key,
  bytes_key, not, ◌==◌,
}
use parda.Result.{Result, ok, err, ok_or}
use parda.HashMap.{HashMap, lookup, contains_key, insert, remove}

pub data SignalError : Type 0 where
  invalid_pre_key_id invalid_signed_pre_key_id invalid_kyber_pre_key_id : SignalError
  invalid_state : String → SignalError
  other : String → SignalError

pub record IdentityKeyPair : Type 0 where
  pub identity_key : Bytes
  pub private_key : Bytes

pub record StoreState : Type 0 where
  pub identity_key_pair : Option IdentityKeyPair
  pub registration_id : ℕ
  pub trusted_identities : HashMap String Bytes
  pub sessions : HashMap String Bytes
  pub prekeys : HashMap ℕ Bytes
  pub signed_prekeys : HashMap ℕ Bytes
  pub kyber_prekeys : HashMap ℕ Bytes

abbrev pub new : IdentityKeyPair → ℕ → StoreState
new identity_key_pair registration_id = record {
  identity_key_pair = some identity_key_pair;
  registration_id = registration_id;
  trusted_identities = [];
  sessions = [];
  prekeys = [];
  signed_prekeys = [];
  kyber_prekeys = [];
}

module _ (id_of : Bytes → Result SignalError ℕ) where
  -- The records before one without an id stay stored.
  unfoldable pub store_prekey_batch :
      List Bytes → StoreState → Result SignalError (Unit {0}) × StoreState
  store_prekey_batch [] s = (ok tt, s)
  store_prekey_batch (pk ∷ prekeys) s = elim (id_of pk) [
    | err e ↦ (err e, s)
    | ok id ↦ store_prekey_batch prekeys (record s { prekeys = insert id pk s.prekeys })
  ]

  pub store_signed_prekey_record : Bytes → StoreState → Result SignalError (Unit {0}) × StoreState
  store_signed_prekey_record r s = elim (id_of r) [
    | err e ↦ (err e, s)
    | ok id ↦ (ok tt, record s { signed_prekeys = insert id r s.signed_prekeys })
  ]

pub record SessionBurnResult : Type 0 where
  pub session_removed : Bool
  pub identity_trust_removed : Bool

abbrev pub is_some {ℓ} : {A : Type ℓ} → Option A → Bool
is_some none = false
is_some (some a) = true

pub burn_session : String → StoreState → SessionBurnResult × StoreState
burn_session address s = (
  record {
    session_removed = is_some (lookup address s.sessions);
    identity_trust_removed = is_some (lookup address s.trusted_identities);
  },
  record s {
    sessions = remove address s.sessions;
    trusted_identities = remove address s.trusted_identities;
  },
)

pub has_conversation_state : String → StoreState → Bool
has_conversation_state address s =
    contains_key address s.sessions || contains_key address s.trusted_identities

pub load_session : String → StoreState → Option Bytes
load_session address s = lookup address s.sessions

pub store_session : String → Bytes → StoreState → StoreState
store_session address r s = record s { sessions = insert address r s.sessions }

pub get_pre_key : ℕ → StoreState → Result SignalError Bytes
get_pre_key id s = ok_or (lookup id s.prekeys) invalid_pre_key_id

pub save_pre_key : ℕ → Bytes → StoreState → StoreState
save_pre_key id r s = record s { prekeys = insert id r s.prekeys }

pub remove_pre_key : ℕ → StoreState → StoreState
remove_pre_key id s = record s { prekeys = remove id s.prekeys }

pub get_signed_pre_key : ℕ → StoreState → Result SignalError Bytes
get_signed_pre_key id s = ok_or (lookup id s.signed_prekeys) invalid_signed_pre_key_id

pub save_signed_pre_key : ℕ → Bytes → StoreState → StoreState
save_signed_pre_key id r s = record s { signed_prekeys = insert id r s.signed_prekeys }

pub get_kyber_pre_key : ℕ → StoreState → Result SignalError Bytes
get_kyber_pre_key id s = ok_or (lookup id s.kyber_prekeys) invalid_kyber_pre_key_id

pub save_kyber_pre_key : ℕ → Bytes → StoreState → StoreState
save_kyber_pre_key id r s = record s { kyber_prekeys = insert id r s.kyber_prekeys }

pub mark_kyber_pre_key_used : ℕ → StoreState → StoreState
mark_kyber_pre_key_used id s = record s { kyber_prekeys = remove id s.kyber_prekeys }

unfoldable pub get_identity_key_pair : StoreState → Result SignalError IdentityKeyPair
get_identity_key_pair s = ok_or s.identity_key_pair (invalid_state "not initialized")

pub get_local_registration_id : StoreState → ℕ
get_local_registration_id s = s.registration_id

-- `get(…).map(test).unwrap_or(true)`
abbrev pub or_true : (Bytes → Bool) → Option Bytes → Bool
or_true test none = true
or_true test (some existing) = test existing

-- The result says whether the key is new or differs.
pub save_identity : String → Bytes → StoreState → Bool × StoreState
save_identity address identity s = (
  or_true (λ existing. not (existing == identity)) (lookup address s.trusted_identities),
  record s { trusted_identities = insert address identity s.trusted_identities },
)

pub is_trusted_identity : String → Bytes → StoreState → Bool
is_trusted_identity address identity s =
    or_true (λ stored. stored == identity) (lookup address s.trusted_identities)

pub get_identity : String → StoreState → Option Bytes
get_identity address s = lookup address s.trusted_identities
