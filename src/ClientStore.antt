-- ===== src/ClientStore.antt =====
-- client-store/src/lib.rs: a client's message history and its holding area for self-destructing
-- messages. A statement is a function of the tables; an envelope that is stored as JSON is stored
-- as itself; a new row's id is an argument.
pub mod Schema
pub mod History
pub mod Holding
use parda.Base.{
  ℕ, Bool, true, false, ◌||◌, Option, none, some, List, [], ◌∷◌, map, String, Bytes, length, not,
  leb, nat_beq, if◌then◌else◌, ◌==◌, string_key, keep_if,
}
use parda.HashMap.{HashMap, lookup, contains_key, insert, remove}
use parda.Result.{Result, ok, err, ensure, ok_or, ◌>>=◌, ◌>>◌}
use parda.Sorting.{sort_by}
use parda.Protocol.Envelope.{MessageEnvelope, signed_order}
use parda.Protocol.SelfDestruct.{
  DestructMode, time_bound, read_triggered, combined, PersistedSelfDestructState,
}

pub data StoreError : Type 0 where
  refuses_self_destructing_message : StoreError
  sqlite : String → StoreError
  codec : String → StoreError

pub data MessageDirection : Type 0 where
  sent received : MessageDirection

pub as_str : MessageDirection → String
as_str sent = "sent"
as_str received = "received"

pub from_str : String → Option MessageDirection
from_str s = if s == "sent" then some sent else if s == "received" then some received else none

pub mode_to_str : DestructMode → String
mode_to_str time_bound = "time_bound"
mode_to_str read_triggered = "read_triggered"
mode_to_str combined = "combined"

pub mode_from_str : String → Option DestructMode
mode_from_str s =
    if s == "time_bound"
    then some time_bound
    else if s == "read_triggered"
    then some read_triggered
    else if s == "combined"
    then some combined
    else none

pub record StoredMessage : Type 0 where
  pub id : String
  pub peer_address : String
  pub direction : MessageDirection
  pub envelope : MessageEnvelope
  pub stored_at_ms : ℕ

-- a row of `messages`, under its id
pub record MessageRow : Type 0 where
  pub peer_address : String
  pub direction : String
  pub envelope_json : MessageEnvelope
  pub stored_at_ms : ℕ

-- a row of `pending_self_destruct`, under its id
pub record PendingRow : Type 0 where
  pub peer_address : String
  pub ciphertext : Bytes
  pub key_bytes : Bytes
  pub mode : String
  pub expires_at_ms : Option ℕ
  pub staged_at_ms : ℕ

pub record LocalMessageStore : Type 0 where
  pub messages : HashMap String MessageRow
  pub pending_self_destruct : HashMap String PendingRow

abbrev pub StoreResult : Type 0 → Type 0
StoreResult A = Result StoreError A

abbrev pub no_rows : LocalMessageStore
no_rows = record { messages = []; pending_self_destruct = [] }

abbrev pub duplicate_key : StoreError
duplicate_key = sqlite "UNIQUE constraint failed"

abbrev pub is_some {ℓ} : {A : Type ℓ} → Option A → Bool
is_some none = false
is_some (some a) = true

abbrev pub is_self_destructing : MessageEnvelope → Bool
is_self_destructing e = is_some e.self_destruct_at || e.read_triggered_destruct

pub store_message :
    String
    → String
    → MessageDirection
    → MessageEnvelope
    → LocalMessageStore
    → StoreResult String × LocalMessageStore
unfolding insert
store_message id peer_address direction envelope s =
    if is_self_destructing envelope
    then (err refuses_self_destructing_message, s)
    else if contains_key id s.messages
    then (err duplicate_key, s)
    else (
      ok id,
      record s {
        messages =
            insert id
              (record {
                peer_address = peer_address;
                direction = as_str direction;
                envelope_json = envelope;
                stored_at_ms = envelope.timestamp_ms;
              })
              s.messages;
      },
    )

pub read_row : String × MessageRow → StoreResult StoredMessage
read_row (id, row) = do
  direction ← ok_or (from_str row.direction) (codec "corrupt direction column")
  ok (record {
    id = id;
    peer_address = row.peer_address;
    direction = direction;
    envelope = row.envelope_json;
    stored_at_ms = row.stored_at_ms;
  })

pub read_rows : List (String × MessageRow) → StoreResult (List StoredMessage)
read_rows [] = ok []
read_rows (row ∷ rows) = do message ← read_row row; rest ← read_rows rows; ok (message ∷ rest)

abbrev pub is_with : String → String × MessageRow → Bool
is_with peer_address (id, row) = row.peer_address == peer_address

abbrev pub stored_order : String × MessageRow → ℕ
stored_order (id, row) = signed_order row.stored_at_ms

pub history_for : String → LocalMessageStore → StoreResult (List StoredMessage)
history_for peer_address s =
    read_rows (sort_by stored_order (keep_if (is_with peer_address) s.messages))

pub delete_history_for : String → LocalMessageStore → ℕ × LocalMessageStore
delete_history_for peer_address s = (
  length (keep_if (is_with peer_address) s.messages),
  record s { messages = keep_if (λ r. not (is_with peer_address r)) s.messages },
)

unfoldable pub total_message_count : LocalMessageStore → ℕ
total_message_count s = length s.messages

pub stage_self_destructing :
    String
    → String
    → PersistedSelfDestructState
    → ℕ
    → LocalMessageStore
    → StoreResult String × LocalMessageStore
stage_self_destructing id peer_address state staged_at_ms s =
    if contains_key id s.pending_self_destruct then (err duplicate_key, s) else (
      ok id,
      record s {
        pending_self_destruct =
            insert id
              (record {
                peer_address = peer_address;
                ciphertext = state.ciphertext;
                key_bytes = state.key_bytes;
                mode = mode_to_str state.mode;
                expires_at_ms = state.expires_at_ms;
                staged_at_ms = staged_at_ms;
              })
              s.pending_self_destruct;
      },
    )

-- the parsing of a row that the transaction has already deleted
pub read_pending : PendingRow → StoreResult PersistedSelfDestructState
read_pending row = do
  mode ← ok_or (mode_from_str row.mode) (codec "corrupt mode column")
  ensure (nat_beq (length row.key_bytes) 32) (codec "corrupt key_bytes column")
  ok (record {
    ciphertext = row.ciphertext;
    key_bytes = row.key_bytes;
    mode = mode;
    expires_at_ms = row.expires_at_ms;
  })

pub take_self_destructing :
    String → LocalMessageStore → StoreResult (Option PersistedSelfDestructState) × LocalMessageStore
take_self_destructing id s = elim (lookup id s.pending_self_destruct) [
  | none ↦ (ok none, s)
  | some row ↦ (
    (do state ← read_pending row; ok (some state)),
    record s { pending_self_destruct = remove id s.pending_self_destruct },
  )
]

-- `expires_at_ms IS NOT NULL AND expires_at_ms <= ?1`, both as signed integers
abbrev pub has_expired : ℕ → String × PendingRow → Bool
has_expired now_ms (id, row) = elim row.expires_at_ms [
  | none ↦ false
  | some ms ↦ leb (signed_order ms) (signed_order now_ms)
]

pub purge_expired_self_destructing : ℕ → LocalMessageStore → ℕ × LocalMessageStore
purge_expired_self_destructing now_ms s = (
  length (keep_if (has_expired now_ms) s.pending_self_destruct),
  record s {
    pending_self_destruct = keep_if (λ r. not (has_expired now_ms r)) s.pending_self_destruct;
  },
)

abbrev pub is_pending_with : String → String × PendingRow → Bool
is_pending_with peer_address (id, row) = row.peer_address == peer_address

abbrev pub staged_order : String × PendingRow → ℕ
staged_order (id, row) = signed_order row.staged_at_ms

abbrev pub row_id : String × PendingRow → String
row_id (id, row) = id

unfoldable pub pending_self_destruct_ids : String → LocalMessageStore → List String
pending_self_destruct_ids peer_address s =
    map row_id
      (sort_by staged_order (keep_if (is_pending_with peer_address) s.pending_self_destruct))

unfoldable pub pending_self_destruct_count : LocalMessageStore → ℕ
pending_self_destruct_count s = length s.pending_self_destruct
