-- ===== src/ClientStore/History.antt =====
-- The history: whatever is called, it never holds a self-destructing envelope.
use parda.Base.{
  ℕ, ◌≤◌, ◌≡◌, refl, Bool, true, false, ◌||◌, some, List, [], ◌∷◌, arith, String, not, All, ◌==◌,
  string_key, eq_iff, keep_if, Bool-cases, inl, inr,
}
use parda.HashMap.{contains_key, insert-All}
use parda.Result.{ok, err, is_ok}
use parda.Sorting.{sort_by, Ascending, sort_by-Ascending, All-sort_by}
use parda.Protocol.Envelope.{MessageEnvelope, signed_order}
use parda.Protocol.SelfDestruct.{PersistedSelfDestructState}
use parda.ClientStore.{
  LocalMessageStore, MessageRow, StoredMessage, MessageDirection, sent, received, as_str, from_str,
  no_rows, is_self_destructing, refuses_self_destructing_message, store_message, read_row,
  read_rows, is_with, stored_order, history_for, delete_history_for, stage_self_destructing,
  take_self_destructing, purge_expired_self_destructing,
}

-- A call of the store, its row id included where it makes one.
pub data Call : Type 0 where
  stores : String → String → MessageDirection → MessageEnvelope → Call
  deletes_history : String → Call
  stages : String → String → PersistedSelfDestructState → ℕ → Call
  takes : String → Call
  purges : ℕ → Call

unfoldable pub step : Call → LocalMessageStore → LocalMessageStore
step (stores id peer direction envelope) s = (store_message id peer direction envelope s).1
step (deletes_history peer) s = (delete_history_for peer s).1
step (stages id peer state staged_at_ms) s = (stage_self_destructing id peer state staged_at_ms s).1
step (takes id) s = (take_self_destructing id s).1
step (purges now_ms) s = (purge_expired_self_destructing now_ms s).1

unfoldable pub run : List Call → LocalMessageStore → LocalMessageStore
unfolding step
run [] s = s
run (call ∷ calls) s = run calls (step call s)

-- A row of the history that can be read back and is not self-destructing.
abbrev pub IsDurable : String × MessageRow → Type 0
IsDurable (id, row) =
    (is_self_destructing row.envelope_json ≡ false)
    × ((direction : MessageDirection) × (from_str row.direction ≡ some direction))

from_str-as_str : (direction : MessageDirection) → from_str (as_str direction) ≡ some direction
unfolding from_str as_str
from_str-as_str sent = refl
from_str-as_str received = refl

All-keep_if {ℓ κ} :
    {A : Type ℓ} (P : A → Type κ) (test : A → Bool) (xs : List A)
    → All P xs
    → All P (keep_if test xs)
All-keep_if P test [] all = tt
All-keep_if P test (x ∷ xs) all = ground (arith, All-keep_if P test xs all.1)

store_message-All :
    (id peer : String) (direction : MessageDirection) (envelope : MessageEnvelope)
    (s : LocalMessageStore)
    → All IsDurable s.messages
    → All IsDurable (store_message id peer direction envelope s).1.messages
unfolding store_message
store_message-All id peer direction envelope s all =
    let row : MessageRow = record {
      peer_address = peer;
      direction = as_str direction;
      envelope_json = envelope;
      stored_at_ms = envelope.timestamp_ms;
    } in
    elim (Bool-cases (is_self_destructing envelope)) [
      | inl destructs ↦ rw (store_message, destructs) all
      | inr durable ↦ elim (Bool-cases (contains_key id s.messages)) [
        | inl used ↦ rw (store_message, durable, used) all
        | inr fresh ↦
            rw (store_message, durable, fresh)
              (insert-All IsDurable id row s.messages
                (durable, (direction, from_str-as_str direction)) all)
      ]
    ]

step-All :
    (call : Call) (s : LocalMessageStore)
    → All IsDurable s.messages
    → All IsDurable (step call s).messages
unfolding step delete_history_for stage_self_destructing take_self_destructing
    purge_expired_self_destructing
step-All (stores id peer direction envelope) s all =
    store_message-All id peer direction envelope s all
step-All (deletes_history peer) s all =
    All-keep_if IsDurable (λ r. not (is_with peer r)) s.messages all
step-All (stages id peer state staged_at_ms) s all = ground arith
step-All (takes id) s all = ground arith
step-All (purges now_ms) s all = all

run-All :
    (calls : List Call) (s : LocalMessageStore)
    → All IsDurable s.messages
    → All IsDurable (run calls s).messages
unfolding run
run-All [] s all = all
run-All (call ∷ calls) s all = run-All calls (step call s) (step-All call s all)

-- The key that orders the history.
abbrev pub message_order : StoredMessage → ℕ
message_order m = signed_order m.stored_at_ms

-- A message that may be kept, of the conversation with `peer`.
abbrev pub IsKept : String → StoredMessage → Type 0
IsKept peer m = (is_self_destructing m.envelope ≡ false) × (m.peer_address ≡ peer)

abbrev IsRowOf : String → String × MessageRow → Type 0
IsRowOf peer (id, row) = IsDurable (id, row) × (row.peer_address ≡ peer)

All-IsRowOf :
    (peer : String) (rows : List (String × MessageRow))
    → All IsDurable rows
    → All (IsRowOf peer) (keep_if (is_with peer) rows)
All-IsRowOf peer [] all = tt
All-IsRowOf peer ((id, row) ∷ rows) all = elim (Bool-cases (row.peer_address == peer)) [
  | inl same ↦ rw same ((all.0, (eq_iff row.peer_address peer).0 same), All-IsRowOf peer rows all.1)
  | inr other ↦ rw other (All-IsRowOf peer rows all.1)
]

-- What reading the rows gives, its lower bounds included.
record Reading (peer : String) (rows : List (String × MessageRow)) : Type 1 where
  messages : List StoredMessage
  is_read : read_rows rows ≡ ok messages
  kept : All (IsKept peer) messages
  ascending : Ascending message_order messages
  above : (n : ℕ) → All (λ r. n ≤ stored_order r) rows → All (λ m. n ≤ message_order m) messages

read_rows-Reading :
    (peer : String) (rows : List (String × MessageRow))
    → All (IsRowOf peer) rows
    → Ascending stored_order rows
    → Reading peer rows
unfolding read_rows read_row
read_rows-Reading peer [] all sorted = record {
  messages = [];
  is_read = refl;
  kept = tt;
  ascending = tt;
  above = λ n h. tt;
}
read_rows-Reading peer ((id, row) ∷ rows) all sorted =
    let rest = read_rows-Reading peer rows all.1 sorted.1 in
    let ((durable, (direction, parsed)), same) = all.0 in
    let message : StoredMessage = record {
      id = id;
      peer_address = row.peer_address;
      direction = direction;
      envelope = row.envelope_json;
      stored_at_ms = row.stored_at_ms;
    } in
    record {
      messages = message ∷ rest.messages;
      is_read = rw (parsed, rest.is_read) refl;
      kept = ((durable, same), rest.kept);
      ascending = (rest.above (stored_order (id, row)) sorted.0, rest.ascending);
      above = λ n h. (h.0, rest.above n h.1);
    }

-- Whatever calls are made on a new store, reading the history of a peer succeeds and gives, by
-- ascending time as a signed integer, only messages of that peer that are not self-destructing.
pub history_for-run :
    (calls : List Call) (peer : String)
    → (messages : List StoredMessage) × (history_for peer (run calls no_rows) ≡ ok messages)
      × All (IsKept peer) messages
      × Ascending message_order messages
unfolding history_for
history_for-run calls peer =
    let rows = keep_if (is_with peer) (run calls no_rows).messages in
    let reading =
      read_rows-Reading peer (sort_by stored_order rows)
        (All-sort_by stored_order (IsRowOf peer) rows
          (All-IsRowOf peer (run calls no_rows).messages (run-All calls no_rows tt)))
        (sort_by-Ascending stored_order rows) in
    (reading.messages, reading.is_read, reading.kept, reading.ascending)

-- Storing succeeds exactly for an envelope that is not self-destructing, under a fresh row id; a
-- refusal of a self-destructing envelope is reported as such, and no failure changes anything.
pub store_message_iff :
    (id peer : String) (direction : MessageDirection) (envelope : MessageEnvelope)
    (s : LocalMessageStore)
    → let (outcome, s') = store_message id peer direction envelope s in
      (is_ok outcome ≡ not (is_self_destructing envelope || contains_key id s.messages))
      × (is_self_destructing envelope ≡ true → outcome ≡ err refuses_self_destructing_message)
      × (is_ok outcome ≡ false → s' ≡ s)
      × (s'.pending_self_destruct ≡ s.pending_self_destruct)
unfolding store_message
store_message_iff id peer direction envelope s = ground arith
