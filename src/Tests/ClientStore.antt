-- ===== src/Tests/ClientStore.antt =====
-- The client store's theorems on a small history and holding area.
use parda.Base.{
  ◌≡◌, refl, ◌≢◌, true, false, none, some, List, [], ◌∷◌, String, replicate, All, string_key,
}
use parda.HashMap.{lookup, contains_key}
use parda.Result.{ok, err}
use parda.Sorting.{sort_by, Ascending}
use parda.Protocol.SelfDestruct.{PersistedSelfDestructState, combined}
use parda.ClientStore.{
  pending_self_destruct_ids, pending_self_destruct_count, total_message_count, LocalMessageStore,
  PendingRow, StoredMessage, sent, received, no_rows, duplicate_key, history_for,
  stage_self_destructing, take_self_destructing,
}
use parda.ClientStore.History.{
  Call, stores, stages, takes, purges, run, IsKept, message_order, history_for-run,
}
use parda.ClientStore.Holding.{take_self_destructing-stage}
use parda.Protocol.Envelope.{MessageEnvelope}
use parda.Tests.{test_envelope}

-- an envelope that may be kept
abbrev lasting : MessageEnvelope
lasting = record test_envelope { self_destruct_at = none }

abbrev state : PersistedSelfDestructState
state = record {
  ciphertext = 1 ∷ 2 ∷ [];
  key_bytes = replicate 32 3;
  mode = combined;
  expires_at_ms = some 5000;
}

abbrev calls : List Call
calls =
    stores "r1" "bob" sent lasting
    ∷ stores "r2" "bob" received test_envelope
    ∷ stages "p1" "bob" state 900
    ∷ takes "p1"
    ∷ purges 6000
    ∷ []

history_for-run_example :
    (messages : List StoredMessage) × (history_for "bob" (run calls no_rows) ≡ ok messages)
    × All (IsKept "bob") messages
    × Ascending message_order messages
history_for-run_example = history_for-run calls "bob"

abbrev first_id : String
first_id = "p1"

abbrev other_id : String
other_id = "p2"

take_self_destructing-stage_example :
    let (outcome, staged) = stage_self_destructing first_id "bob" state 900 no_rows in
    let (taken, s') = take_self_destructing first_id staged in
    (contains_key first_id no_rows.pending_self_destruct ≡ true
      → (outcome ≡ err duplicate_key) × (staged ≡ no_rows))
    × (contains_key first_id no_rows.pending_self_destruct ≡ false
        → (outcome ≡ ok first_id)
          × (taken ≡ ok (some state))
          × ((take_self_destructing first_id s').0 ≡ ok none)
          × (first_id ≢ other_id
              → lookup other_id s'.pending_self_destruct
                ≡ lookup other_id no_rows.pending_self_destruct))
take_self_destructing-stage_example =
    take_self_destructing-stage first_id other_id "bob" state 900 no_rows refl

abbrev row : PendingRow
row = record {
  peer_address = "bob";
  ciphertext = 1 ∷ 2 ∷ [];
  key_bytes = replicate 32 3;
  mode = "combined";
  expires_at_ms = some 5000;
  staged_at_ms = 900;
}

abbrev one_staged : LocalMessageStore
one_staged = record { messages = []; pending_self_destruct = (first_id, row) ∷ [] }

holding_listed :
    (pending_self_destruct_ids "bob" one_staged ≡ "p1" ∷ [])
    × (pending_self_destruct_count one_staged ≡ 1)
    × (total_message_count one_staged ≡ 0)
unfolding pending_self_destruct_ids pending_self_destruct_count total_message_count sort_by
holding_listed = (refl, refl, refl)
