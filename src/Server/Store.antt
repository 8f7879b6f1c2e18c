-- ===== src/Server/Store.antt =====
-- server/src/store.rs: the relay's tables. A statement is a function of the tables; a value that
-- is stored as JSON is stored as itself; a statement that fails is a panic, `none`. The clock is
-- an argument.
pub mod Mailbox
pub mod Pulls
pub mod Certificates
use parda.Base.{
  ℕ, ◌+◌, ◌-◌, ◌*◌, ◌%◌, ◌^◌, ◌≡◌, min, Bool, true, false, ◌&&◌, Option, none, some, List, [], ◌∷◌,
  ◌++◌, map, String, ltb, not, if◌then◌else◌, ◌==◌, string_key, keep_if, length,
}
use parda.HashMap.{HashMap, lookup, insert, remove}
use parda.Sorting.{sort_by}
use parda.Protocol.Envelope.{MessageEnvelope, signed_order}

abbrev pub max_sender_cert_ttl_secs : ℕ
max_sender_cert_ttl_secs = 7 * 24 * 60 * 60

abbrev pub pull_stage_ttl_ms : ℕ
pull_stage_ttl_ms = 5 * 60 * 1000

pub record PreKeyBundleJson : Type 0 where
  pub registration_id : ℕ
  pub device_id : ℕ
  pub identity_key : String
  pub signed_prekey_id : ℕ
  pub signed_prekey_public : String
  pub signed_prekey_signature : String
  pub one_time_prekey_id : Option ℕ
  pub one_time_prekey_public : Option String

pub record StoredEnvelope : Type 0 where
  pub id : String
  pub envelope : MessageEnvelope

-- a row of `messages`; its `created_at_ms` is the envelope's timestamp
pub record MessageRow : Type 0 where
  pub recipient_id : String
  pub stored : StoredEnvelope

-- a row of `pull_stages`
pub record Stage : Type 0 where
  pub messages : List StoredEnvelope
  pub staged_at_ms : ℕ

pub record RelayStore : Type 0 where
  pub prekey_bundles : HashMap String PreKeyBundleJson
  pub messages : List MessageRow
  pub pull_stages : HashMap String Stage

abbrev pub empty : RelayStore
empty = record { prekey_bundles = []; messages = []; pull_stages = [] }

abbrev pub created_order : MessageRow → ℕ
created_order r = signed_order r.stored.envelope.timestamp_ms

abbrev pub is_for : String → MessageRow → Bool
is_for user_id r = r.recipient_id == user_id

abbrev pub has_id : String → MessageRow → Bool
has_id id r = r.stored.id == id

abbrev pub envelopes_of : List MessageRow → List StoredEnvelope
envelopes_of = map (λ r. r.stored)

-- `Duration::from_secs(ttl_secs).min(MAX_SENDER_CERT_TTL)`
unfoldable pub sender_cert_ttl : ℕ → ℕ
sender_cert_ttl ttl_secs = min ttl_secs max_sender_cert_ttl_secs

unfoldable pub put_bundle : String → PreKeyBundleJson → RelayStore → RelayStore
put_bundle user_id bundle s = record s { prekey_bundles = insert user_id bundle s.prekey_bundles }

unfoldable pub get_bundle : String → RelayStore → Option PreKeyBundleJson
get_bundle user_id s = lookup user_id s.prekey_bundles

-- a second row under one id violates the primary key
unfoldable pub enqueue : String → StoredEnvelope → RelayStore → Option RelayStore
enqueue recipient_id envelope s = elim (keep_if (has_id envelope.id) s.messages) [
  | [] ↦ some (record s {
    messages = s.messages ++ (record { recipient_id = recipient_id; stored = envelope }) ∷ [];
  })
  | row ∷ rows ↦ none
]

-- the rows of `SELECT … WHERE recipient_id = ? ORDER BY created_at_ms ASC`
unfoldable pub queue_of : String → RelayStore → List MessageRow
unfolding sort_by
queue_of user_id s = sort_by created_order (keep_if (is_for user_id) s.messages)

unfoldable pub drain : String → RelayStore → List StoredEnvelope × RelayStore
unfolding queue_of
drain user_id s = (
  envelopes_of (queue_of user_id s),
  record s { messages = keep_if (λ r. not (is_for user_id r)) s.messages },
)

-- `staged_at_ms < now_ms.saturating_sub(PULL_STAGE_TTL_MS)`, both as signed integers
abbrev pub is_stale : ℕ → String × Stage → Bool
is_stale now_ms (token, stage) =
    ltb (signed_order stage.staged_at_ms) (signed_order (now_ms - pull_stage_ttl_ms))

pub stage_pull : String → String → ℕ → RelayStore → RelayStore
unfolding drain insert
stage_pull recipient_id rendezvous_token now_ms s =
    let (envelopes, s') = drain recipient_id s in
    record s' {
      pull_stages =
          insert rendezvous_token (record { messages = envelopes; staged_at_ms = now_ms })
            (keep_if (λ e. not (is_stale now_ms e)) s'.pull_stages);
    }

pub fetch_pull : String → RelayStore → Option (List StoredEnvelope) × RelayStore
unfolding remove
fetch_pull rendezvous_token s = (
  elim (lookup rendezvous_token s.pull_stages) [ none ↦ none | some stage ↦ some stage.messages ],
  record s { pull_stages = remove rendezvous_token s.pull_stages },
)

abbrev pub is_message : String → String → MessageRow → Bool
is_message user_id message_id r = has_id message_id r && is_for user_id r

-- the number of affected rows decides the result
pub delete_message : String → String → RelayStore → Bool × RelayStore
delete_message user_id message_id s = (
  ltb 0 (length (keep_if (is_message user_id message_id) s.messages)),
  record s { messages = keep_if (λ r. not (is_message user_id message_id r)) s.messages },
)
