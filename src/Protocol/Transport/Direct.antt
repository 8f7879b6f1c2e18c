-- ===== src/Protocol/Transport/Direct.antt =====
-- The direct transport over the relay's own handlers: what is sent is fetched, once. A path's
-- segment is taken as it is, so that an id holds no character that a URL reserves.
use mathlib.Core.List.{Perm, perm_append_singleton}
use mathlib.Core.List.Perm
use parda.Base.{
  ℕ, ◌≡◌, refl, ◌∙◌, ◌&&◌, Option, none, some, List, [], ◌∷◌, ◌++◌, map, String, Bytes, string_key,
  ◌==◌, if◌then◌else◌, keep_if, beq_refl,
}
use parda.Result.{ok}
use parda.Protocol.Envelope.{MessageEnvelope}
use parda.Protocol.Transport.{
  Http, Url, relay, Reply, Json, checked, direct_send, direct_receive, fetch, fetched,
}
use parda.Server.Store.{
  RelayStore, MessageRow, StoredEnvelope, queue_of, envelopes_of, is_for, enqueue, drain,
}
use parda.Server.Store.Mailbox.{rows_with_id, drain_lem, keep_if-append}
use parda.Server.Routes.{
  StatusCode, success, created, accepted, bad_request, not_found, internal_server_error, Body,
  Response, messages, submit_message, fetch_messages, fetch_pull_route,
}

-- serde_json on the relay's side
pub record RelayJson (B : Type 0) : Type 0 where
  pub envelope_of : Bytes → Option MessageEnvelope
  pub body_json : Body → B

abbrev pub code_of : StatusCode → ℕ
code_of success = 200
code_of created = 201
code_of accepted = 202
code_of bad_request = 400
code_of not_found = 404
code_of internal_server_error = 500

abbrev not_routed : {B : Type 0} → Option (Reply B)
not_routed = some (record { status = 404; body = none })

module _ {B : Type 0} (json : RelayJson B) where
  abbrev pub reply_of : Response → Option (Reply B)
  reply_of (status, body) =
      some (record { status = code_of status; body = some (json.body_json body) })

  -- A handler that panics gives no reply; a body that is no envelope is answered 422.
  abbrev pub post_message : String → String → Bytes → RelayStore → Option (Reply B) × RelayStore
  post_message uuid user_id body s = elim (json.envelope_of body) [
    | none ↦ (some (record { status = 422; body = none }), s)
    | some envelope ↦ elim (submit_message uuid user_id envelope s) [
      | none ↦ (none, s)
      | some (response, s') ↦ (reply_of response, s')
    ]
  ]

  abbrev pub relay_post :
      (RelayStore → String) → Url → Bytes → RelayStore → Option (Reply B) × RelayStore
  relay_post uuid (relay (version ∷ resource ∷ id ∷ [])) body s =
      if version == "v1" && resource == "messages"
      then post_message (uuid s) id body s
      else (not_routed, s)
  relay_post uuid url body s = (not_routed, s)

  abbrev pub relay_get : Url → RelayStore → Option (Reply B) × RelayStore
  relay_get (relay (version ∷ resource ∷ id ∷ [])) s =
      if version == "v1" && resource == "messages"
      then (let (response, s') = fetch_messages id s in (reply_of response, s'))
      else if version == "v1" && resource == "pulls"
      then (let (response, s') = fetch_pull_route id s in (reply_of response, s'))
      else (not_routed, s)
  relay_get url s = (not_routed, s)

  -- The relay behind an HTTP client, with a source of message ids.
  abbrev pub relay_http : (RelayStore → String) → Http RelayStore B
  relay_http uuid = record { post = relay_post uuid; get = relay_get }

-- The envelopes that wait for a user.
abbrev pub pending : String → RelayStore → List MessageEnvelope
pending user s = map (λ stored. stored.envelope) (envelopes_of (queue_of user s))

queue_of-append :
    (row : MessageRow) (s : RelayStore)
    → let s' : RelayStore = record s { messages = s.messages ++ row ∷ [] } in
      Perm (queue_of row.recipient_id s') (row ∷ queue_of row.recipient_id s)
queue_of-append row s =
    let user = row.recipient_id in
    let s' : RelayStore = record s { messages = s.messages ++ row ∷ [] } in
    let (_, after, _, _, _) = drain_lem user user s' in
    let (_, before, _, _, _) = drain_lem user user s in
    let grows : keep_if (is_for user) (s.messages ++ row ∷ [])
        ≡ keep_if (is_for user) s.messages ++ row ∷ [] =
      keep_if-append (is_for user) s.messages (row ∷ []) ∙ rw (beq_refl user) refl in
    Perm.trans after (
      rw (grows) (
        Perm.trans (perm_append_singleton row (keep_if (is_for user) s.messages))
          (Perm.cons row (Perm.symm before))))

submit_message-Perm :
    (uuid : String) (envelope : MessageEnvelope) (s : RelayStore)
    → rows_with_id uuid s ≡ []
    → (s' : RelayStore) × (submit_message uuid envelope.recipient_id envelope s
        ≡ some ((created, Body.message_id uuid), s'))
      × Perm (pending envelope.recipient_id s') (envelope ∷ pending envelope.recipient_id s)
unfolding submit_message enqueue
submit_message-Perm uuid envelope s fresh =
    let user = envelope.recipient_id in
    let row : MessageRow = record {
      recipient_id = user;
      stored = record { id = uuid; envelope = envelope };
    } in
    (
      record s { messages = s.messages ++ row ∷ [] },
      rw (beq_refl user, fresh) refl,
      Perm.map (λ (r : StoredEnvelope). r.envelope)
          (Perm.map (λ (r : MessageRow). r.stored) (queue_of-append row s)),
    )

module _ {B : Type 0} (json : Json B) (relay_json : RelayJson B) (uuid : RelayStore → String) where
  direct_send-stored :
      (envelope : MessageEnvelope) (body : Bytes) (s s' : RelayStore) (id : String)
      → json.envelope_json envelope ≡ some body
      → relay_json.envelope_of body ≡ some envelope
      → submit_message (uuid s) envelope.recipient_id envelope s
        ≡ some ((created, Body.message_id id), s')
      → direct_send json (relay_http relay_json uuid) envelope s ≡ (ok tt, s')
  unfolding direct_send checked
  direct_send-stored envelope body s s' id printed read stored =
      let posted : post_message relay_json (uuid s) envelope.recipient_id body s
          ≡ (reply_of relay_json (created, Body.message_id id), s') =
        rw (post_message, read, stored) refl in
      rw (direct_send, printed, posted) refl

  direct_receive-drained :
      (user : String) (s : RelayStore)
      → ((stored : List StoredEnvelope)
          → json.messages_of (relay_json.body_json (messages stored))
            ≡ some (map (λ r. r.envelope) stored))
      → direct_receive json (relay_http relay_json uuid) user s
        ≡ (ok (pending user s), (drain user s).1)
  unfolding direct_receive checked fetch fetched fetch_messages drain
  direct_receive-drained user s reads = rw (reads (envelopes_of (queue_of user s))) refl

  -- Where the relay reads an envelope's JSON as the envelope and the client reads the relay's answer
  -- as the messages in it, and the relay's next message id is fresh: sending succeeds, a receiving
  -- then returns the envelope and what waited for its recipient before, in some order, and a
  -- second receiving returns nothing.
  pub direct_receive-direct_send :
      (envelope : MessageEnvelope) (body : Bytes) (s : RelayStore)
      → json.envelope_json envelope ≡ some body
      → relay_json.envelope_of body ≡ some envelope
      → ((stored : List StoredEnvelope)
          → json.messages_of (relay_json.body_json (messages stored))
            ≡ some (map (λ r. r.envelope) stored))
      → rows_with_id (uuid s) s ≡ []
      → let http = relay_http relay_json uuid in
        let user = envelope.recipient_id in
        let (sent, s₁) = direct_send json http envelope s in
        let (received, s₂) = direct_receive json http user s₁ in
        (sent ≡ ok tt)
        × ((envelopes : List MessageEnvelope) × (received ≡ ok envelopes)
            × Perm envelopes (envelope ∷ pending user s))
        × ((direct_receive json http user s₂).0 ≡ ok [])
  direct_receive-direct_send envelope body s printed read reads fresh =
      let user = envelope.recipient_id in
      let (s', stored, rearranged) = submit_message-Perm (uuid s) envelope s fresh in
      let sent = direct_send-stored envelope body s s' (uuid s) printed read stored in
      let got = direct_receive-drained user s' reads in
      let (_, _, _, emptied, _) = drain_lem user user s' in
      rw (sent, got, direct_receive-drained user (drain user s').1 reads, emptied)
        (refl, (pending user s', refl, rearranged), refl)
