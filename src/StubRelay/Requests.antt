-- ===== src/StubRelay/Requests.antt =====
-- The stub's requests to it and to the relay (server/src/routes.rs), and what it means that their
-- answers and their tables are the same.
use parda.Base.{◌≡◌, Option, none, some, List, map, String, string_key, keep_if}
use parda.HashMap.{lookup}
use parda.Sorting.{sort_by}
use parda.Protocol.Envelope.{MessageEnvelope, signed_order}
use parda.Server.Store.{RelayStore, PreKeyBundleJson, is_for}
use parda.Server.Routes.{
  StatusCode, Response, Body, upload_prekey_bundle, get_prekey_bundle, api_ok,
}
use parda.Server.Routes
use parda.StubRelay.{
  StubState, StubBody, StubResponse, ok_true, or_default, upload_bundle, get_bundle, submit_message,
  fetch_messages,
}

pub data Request : Type 0 where
  uploads : (user_id : String) (body : PreKeyBundleJson) → Request
  downloads : (user_id : String) → Request
  submits : (uuid : String) (recipient_id : String) (envelope : MessageEnvelope) → Request
  fetches : (user_id : String) → Request

-- the stub takes any recipient, the relay the envelope's only
abbrev pub Addressed : Request → Type 0
Addressed (submits uuid recipient_id envelope) = envelope.recipient_id ≡ recipient_id
Addressed _ = Unit

unfoldable pub stub_step : Request → StubState → StubResponse × StubState
unfolding upload_bundle get_bundle submit_message fetch_messages
stub_step (uploads user_id body) s = upload_bundle user_id body s
stub_step (downloads user_id) s = (get_bundle user_id s, s)
stub_step (submits uuid recipient_id envelope) s = submit_message recipient_id envelope s
stub_step (fetches user_id) s = fetch_messages user_id s

-- `none` is a panic
unfoldable pub relay_step : Request → RelayStore → Option (Response × RelayStore)
unfolding upload_prekey_bundle get_prekey_bundle Routes.submit_message Routes.fetch_messages
relay_step (uploads user_id body) r = some (upload_prekey_bundle user_id body r)
relay_step (downloads user_id) r = some (get_prekey_bundle user_id r, r)
relay_step (submits uuid recipient_id envelope) r =
    Routes.submit_message uuid recipient_id envelope r
relay_step (fetches user_id) r = some (Routes.fetch_messages user_id r)

-- in the order of the timestamps, as signed integers
abbrev pub in_order : List MessageEnvelope → List MessageEnvelope
in_order = sort_by (λ e. signed_order e.timestamp_ms)

-- Ids and the texts of a confirmation or an error may differ.
abbrev pub SameBody : StubBody → Body → Type 0
SameBody ok_true (api_ok m) = Unit
SameBody (StubBody.error e) (Body.error e') = Unit
SameBody (StubBody.message_id i) (Body.message_id i') = Unit
SameBody (StubBody.bundle b) (Body.bundle b') = b ≡ b'
SameBody (StubBody.messages es) (Body.messages stored) = map (λ x. x.envelope) stored ≡ in_order es
SameBody _ _ = ⊥

abbrev pub Same : StubResponse → Response → Type 0
Same (code, b) (code', b') = (code ≡ code') × SameBody b b'

abbrev pub envelopes_for : String → RelayStore → List MessageEnvelope
envelopes_for user_id r = map (λ row. row.stored.envelope) (keep_if (is_for user_id) r.messages)

-- the stub's tables are the relay's, each queue in the order of submission
pub record Simulates (s : StubState) (r : RelayStore) : Type 0 where
  pub same_bundles : (u : String) → lookup u s.bundles ≡ lookup u r.prekey_bundles
  pub same_queues : (u : String) → or_default (lookup u s.messages) ≡ envelopes_for u r

-- an answer of the stub and its tables, after the relay's
abbrev pub Follows : StubResponse × StubState → Option (Response × RelayStore) → Type 0
Follows (b, s) none = Unit
Follows (b, s) (some (answer, r)) = Same b answer × Simulates s r
