-- ===== src/StubRelay.antt =====
-- cli/src/stub_relay.rs: the in-memory relay of the demonstration. A JSON value is the bundle or the
-- envelope that it reads as.
pub mod Requests
pub mod Steps
pub mod Refines
use parda.Base.{Option, none, some, List, [], ◌∷◌, ◌++◌, String, string_key}
use parda.HashMap.{HashMap, lookup, insert, remove}
use parda.Protocol.Envelope.{MessageEnvelope}
use parda.Server.Store.{PreKeyBundleJson}
use parda.Server.Routes.{StatusCode, success, created, not_found}

pub record StubState : Type 0 where
  pub bundles : HashMap String PreKeyBundleJson
  pub messages : HashMap String (List MessageEnvelope)

-- the JSON bodies
pub data StubBody : Type 0 where
  ok_true : StubBody
  error : String → StubBody
  message_id : String → StubBody
  messages : List MessageEnvelope → StubBody
  bundle : PreKeyBundleJson → StubBody

abbrev pub StubResponse : Type 0
StubResponse = StatusCode × StubBody

-- `unwrap_or_default` and `or_default`
abbrev pub or_default : Option (List MessageEnvelope) → List MessageEnvelope
or_default none = []
or_default (some es) = es

pub upload_bundle : String → PreKeyBundleJson → StubState → StubResponse × StubState
upload_bundle user_id body s =
    ((success, ok_true), record s { bundles = insert user_id body s.bundles })

pub get_bundle : String → StubState → StubResponse
get_bundle user_id s = elim (lookup user_id s.bundles) [
  | some b ↦ (success, bundle b)
  | none ↦ (not_found, error "no bundle")
]

pub submit_message : String → MessageEnvelope → StubState → StubResponse × StubState
submit_message recipient_id envelope s =
    let queue = or_default (lookup recipient_id s.messages) in
    (
      (created, message_id "demo"),
      record s { messages = insert recipient_id (queue ++ envelope ∷ []) s.messages },
    )

pub fetch_messages : String → StubState → StubResponse × StubState
fetch_messages user_id s =
    let drained = or_default (lookup user_id s.messages) in
    ((success, messages drained), record s { messages = remove user_id s.messages })
