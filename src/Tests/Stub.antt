-- ===== src/Tests/Stub.antt =====
-- A demonstration's requests to the stub and to the relay.
use parda.Base.{◌≡◌, refl, some, none, List, [], ◌∷◌}
use parda.Protocol.Envelope.{MessageEnvelope}
use parda.HashMap.{insert}
use parda.Sorting.{sort_by}
use parda.Server.Store.{
  RelayStore, PreKeyBundleJson, StoredEnvelope, empty, put_bundle, enqueue, drain, queue_of,
}
use parda.Server.Routes.{
  Response, success, created, not_found, api_ok, error, message_id, messages, upload_prekey_bundle,
  get_prekey_bundle, submit_message, fetch_messages,
}
use parda.Server.Store
use parda.StubRelay.{StubState}
use parda.StubRelay.Requests.{Request, uploads, downloads, submits, fetches, Simulates, relay_step}
use parda.StubRelay.Refines.{stub_run, relay_run, SameAll, stub_run-relay_run}
use parda.Tests.{test_envelope}

abbrev bundle : PreKeyBundleJson
bundle = record {
  registration_id = 7;
  device_id = 1;
  identity_key = "AQ==";
  signed_prekey_id = 1;
  signed_prekey_public = "Ag==";
  signed_prekey_signature = "Aw==";
  one_time_prekey_id = none;
  one_time_prekey_public = none;
}

-- two messages, the later one first
abbrev late : MessageEnvelope
late = record test_envelope { recipient_id = "bob"; timestamp_ms = 2000 }

abbrev early : MessageEnvelope
early = record test_envelope { recipient_id = "bob"; timestamp_ms = 1000 }

abbrev requests : List Request
requests =
    uploads "bob" bundle
    ∷ submits "m1" "bob" late
    ∷ submits "m2" "bob" early
    ∷ downloads "carol"
    ∷ fetches "bob"
    ∷ []

abbrev answers : List Response
answers =
    (success, api_ok (some "bundle stored"))
    ∷ (created, message_id "m1")
    ∷ (created, message_id "m2")
    ∷ (not_found, error "no prekey bundle found for user")
    ∷ (
      success,
      messages
          (record { id = "m2"; envelope = early } ∷ record { id = "m1"; envelope = late } ∷ []),
    )
    ∷ []

abbrev after_all : RelayStore
after_all = record empty { prekey_bundles = ("bob", bundle) ∷ [] }

relay-ran : relay_run requests empty ≡ some (answers, after_all)
unfolding relay_run relay_step upload_prekey_bundle get_prekey_bundle submit_message fetch_messages
    put_bundle enqueue drain queue_of insert sort_by Store.get_bundle
relay-ran = refl

abbrev no_requests : StubState
no_requests = record { bundles = []; messages = [] }

no_requests-Simulates : Simulates no_requests empty
no_requests-Simulates = record { same_bundles = λ u. refl; same_queues = λ u. refl }

stub_run-relay_run_example :
    SameAll (stub_run requests no_requests).0 answers
    × Simulates (stub_run requests no_requests).1 after_all
stub_run-relay_run_example =
    stub_run-relay_run requests no_requests empty after_all answers
      (tt, (refl, (refl, (tt, (tt, tt))))) no_requests-Simulates relay-ran
