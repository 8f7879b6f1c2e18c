-- ===== src/Tests/Server.antt =====
-- The relay server's theorems on a mailbox with one message.
use parda.Result.{ok}
use parda.Base.{
  ℕ, Bytes, bytes_beq, if◌then◌else◌, ◌==◌, ◌≡◌, refl, none, some, [], ◌∷◌, String, string_key,
}
use parda.HashMap.{insert}
use parda.Protocol.Envelope.{MessageEnvelope}
use parda.Protocol.Mixnet.{PullRequest}
use parda.Server.Store.{
  sender_cert_ttl, put_bundle, get_bundle, PreKeyBundleJson, RelayStore, StoredEnvelope, Stage,
}
use parda.Server.Routes.{
  Authority, IssueSenderCertRequest, upload_prekey_bundle, get_prekey_bundle,
  issue_sender_certificate, certificate_response, bundle, sender_certificate, stage_pull_route,
  fetch_pull_route, fetch_messages, bad_request, success, not_found, error, messages,
}
use parda.Server.Routes.Delivery.{fetch_pull_route_lem}
use parda.Tests.{test_envelope}

abbrev alice : String
alice = "alice"

abbrev bob : String
bob = "bob"

abbrev to_bob : MessageEnvelope
to_bob = record test_envelope { recipient_id = "bob" }

abbrev old_stage : Stage
old_stage = record { messages = []; staged_at_ms = 100 }

abbrev tables : RelayStore
tables = record {
  prekey_bundles = [];
  messages =
      (record { recipient_id = "bob"; stored = record { id = "m1"; envelope = to_bob } }) ∷ [];
  pull_stages = ("old", old_stage) ∷ [];
}

abbrev fresh_message : StoredEnvelope
fresh_message = record { id = "m2"; envelope = to_bob }

abbrev token : String
token = "t1"

abbrev old_token : String
old_token = "old"

abbrev pull : PullRequest
pull = record { recipient_id = "bob"; rendezvous_token = "t1" }

fetch_pull_route_lem_example :
    let staged = (stage_pull_route pull 500000 tables).1 in
    let (answer, s') = fetch_pull_route "t1" staged in
    (answer ≡ (fetch_messages bob tables).0)
    × ((fetch_pull_route "t1" s').0 ≡ (success, messages []))
    × ((fetch_messages bob staged).0 ≡ (success, messages []))
fetch_pull_route_lem_example = fetch_pull_route_lem pull 500000 tables (refl, tt)

abbrev bob_keys : PreKeyBundleJson
bob_keys = record {
  registration_id = 1;
  device_id = 1;
  identity_key = "k";
  signed_prekey_id = 2;
  signed_prekey_public = "p";
  signed_prekey_signature = "s";
  one_time_prekey_id = none;
  one_time_prekey_public = none;
}

prekeys_served :
    let s = (upload_prekey_bundle bob bob_keys tables).1 in
    (get_prekey_bundle bob s ≡ (success, bundle bob_keys))
    × (get_prekey_bundle alice s ≡ (not_found, error "no prekey bundle found for user"))
unfolding upload_prekey_bundle get_prekey_bundle put_bundle get_bundle insert
prekeys_served = (refl, refl)

-- An authority whose certificate is the lifetime that it was asked for.
abbrev test_authority : Authority Bytes ℕ
test_authority = record {
  decode = λ s. if s == "bad" then none else some (1 ∷ []);
  public_key = λ b. some b;
  issue = λ user key device ttl. ok ttl;
  serialized = λ ttl. some (ttl ∷ []);
  encode = λ b. if bytes_beq b (604800 ∷ []) then "a week" else "less";
}

abbrev request : String → IssueSenderCertRequest
request key = record { identity_key = key; device_id = 1; ttl_secs = 700000 }

certificates_issued :
    (issue_sender_certificate test_authority bob (request "k")
      ≡ (success, sender_certificate "a week"))
    × (issue_sender_certificate test_authority bob (request "bad")
        ≡ (bad_request, error "identity_key is not valid base64"))
unfolding issue_sender_certificate certificate_response sender_cert_ttl
certificates_issued = (refl, refl)
