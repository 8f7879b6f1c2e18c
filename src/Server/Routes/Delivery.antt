-- ===== src/Server/Routes/Delivery.antt =====
-- Delivery through the handlers: a submitted message is fetched once, directly or by a pull.

use parda.Base.{ℕ, ◌≡◌, refl, ◌≢◌, false, none, some, [], arith, String, string_key, eq_iff}
use parda.HashMap.{Distinct, contains_key}
use parda.Protocol.Envelope.{MessageEnvelope}
use parda.Protocol.Mixnet.{PullRequest}
use parda.Server.Store.{RelayStore}
use parda.Server.Store.Mailbox.{rows_with_id, delete_message-enqueue}
use parda.Server.Store.Pulls.{fetch_pull-stage_pull, fetch_pull-unknown}
use parda.Server.Routes.{
  submit_message, delete_message_route, stage_pull_route, fetch_pull_route, fetch_messages,
  bad_request, created, success, not_found, error, message_id, api_ok, messages,
}

-- Under a fresh message id, submitting answers 400 and changes nothing where the path names
-- another recipient than the envelope, and otherwise answers 201 with that id; deleting the
-- message then answers 200 and restores the tables, and a second deletion answers 404.
pub submit_message_lem :
    (uuid recipient : String) (envelope : MessageEnvelope) (s : RelayStore)
    → rows_with_id uuid s ≡ []
    → (envelope.recipient_id ≢ recipient
        → submit_message uuid recipient envelope s
          ≡ some (
            (bad_request, error "recipient_id path param does not match envelope.recipient_id"),
            s,
          ))
      × (envelope.recipient_id ≡ recipient
          → (s' : RelayStore) × (submit_message uuid recipient envelope s
              ≡ some ((created, message_id uuid), s'))
            × (delete_message_route recipient uuid s' ≡ ((success, api_ok none), s))
            × (delete_message_route recipient uuid s
                ≡ ((not_found, api_ok (some "message not found")), s)))
unfolding submit_message delete_message_route
submit_message_lem uuid recipient envelope s fresh =
    let (s', queued, deleted, gone) =
      (delete_message-enqueue recipient (record { id = uuid; envelope = envelope }) s).1 fresh in
    (
      λ other. ground (arith, eq_iff envelope.recipient_id recipient),
      λ same. (
        s',
        ground (arith, eq_iff envelope.recipient_id recipient, queued),
        rw deleted refl,
        rw gone refl,
      ),
    )

pub fetch_pull_route-unknown :
    (token : String) (s : RelayStore)
    → contains_key token s.pull_stages ≡ false
    → fetch_pull_route token s ≡ ((success, messages []), s)
unfolding fetch_pull_route
fetch_pull_route-unknown token s unknown =
    rw (fetch_pull_route, fetch_pull-unknown token s unknown) refl

-- Where no token stands twice among the stages, a pull that was staged answers, once, exactly
-- what a direct fetch of the mailbox would have answered; a second fetch under the token answers
-- 200 with no messages, and so does a direct fetch after the staging.
pub fetch_pull_route_lem :
    (request : PullRequest) (now_ms : ℕ) (s : RelayStore)
    → Distinct s.pull_stages
    → let staged = (stage_pull_route request now_ms s).1 in
      let (answer, s') = fetch_pull_route request.rendezvous_token staged in
      (answer ≡ (fetch_messages request.recipient_id s).0)
      × ((fetch_pull_route request.rendezvous_token s').0 ≡ (success, messages []))
      × ((fetch_messages request.recipient_id staged).0 ≡ (success, messages []))
unfolding stage_pull_route fetch_pull_route fetch_messages
fetch_pull_route_lem request now_ms s distinct =
    let user = request.recipient_id in
    let token = request.rendezvous_token in
    let (found, emptied, gone, _) = fetch_pull-stage_pull user token token now_ms s distinct in
    (rw found refl, rw gone refl, rw emptied refl)
