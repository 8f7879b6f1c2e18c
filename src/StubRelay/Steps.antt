-- ===== src/StubRelay/Steps.antt =====
-- One request to the stub and to the relay (server/src/routes.rs) with the same tables.
use mathlib.Core.List.{append-nil}
use parda.Base.{
  ◌≡◌, refl, sym, ap, ◌∙◌, true, not, some, List, [], ◌∷◌, ◌++◌, map, String, string_key, eq_iff,
  keep_if, arith, ◌==◌, if◌then◌else◌, inl, inr, Bool-cases, Option-cases,
}
use parda.HashMap.{lookup, insert, remove, lookup-insert, lookup-remove}
use parda.Sorting.{sort_by, map-sort_by}
use parda.Protocol.Envelope.{MessageEnvelope, signed_order}
use parda.Server.Store.{
  RelayStore, MessageRow, StoredEnvelope, PreKeyBundleJson, is_for, queue_of, drain, enqueue,
  put_bundle, has_id, created_order,
}
use parda.Server.Store.Mailbox.{keep_if-append, keep_if-idle, keep_if-none, List-cases}
use parda.Server.Routes.{
  StatusCode, Response, Body, upload_prekey_bundle, get_prekey_bundle, api_ok,
}
use parda.Server.Routes
use parda.Server.Store
use parda.StubRelay.{
  StubState, or_default, upload_bundle, get_bundle, submit_message, fetch_messages,
}
use parda.StubRelay.Requests.{
  Request, uploads, downloads, submits, fetches, Addressed, stub_step, relay_step, in_order,
  Simulates, envelopes_for, Follows,
}

map-envelopes :
    (rows : List MessageRow)
    → map (λ x. x.envelope) (Store.envelopes_of rows) ≡ map (λ row. row.stored.envelope) rows
map-envelopes [] = refl
map-envelopes (row ∷ rows) = ap (◌∷◌ row.stored.envelope) (map-envelopes rows)

uploads-Follows :
    (u : String) (body : PreKeyBundleJson) (s : StubState) (r : RelayStore)
    → Simulates s r
    → Follows (stub_step (uploads u body) s) (relay_step (uploads u body) r)
unfolding stub_step relay_step upload_bundle upload_prekey_bundle put_bundle
uploads-Follows u body s r sim = (
  (refl, tt),
  record {
    same_bundles = λ v.
        lookup-insert u v body s.bundles
        ∙ ap (λ o. if u == v then some body else o) (sim.same_bundles v)
        ∙ sym (lookup-insert u v body r.prekey_bundles);
    same_queues = sim.same_queues;
  },
)

downloads-Follows :
    (u : String) (s : StubState) (r : RelayStore)
    → Simulates s r
    → Follows (stub_step (downloads u) s) (relay_step (downloads u) r)
unfolding stub_step relay_step get_bundle get_prekey_bundle Store.get_bundle
downloads-Follows u s r sim = elim (Option-cases (lookup u r.prekey_bundles)) [
  | inl absent ↦
      let missing = sim.same_bundles u ∙ absent in
      rw (stub_step, relay_step, get_bundle, get_prekey_bundle, absent, missing) ((refl, tt), sim)
  | inr (b, there) ↦
      let found = sim.same_bundles u ∙ there in
      rw (stub_step, relay_step, get_bundle, get_prekey_bundle, there, found) ((refl, refl), sim)
]

map-envelope-append :
    (rows : List MessageRow) (row : MessageRow)
    → map (λ (r : MessageRow). r.stored.envelope) (rows ++ row ∷ [])
      ≡ map (λ (r : MessageRow). r.stored.envelope) rows ++ row.stored.envelope ∷ []
map-envelope-append [] row = refl
map-envelope-append (r ∷ rows) row = ap (◌∷◌ r.stored.envelope) (map-envelope-append rows row)

-- a queue after a submission
submitted-queue :
    (u v : String) (stored : StoredEnvelope) (s : StubState) (r : RelayStore)
    → Simulates s r
    → let row : MessageRow = record { recipient_id = u; stored = stored } in
      or_default
        (lookup v (insert u (or_default (lookup u s.messages) ++ stored.envelope ∷ []) s.messages))
      ≡ envelopes_for v (record r { messages = r.messages ++ row ∷ [] })
submitted-queue u v stored s r sim =
    let row : MessageRow = record { recipient_id = u; stored = stored } in
    let queue = or_default (lookup u s.messages) ++ stored.envelope ∷ [] in
    let looked = ap or_default (lookup-insert u v queue s.messages) in
    let kept = keep_if-append (is_for v) r.messages (row ∷ []) in
    elim (Bool-cases (u == v)) [
      | inl same ↦
          let e : u ≡ v = (eq_iff u v).0 same in
          let grown : keep_if (is_for v) (row ∷ []) ≡ row ∷ [] = rw same refl in
          looked
          ∙ (rw same refl)
          ∙ ap (λ q. q ++ stored.envelope ∷ [])
              (ap (λ w. or_default (lookup w s.messages)) e ∙ sim.same_queues v)
          ∙ sym (map-envelope-append (keep_if (is_for v) r.messages) row)
          ∙ ap (map (λ row. row.stored.envelope))
              (sym (kept ∙ ap (◌++◌ (keep_if (is_for v) r.messages)) grown))
      | inr other ↦
          let idle : keep_if (is_for v) (row ∷ []) ≡ [] = rw other refl in
          looked
          ∙ (rw other refl)
          ∙ sim.same_queues v
          ∙ ap (map (λ row. row.stored.envelope)) (
              sym (
                kept
                ∙ ap (◌++◌ (keep_if (is_for v) r.messages)) idle
                ∙ append-nil (keep_if (is_for v) r.messages)))
    ]

-- a queue after a fetch
fetched-queue :
    (u v : String) (s : StubState) (r : RelayStore)
    → Simulates s r
    → or_default (lookup v (remove u s.messages))
      ≡ envelopes_for v (record r { messages = keep_if (λ row. not (is_for u row)) r.messages })
fetched-queue u v s r sim =
    let looked = ap or_default (lookup-remove u v s.messages) in
    elim (Bool-cases (u == v)) [
      | inl same ↦
          looked
          ∙ (rw same refl)
          ∙ ap (map (λ row. row.stored.envelope)) (
              sym (
                keep_if-none (is_for v) (λ row. not (is_for u row)) r.messages
                  (λ row h. ground (
                    arith,
                    same,
                    h,
                    eq_iff u v,
                    eq_iff row.recipient_id u,
                    eq_iff row.recipient_id v,
                  ))))
      | inr other ↦
          looked
          ∙ (rw other refl)
          ∙ sim.same_queues v
          ∙ ap (map (λ row. row.stored.envelope)) (
              sym (
                keep_if-idle (is_for v) (λ row. not (is_for u row)) r.messages
                  (λ row h. ground (
                    arith,
                    other,
                    h,
                    eq_iff u v,
                    eq_iff row.recipient_id u,
                    eq_iff row.recipient_id v,
                  ))))
    ]

submits-Follows :
    (uuid u : String) (e : MessageEnvelope) (s : StubState) (r : RelayStore)
    → e.recipient_id ≡ u
    → Simulates s r
    → Follows (stub_step (submits uuid u e) s) (relay_step (submits uuid u e) r)
unfolding stub_step relay_step submit_message Routes.submit_message enqueue
submits-Follows uuid u e s r addressed sim =
    let own : (e.recipient_id == u) ≡ true = (eq_iff e.recipient_id u).1 addressed in
    let stored : StoredEnvelope = record { id = uuid; envelope = e } in
    elim (List-cases (keep_if (has_id uuid) r.messages)) [
      | inl fresh ↦
          rw (Routes.submit_message, own, enqueue, fresh)
            (
              (refl, tt),
              record {
                same_bundles = sim.same_bundles;
                same_queues = λ v. submitted-queue u v stored s r sim;
              },
            )
      | inr (row, rows, taken) ↦ rw (Routes.submit_message, own, enqueue, taken) tt
    ]

fetches-Follows :
    (u : String) (s : StubState) (r : RelayStore)
    → Simulates s r
    → Follows (stub_step (fetches u) s) (relay_step (fetches u) r)
unfolding stub_step relay_step fetch_messages Routes.fetch_messages drain queue_of
fetches-Follows u s r sim = (
  (
    refl,
    map-envelopes (sort_by created_order (keep_if (is_for u) r.messages))
        ∙ map-sort_by (λ (row : MessageRow). row.stored.envelope) (λ e. signed_order e.timestamp_ms)
            (keep_if (is_for u) r.messages)
        ∙ ap in_order (sym (sim.same_queues u)),
  ),
  record { same_bundles = sim.same_bundles; same_queues = λ v. fetched-queue u v s r sim },
)

-- One request to both.
pub step-Follows :
    (q : Request) (s : StubState) (r : RelayStore)
    → Addressed q
    → Simulates s r
    → Follows (stub_step q s) (relay_step q r)
step-Follows (uploads u body) s r a sim = uploads-Follows u body s r sim
step-Follows (downloads u) s r a sim = downloads-Follows u s r sim
step-Follows (submits uuid u e) s r a sim = submits-Follows uuid u e s r a sim
step-Follows (fetches u) s r a sim = fetches-Follows u s r sim
