-- ===== src/Mesh/Relay/Sync.antt =====
-- mesh/src/relay.rs: `sync_with_peer`, one epidemic-routing session over a link. A link is the
-- messages that still come in, each with the time of its arrival, the messages sent so far, and
-- the number of sends it still takes; `serde_json` is part of the link, so a message that does not
-- decode comes in as an error. No other session touches the agent in between.
pub mod Bounds
pub mod Exchange
pub mod Takes
pub mod Hands
pub mod Spread
use parda.Base.{
  ℕ, zero, suc, ◌+◌, ◌-◌, ◌≡◌, Bool, true, false, Option, none, some, List, [], ◌∷◌, ◌++◌, map,
  Bytes, not, if◌then◌else◌, contains, take, keep_if, bytes_key,
}
use parda.HashMap.{HashMap, lookup}
use parda.Result.{Result, ok, err, is_ok}
use parda.Exec.{Exec, pure, raise, lift, get, put, ◌>>=◌, ◌>>◌}
use parda.Mesh.Error.{MeshError, MeshResult, link}
use parda.Mesh.Bundle.{Codec}
use parda.Mesh.Relay.{
  RelayConfig, StoredBundle, RelayStore, MeshRelayAgent, admit_checked, sweep_expired, entry_hash,
}

pub data SyncMessage : Type 0 where
  have want : List Bytes → SyncMessage
  bundle : Bytes → SyncMessage
  done : SyncMessage

abbrev pub Inbox : Type 0
Inbox = List (ℕ × MeshResult SyncMessage)

pub record Link : Type 0 where
  pub inbox : Inbox
  pub outbox : List SyncMessage
  pub sendable : ℕ

pub record Session : Type 0 where
  pub agent : MeshRelayAgent
  pub link : Link

abbrev unexpected : MeshError
unexpected = link "sync protocol violation: message out of order"

abbrev closed : MeshError
closed = link "peer link closed"

-- what is left of a link's sends after one more
send_on : ℕ → SyncMessage → Session → MeshResult (Unit {0}) × Session
send_on zero msg s = (err closed, s)
send_on (suc n) msg s =
    (ok tt, record s { link = record s.link { outbox = s.link.outbox ++ msg ∷ []; sendable = n } })

send_msg : SyncMessage → Exec MeshError Session (Unit {0})
unfolding send_on
send_msg msg s = send_on s.link.sendable msg s

recv_from : Inbox → Session → MeshResult SyncMessage × Session
recv_from [] s = (err closed, s)
recv_from ((_, m) ∷ rest) s = (m, record s { link = record s.link { inbox = rest } })

recv_msg : Exec MeshError Session SyncMessage
unfolding recv_from
recv_msg s = recv_from s.link.inbox s

abbrev expect_have : SyncMessage → MeshResult (List Bytes)
expect_have (have h) = ok h
expect_have _ = err unexpected

abbrev expect_want : SyncMessage → MeshResult (List Bytes)
expect_want (want w) = ok w
expect_want _ = err unexpected

unfoldable pub my_hashes : MeshRelayAgent → List Bytes
my_hashes a = map entry_hash a.store.by_hash

-- what this side asks for
unfoldable pub wanted : ℕ → List Bytes → List Bytes → List Bytes
wanted cap mine theirs = take cap (keep_if (λ h. not (contains mine h)) theirs)

-- `filter_map(|h| store.by_hash.get(h))`
unfoldable pub held_bytes : HashMap Bytes StoredBundle → List Bytes → List Bytes
held_bytes store [] = []
held_bytes store (h ∷ hs) = elim (lookup h store) [
  | none ↦ held_bytes store hs
  | some b ↦ b.bytes ∷ held_bytes store hs
]

-- what this side pushes
unfoldable pub to_send : MeshRelayAgent → List Bytes → List Bytes
unfolding held_bytes
to_send a their_want = held_bytes a.store.by_hash (take a.config.max_bundles_per_session their_want)

send_all : List Bytes → Exec MeshError Session (Unit {0})
send_all [] = pure tt
send_all (b ∷ bs) = do send_msg (bundle b); send_all bs

-- everything up to the receive loop
pub offer : Exec MeshError Session (Unit {0})
offer = do
  s ← get
  let mine = my_hashes s.agent
  let cap = s.agent.config.max_bundles_per_session
  send_msg (have mine)
  first ← recv_msg
  theirs ← lift (expect_have first)
  send_msg (want (wanted cap mine theirs))
  second ← recv_msg
  their_want ← lift (expect_want second)
  send_all (to_send s.agent their_want)
  send_msg done

module _ (c : Codec) (sha256 : Bytes → Bytes) where
  -- the receive loop, over the messages that come in
  pub receive_loop : Inbox → ℕ → ℕ → MeshRelayAgent → MeshResult ℕ × MeshRelayAgent × Inbox
  receive_loop [] admitted budget a = (err closed, a, [])
  receive_loop ((now_ms, err e) ∷ rest) admitted budget a = (err e, a, rest)
  receive_loop ((now_ms, ok (bundle bytes)) ∷ rest) admitted budget a =
      let (r, a') = admit_checked c sha256 now_ms bytes (some budget) a in
      receive_loop rest (if is_ok r then admitted + 1 else admitted)
        (if is_ok r then budget - 1 else budget) a'
  receive_loop ((now_ms, ok done) ∷ rest) admitted budget a = (ok admitted, a, rest)
  receive_loop ((now_ms, ok (have h)) ∷ rest) admitted budget a = (err unexpected, a, rest)
  receive_loop ((now_ms, ok (want w)) ∷ rest) admitted budget a = (err unexpected, a, rest)

  pub receive_bundles : Exec MeshError Session ℕ
  receive_bundles s =
      let (r, a, rest) =
        receive_loop s.link.inbox 0 s.agent.config.max_bundles_per_session s.agent in
      (r, record s { agent = a; link = record s.link { inbox = rest } })

  pub sync_with_peer : ℕ → Exec MeshError Session ℕ
  sync_with_peer now_ms = do
    s ← get
    put (record s { agent = sweep_expired now_ms s.agent })
    offer
    receive_bundles
