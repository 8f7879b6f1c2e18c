-- ===== src/Mesh/Relay/Sync/Bounds.antt =====
-- What one session can do to the relay, whatever the peer sends: the caps hold, on the error paths
-- too.
use parda.Base.{
  ℕ, zero, suc, ◌+◌, ◌-◌, ◌≤◌, ◌≡◌, refl, Bool, some, List, [], ◌∷◌, arith, Bytes, length,
  length-append, bytes_key, if◌then◌else◌,
}
use parda.HashMap.{insert_absent}
use parda.Result.{ok, err, is_ok}
use parda.Exec.{lift_cases, bind_cases, Exec}
use parda.Exec.Keeps.{Keeps, Keeps-bind, Keeps-lift}
use parda.Mesh.Error.{MeshError}
use parda.Mesh.Bundle.{Codec}
use parda.Mesh.Relay.{
  StoredBundle, MeshRelayAgent, admit_locked, admit_checked, inspect, sweep_expired, stored_count,
}
use parda.Mesh.Relay.Invariant.{IsValid, admit_checked-IsValid, sweep_expired-IsValid}
use parda.Mesh.Relay.Sync.{
  SyncMessage, have, want, bundle, done, Inbox, Session, send_msg, send_on, recv_msg, recv_from,
  send_all, expect_have, expect_want, offer, receive_loop, receive_bundles, sync_with_peer,
}

module _ (P : MeshRelayAgent → Type 0) where
  abbrev AgentKeeps : {A : Type 0} → Exec MeshError Session A → Type 0
  AgentKeeps m = Keeps (λ s. P s.agent) m

  send_on-Keeps :
      (n : ℕ) (msg : SyncMessage) (s : Session) → P s.agent → P (send_on n msg s).1.agent
  unfolding send_on
  send_on-Keeps zero msg s h = h
  send_on-Keeps (suc n) msg s h = h

  send_msg-Keeps : (msg : SyncMessage) → AgentKeeps (send_msg msg)
  unfolding send_msg
  send_msg-Keeps msg = record { run = λ s h. send_on-Keeps s.link.sendable msg s h }

  recv_from-Keeps : (inbox : Inbox) (s : Session) → P s.agent → P (recv_from inbox s).1.agent
  unfolding recv_from
  recv_from-Keeps [] s h = h
  recv_from-Keeps (m ∷ rest) s h = h

  recv_msg-Keeps : AgentKeeps recv_msg
  unfolding recv_msg
  recv_msg-Keeps = record { run = λ s h. recv_from-Keeps s.link.inbox s h }

  send_all-Keeps : (bs : List Bytes) → AgentKeeps (send_all bs)
  unfolding send_all
  send_all-Keeps [] = record { run = λ s h. h }
  send_all-Keeps (b ∷ bs) = Keeps-bind _ _ _ (send_msg-Keeps (bundle b)) (λ _. send_all-Keeps bs)

  -- The offering half of a session leaves the agent as it was.
  pub offer-Keeps : AgentKeeps offer
  unfolding offer
  offer-Keeps = record {
    run = λ s.
        (Keeps-bind _ _ _ (send_msg-Keeps _) λ _. Keeps-bind _ _ _ recv_msg-Keeps λ first.
            Keeps-bind _ _ _ (Keeps-lift _ (expect_have first)) λ theirs.
              Keeps-bind _ _ _ (send_msg-Keeps _) λ _. Keeps-bind _ _ _ recv_msg-Keeps λ second.
                Keeps-bind _ _ _ (Keeps-lift _ (expect_want second))
                  λ their_want. Keeps-bind _ _ _ (send_all-Keeps _) λ _. send_msg-Keeps done).run
          s;
  }

-- What is left of a session's budget after one bundle.
abbrev pub spend : Bool → ℕ → ℕ
spend accepted budget = if accepted then budget - 1 else budget

module _ (c : Codec) (sha256 : Bytes → Bytes) where
  admit_locked-charge :
      (budget : ℕ) (b : StoredBundle) (a : MeshRelayAgent)
      → let (r, a') = admit_locked sha256 (some budget) b a in
        length a'.store.by_hash + spend (is_ok r) budget ≤ length a.store.by_hash + budget
  unfolding admit_locked
  admit_locked-charge budget b a = ground (
    arith,
    insert_absent (sha256 b.bytes) b a.store.by_hash,
    length-append a.store.by_hash ((sha256 b.bytes, b) ∷ []),
  )

  -- A bundle that takes a place in the store uses up a unit of the session's budget.
  admit_checked-charge :
      (now_ms : ℕ) (bytes : Bytes) (budget : ℕ) (a : MeshRelayAgent)
      → let (r, a') = admit_checked c sha256 now_ms bytes (some budget) a in
        length a'.store.by_hash + spend (is_ok r) budget ≤ length a.store.by_hash + budget
  unfolding admit_checked
  admit_checked-charge now_ms bytes budget a =
      lift_cases
        (λ r. length r.1.store.by_hash + spend (is_ok r.0) budget ≤ length a.store.by_hash + budget)
        (inspect c now_ms bytes) _ a (λ e _. omega arith) (λ b _. admit_locked-charge budget b a)

  receive_loop-length :
      (inbox : Inbox) (admitted budget : ℕ) (a : MeshRelayAgent)
      → length (receive_loop c sha256 inbox admitted budget a).1.store.by_hash
        ≤ length a.store.by_hash + budget
  unfolding receive_loop
  receive_loop-length [] admitted budget a = omega arith
  receive_loop-length ((now, err e) ∷ rest) admitted budget a = omega arith
  receive_loop-length ((now, ok done) ∷ rest) admitted budget a = omega arith
  receive_loop-length ((now, ok (have h)) ∷ rest) admitted budget a = omega arith
  receive_loop-length ((now, ok (want w)) ∷ rest) admitted budget a = omega arith
  receive_loop-length ((now, ok (bundle bytes)) ∷ rest) admitted budget a = omega (
    arith,
    admit_checked-charge now bytes budget a,
    receive_loop-length rest _ _ (admit_checked c sha256 now bytes (some budget) a).1,
  )

  receive_loop-IsValid :
      (inbox : Inbox) (admitted budget : ℕ) (a : MeshRelayAgent)
      → IsValid sha256 a
      → IsValid sha256 (receive_loop c sha256 inbox admitted budget a).1
  unfolding receive_loop
  receive_loop-IsValid [] admitted budget a v = v
  receive_loop-IsValid ((now, err e) ∷ rest) admitted budget a v = v
  receive_loop-IsValid ((now, ok done) ∷ rest) admitted budget a v = v
  receive_loop-IsValid ((now, ok (have h)) ∷ rest) admitted budget a v = v
  receive_loop-IsValid ((now, ok (want w)) ∷ rest) admitted budget a v = v
  receive_loop-IsValid ((now, ok (bundle bytes)) ∷ rest) admitted budget a v =
      receive_loop-IsValid rest _ _ _ (admit_checked-IsValid c sha256 now bytes (some budget) a v)

  receive_bundles-Keeps :
      (P : MeshRelayAgent → Type 0) (a₀ : MeshRelayAgent)
      → ((inbox : Inbox) → P (receive_loop c sha256 inbox 0 a₀.config.max_bundles_per_session a₀).1)
      → (s : Session) → s.agent ≡ a₀
      → P (receive_bundles c sha256 s).1.agent
  unfolding receive_bundles
  receive_bundles-Keeps P a₀ h s e = rw e (h s.link.inbox)

  -- A session as a whole: a property that holds of the swept agent and after the receive loop holds
  -- after the session.
  pub session_rule :
      (P : MeshRelayAgent → Type 0) (now_ms : ℕ) (s : Session)
      → P (sweep_expired now_ms s.agent)
      → ((inbox : Inbox)
          → let a = sweep_expired now_ms s.agent in
            P (receive_loop c sha256 inbox 0 a.config.max_bundles_per_session a).1)
      → P (sync_with_peer c sha256 now_ms s).1.agent
  unfolding sync_with_peer
  session_rule P now_ms s swept received =
      let a = sweep_expired now_ms s.agent in
      let s' = record s { agent = a } in
      let same = (offer-Keeps (λ x. x ≡ a)).run s' refl in
      bind_cases (λ r. P r.1.agent) offer (λ _. receive_bundles c sha256) s' (λ e _. rw same swept)
        (λ _ _. receive_bundles-Keeps P a received (offer s').1 same)

  -- Whatever the peer sends and wherever the session breaks off, a store that was well formed
  -- is so after it.
  pub sync_with_peer-IsValid :
      (now_ms : ℕ) (s : Session)
      → IsValid sha256 s.agent
      → IsValid sha256 (sync_with_peer c sha256 now_ms s).1.agent
  sync_with_peer-IsValid now_ms s v =
      let swept = sweep_expired-IsValid sha256 now_ms s.agent v in
      session_rule (IsValid sha256) now_ms s swept (λ inbox. receive_loop-IsValid inbox _ _ _ swept)

  -- Whatever the peer sends, a session adds at most `max_bundles_per_session` bundles to those that
  -- are left after the sweep.
  pub sync_with_peer-stored_count :
      (now_ms : ℕ) (s : Session)
      → stored_count (sync_with_peer c sha256 now_ms s).1.agent
        ≤ stored_count (sweep_expired now_ms s.agent) + s.agent.config.max_bundles_per_session
  unfolding stored_count sweep_expired
  sync_with_peer-stored_count now_ms s =
      session_rule
        (λ a.
          length a.store.by_hash
          ≤ length (sweep_expired now_ms s.agent).store.by_hash
            + s.agent.config.max_bundles_per_session)
        now_ms s (omega arith)
        (λ inbox. receive_loop-length inbox _ _ (sweep_expired now_ms s.agent))
