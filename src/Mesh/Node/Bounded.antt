-- ===== src/Mesh/Node/Bounded.antt =====
-- What a node's loops can do to its relay: whatever the radio and the peers do, the storage stays well
-- formed and within its caps.
use parda.Base.{ℕ, ◌≤◌, ◌≡◌, refl, ◌∙◌, List, [], ◌∷◌, Bytes, arith, inl, inr}
use parda.Result.{Result-cases}
use parda.Mesh.Bundle.{Codec}
use parda.Mesh.Relay.{RelayConfig, stored_count, stored_bytes}
use parda.Mesh.Relay.History.{Call, step, step-IsValid, step-config}
use parda.Mesh.Relay.Invariant.{IsValid}
use parda.Mesh.Relay.Sync.{Link, Session}
use parda.Mesh.Relay.Sync.Bounds.{sync_with_peer-IsValid}
use parda.Mesh.Relay.Sync.Takes.{sync_with_peer-config}
use parda.Mesh.Node.{MeshRadio, MeshNode, sync_on, sync_with, sync_with_all, sync_once, accept_once}

-- a turn of one of the two loops that touch the relay, or a call of the application's
pub data Turn : Type 0 where
  syncs : Turn
  accepts : Turn
  calls : Call → Turn

module _ {S Peer : Type 0} (r : MeshRadio S Peer) (c : Codec) (sha256 : Bytes → Bytes) where
  pub turn : Turn → MeshNode S → MeshNode S
  unfolding sync_once accept_once
  turn syncs n = (sync_once r c sha256 n).1
  turn accepts n = (accept_once r c sha256 n).1
  turn (calls call) n = record n { relay = step c sha256 call n.relay }

  -- the loops and the calls in any order of turns
  pub turns : List Turn → MeshNode S → MeshNode S
  unfolding turn
  turns [] n = n
  turns (t ∷ ts) n = turns ts (turn t n)

  module _ (config : RelayConfig) where
    abbrev Bounded : MeshNode S → Type 0
    Bounded n = IsValid sha256 n.relay × (n.relay.config ≡ config)

    sync_on-Bounded :
        (link : Link) (n : MeshNode S) → Bounded n → Bounded (sync_on r c sha256 link n).1
    unfolding sync_on
    sync_on-Bounded link n (v, same) =
        let s : Session = record { agent = n.relay; link = link } in
        (
          sync_with_peer-IsValid c sha256 (r.now n.radio) s v,
          sync_with_peer-config c sha256 (r.now n.radio) s ∙ same,
        )

    sync_with-Bounded :
        (peer : Peer) (total : ℕ) (n : MeshNode S)
        → Bounded n
        → Bounded (sync_with r c sha256 peer total n).1
    unfolding sync_with
    sync_with-Bounded peer total n b = elim (Result-cases (r.connect peer n.radio).0) [
      | inl (e, failed) ↦ rw (failed, sync_with) b
      | inr (link, connected) ↦
          rw (connected, sync_with)
            (sync_on-Bounded link (record n { radio = (r.connect peer n.radio).1 }) b)
    ]

    sync_with_all-Bounded :
        (peers : List Peer) (total : ℕ) (n : MeshNode S)
        → Bounded n
        → Bounded (sync_with_all r c sha256 peers total n).1
    unfolding sync_with_all
    sync_with_all-Bounded [] total n b = b
    sync_with_all-Bounded (peer ∷ peers) total n b =
        sync_with_all-Bounded peers _ (sync_with r c sha256 peer total n).1
          (sync_with-Bounded peer total n b)

    turn-Bounded : (t : Turn) (n : MeshNode S) → Bounded n → Bounded (turn t n)
    unfolding turn sync_once accept_once
    turn-Bounded syncs n b = elim (Result-cases (r.scan n.radio).0) [
      | inl (e, failed) ↦ rw (failed, turn, sync_once) b
      | inr (peers, scanned) ↦
          rw (scanned, turn, sync_once)
            (sync_with_all-Bounded peers 0 (record n { radio = (r.scan n.radio).1 }) b)
    ]
    turn-Bounded accepts n b = elim (Result-cases (r.accept n.radio).0) [
      | inl (e, failed) ↦ rw (failed, turn, accept_once) b
      | inr (link, accepted) ↦
          rw (accepted, turn, accept_once)
            (sync_on-Bounded link (record n { radio = (r.accept n.radio).1 }) b)
    ]
    turn-Bounded (calls call) n (v, same) =
        (step-IsValid c sha256 call n.relay v, step-config c sha256 call n.relay ∙ same)

    turns-Bounded : (ts : List Turn) (n : MeshNode S) → Bounded n → Bounded (turns ts n)
    unfolding turns
    turns-Bounded [] n b = b
    turns-Bounded (t ∷ ts) n b = turns-Bounded ts (turn t n) (turn-Bounded t n b)

  -- Whatever the radio reports and whatever the peers send, and in whatever order the two loops and
  -- the calls of the application take their turns: the relay of a node that was well formed is well formed, and holds no more bundles
  -- and no more bytes than the caps of its configuration, which is still the same.
  pub turns-bounded :
      (ts : List Turn) (n : MeshNode S)
      → IsValid sha256 n.relay
      → let n' = turns ts n in
        IsValid sha256 n'.relay
        × (n'.relay.config ≡ n.relay.config)
        × (stored_count n'.relay ≤ n.relay.config.max_total_bundles)
        × (stored_bytes n'.relay ≤ n.relay.config.max_total_bytes)
  unfolding stored_count stored_bytes
  turns-bounded ts n v =
      let (v', same) = turns-Bounded n.relay.config ts n (v, refl) in
      (v', same, ground (arith, v'.few_bundles, same), ground (arith, v'.few_bytes, same))
