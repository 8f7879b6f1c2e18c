-- ===== src/Mesh/Node.antt =====
-- mesh/src/transport.rs, the node: it scans, connects and accepts, and runs a session on every link;
-- and the rotation of its advertisements (mesh/src/radio/mod.rs). The radio is an interface over a
-- state of its own; a link comes with all that its peer will say. A background loop is run for a
-- number of rounds, and a spawned session at once.
pub mod Bounded
use parda.Base.{
  ℕ, zero, suc, ◌+◌, ◌*◌, ◌≤◌, ◌≡◌, refl, Bool, true, false, Option, none, some, List, [], ◌∷◌,
  arith, Bytes, length, if◌then◌else◌,
}
use parda.Result.{Result, ok, err, is_ok, Result-cases}
use parda.Mesh.Error.{MeshError, MeshResult}
use parda.Mesh.Bundle.{Codec}
use parda.Mesh.Radio.{AdvertToken, RotatingIdentity, rotate}
use parda.Mesh.Relay.{MeshRelayAgent, stored_count, sweep_expired}
use parda.Mesh.Relay.Invariant.{IsValid}
use parda.Mesh.Relay.Sync.{Link, Session, sync_with_peer}
use parda.Mesh.Relay.Sync.Bounds.{sync_with_peer-IsValid, sync_with_peer-stored_count}

-- `MeshRadio`; `now` is the clock.
pub record MeshRadio (S Peer : Type 0) : Type 0 where
  pub now : S → ℕ
  pub fresh : S → AdvertToken
  pub advertise : AdvertToken → S → MeshResult (Unit {0}) × S
  pub scan : S → MeshResult (List Peer) × S
  pub connect : Peer → S → MeshResult Link × S
  pub accept : S → MeshResult Link × S

-- `MeshNode`: the relay, and the state of the radio
pub record MeshNode (S : Type 0) : Type 0 where
  pub radio : S
  pub relay : MeshRelayAgent

module _ {S Peer : Type 0} (r : MeshRadio S Peer) (c : Codec) (sha256 : Bytes → Bytes) where
  pub sync_on : Link → MeshNode S → MeshResult ℕ × MeshNode S
  sync_on link n =
      let (result, s) =
        sync_with_peer c sha256 (r.now n.radio) (record { agent = n.relay; link = link }) in
      (result, record n { relay = s.agent })

  -- what one sighting adds, whether the connecting and the session succeed or not
  pub sync_with : Peer → ℕ → MeshNode S → ℕ × MeshNode S
  unfolding sync_on
  sync_with peer total_admitted n =
      let (connected, s) = r.connect peer n.radio in
      elim connected [
        | err e ↦ (total_admitted, record n { radio = s })
        | ok link ↦
            let (result, n') = sync_on link (record n { radio = s }) in
            (elim result [ err e ↦ total_admitted | ok admitted ↦ total_admitted + admitted ], n')
      ]

  pub sync_with_all : List Peer → ℕ → MeshNode S → ℕ × MeshNode S
  unfolding sync_with
  sync_with_all [] total_admitted n = (total_admitted, n)
  sync_with_all (peer ∷ peers) total_admitted n =
      let (total, n') = sync_with peer total_admitted n in sync_with_all peers total n'

  pub sync_once : MeshNode S → MeshResult ℕ × MeshNode S
  unfolding sync_with_all
  sync_once n =
      let (scanned, s) = r.scan n.radio in
      elim scanned [
        | err e ↦ (err e, record n { radio = s })
        | ok peers ↦
            let (total, n') = sync_with_all peers 0 (record n { radio = s }) in (ok total, n')
      ]

  -- so many rounds of `spawn_sync_loop`
  pub sync_loop : ℕ → MeshNode S → MeshNode S
  unfolding sync_once
  sync_loop zero n = n
  sync_loop (suc rounds) n = sync_loop rounds (sync_once n).1

  -- one round of `spawn_accept_loop`, and whether it goes on
  pub accept_once : MeshNode S → Bool × MeshNode S
  unfolding sync_on
  accept_once n =
      let (accepted, s) = r.accept n.radio in
      elim accepted [
        | err e ↦ (false, record n { radio = s })
        | ok link ↦ (true, (sync_on link (record n { radio = s })).1)
      ]

  -- so many rounds of `spawn_accept_loop`, which ends where accepting fails
  pub accept_loop : ℕ → MeshNode S → MeshNode S
  unfolding accept_once
  accept_loop zero n = n
  accept_loop (suc rounds) n =
      let (goes_on, n') = accept_once n in
      let rest = accept_loop rounds n' in if goes_on then rest else n'

  -- so many rounds of `spawn_rotation_loop`
  pub rotation_loop : ℕ → RotatingIdentity → S → RotatingIdentity × S
  rotation_loop zero identity s = (identity, s)
  rotation_loop (suc rounds) identity s =
      let (token, identity') = rotate (r.fresh s) (r.now s) identity in
      rotation_loop rounds identity' (r.advertise token s).1
