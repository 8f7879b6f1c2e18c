-- ===== src/Mesh/Relay/History.antt =====
-- The relay under any sequence of its own calls, from the empty store on.
use parda.Base.{ℕ, ◌≡◌, refl, Option, List, [], ◌∷◌, Bytes}
use parda.Mesh.Bundle.{Codec}
use parda.Mesh.Relay.{MeshRelayAgent, admit_checked, take_for_addresses, sweep_expired}
use parda.Mesh.Relay.Sync.Takes.{admit_checked-Adds}
use parda.Mesh.Relay.Invariant.{
  IsValid, admit_checked-IsValid, take_for_addresses-IsValid, sweep_expired-IsValid,
}

pub data Call : Type 0 where
  admits : (now_ms : ℕ) (bytes : Bytes) (session_budget : Option ℕ) → Call
  takes : (addresses : List Bytes) → Call
  sweeps : (now_ms : ℕ) → Call

module _ (c : Codec) (sha256 : Bytes → Bytes) where
  unfoldable pub step : Call → MeshRelayAgent → MeshRelayAgent
  step (admits now_ms bytes session_budget) a =
      (admit_checked c sha256 now_ms bytes session_budget a).1
  step (takes addresses) a = (take_for_addresses addresses a).1
  step (sweeps now_ms) a = sweep_expired now_ms a

  unfoldable pub run : List Call → MeshRelayAgent → MeshRelayAgent
  unfolding step
  run [] a = a
  run (call ∷ calls) a = run calls (step call a)

  pub step-IsValid :
      (call : Call) (a : MeshRelayAgent) → IsValid sha256 a → IsValid sha256 (step call a)
  unfolding step
  step-IsValid (admits now_ms bytes budget) a v =
      admit_checked-IsValid c sha256 now_ms bytes budget a v
  step-IsValid (takes addresses) a v = take_for_addresses-IsValid sha256 addresses a v
  step-IsValid (sweeps now_ms) a v = sweep_expired-IsValid sha256 now_ms a v

  -- No call changes the caps.
  pub step-config : (call : Call) (a : MeshRelayAgent) → (step call a).config ≡ a.config
  unfolding step take_for_addresses sweep_expired
  step-config (admits now_ms bytes budget) a =
      (admit_checked-Adds c sha256 now_ms bytes budget a).same_config
  step-config (takes addresses) a = refl
  step-config (sweeps now_ms) a = refl

  -- A well-formed relay stays so under any calls: no hash stands twice, each is that of
  -- its bundle, the byte count is the sum of the lengths held, and both caps are kept.
  pub run-IsValid :
      (calls : List Call) (a : MeshRelayAgent) → IsValid sha256 a → IsValid sha256 (run calls a)
  unfolding run
  run-IsValid [] a v = v
  run-IsValid (call ∷ calls) a v = run-IsValid calls (step call a) (step-IsValid call a v)
