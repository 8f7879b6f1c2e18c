-- ===== src/Protocol/SelfDestruct/Run/Zeroized.antt =====
-- Erasure reaches the memory: what the allocator gets back is zeros, and locks are given back.
use parda.Base.{ℕ, ◌≡◌, Option, none, some, Bool, if◌then◌else◌, Bytes, All}
use parda.Protocol.SelfDestruct.{KeySlot, zeroized}

-- One lock for a key that is held, if the lock was granted.
abbrev pub locks : Bool → Option Bytes → ℕ
locks lock none = 0
locks lock (some key) = if lock then 1 else 0

-- Every buffer that was freed held zeros only, and the locks are those of the live key.
pub record IsClean (lock : Bool) (slot : KeySlot) : Type 0 where
  pub wiped : All (λ b. b ≡ zeroized b) slot.freed
  pub unlocked : slot.locked ≡ locks lock slot.held
