-- ===== src/Protocol/SelfDestruct/Restore.antt =====
-- The restart half of protocol/src/self_destruct.rs: `export_for_persistence` and `restore`.
use parda.Base.{ℕ, Bool, ◌-◌, Option, none, some, leb, if◌then◌else◌}
use parda.Result.{ok, err, ok_or, ◌>>=◌}
use parda.Protocol.Error.{ProtoResult, self_destruct_expired, clock_rollback_detected}
use parda.Protocol.ClockGuard.{WatermarkStore, in_order, rollback_detected, check_clock_integrity}
use parda.Protocol.SelfDestruct.{
  SelfDestructingMessage, PersistedSelfDestructState, new_key, spawn_expiry_timer,
}

unfoldable pub export_for_persistence :
    SelfDestructingMessage → ProtoResult PersistedSelfDestructState
export_for_persistence m = do
  key ← ok_or m.key.held self_destruct_expired
  ok (record {
    ciphertext = m.ciphertext;
    key_bytes = key;
    mode = m.mode;
    expires_at_ms = m.expires_at_ms;
  })

-- `some 0` is never armed: the deadline must lie ahead
unfoldable pub remaining : Option ℕ → ℕ → ProtoResult (Option ℕ)
remaining none now_ms = ok none
remaining (some deadline) now_ms =
    if leb deadline now_ms then err self_destruct_expired else ok (some (deadline - now_ms))

abbrev pub arm : ℕ → Option ℕ → SelfDestructingMessage → SelfDestructingMessage
arm monotonic_ms none m = m
arm monotonic_ms (some window_ms) m = spawn_expiry_timer monotonic_ms window_ms m

-- The first argument says whether the system locks the key's pages.
unfoldable pub restore :
    Bool
    → PersistedSelfDestructState
    → WatermarkStore
    → ℕ
    → ℕ
    → ProtoResult SelfDestructingMessage × WatermarkStore
unfolding remaining new_key spawn_expiry_timer check_clock_integrity
restore lock state store now_ms monotonic_ms =
    let (check, store') = check_clock_integrity store now_ms in
    (
      elim check [
        | rollback_detected watermark_ms observed_ms ↦
            err (clock_rollback_detected observed_ms watermark_ms)
        | in_order ↦ do
          left ← remaining state.expires_at_ms now_ms
          ok (
              arm monotonic_ms left (record {
                ciphertext = state.ciphertext;
                key = new_key lock state.key_bytes;
                mode = state.mode;
                expires_at_ms = state.expires_at_ms;
                timer = none;
              }))
      ],
      store',
    )
