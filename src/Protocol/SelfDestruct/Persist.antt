-- ===== src/Protocol/SelfDestruct/Persist.antt =====
-- Restart survival: what `restore` gives back, when it refuses, and when the message it gives back
-- goes dark.
use parda.Base.{
  ℕ, Bool, ◌+◌, ◌-◌, ◌≤◌, ◌<◌, ◌≡◌, ap, ◌∙◌, ◌↔◌, inl, inr, true, Option, none, some, List, arith,
  Option-cases,
}
use parda.Result.{ok, err, is_ok}
use parda.Protocol.Error.{self_destruct_expired}
use parda.Protocol.ClockGuard.{WatermarkStore}
use parda.Protocol.SelfDestruct.{
  Crypto, SelfDestructingMessage, PersistedSelfDestructState, open_message,
}
use parda.Protocol.SelfDestruct.Restore.{export_for_persistence, restore}
use parda.Protocol.SelfDestruct.Run.{Event, run, start, elapsed}
use parda.Protocol.SelfDestruct.Run.Deadline.{run_gone, start-Due, start-monotonic}

-- The reading is not below the watermark.
abbrev pub InOrder : WatermarkStore → ℕ → Type 0
InOrder none now_ms = Unit {0}
InOrder (some watermark_ms) now_ms = watermark_ms ≤ now_ms

-- The deadline, if there is one, lies ahead.
abbrev pub Ahead : Option ℕ → ℕ → Type 0
Ahead none now_ms = Unit {0}
Ahead (some deadline) now_ms = now_ms < deadline

-- A restart brings a message back exactly when the clock has not been rolled back and the
-- deadline, if there is one, has not passed.
pub restore_iff :
    (lock : Bool) (state : PersistedSelfDestructState) (store : WatermarkStore)
    (now_ms monotonic_ms : ℕ)
    → (is_ok (restore lock state store now_ms monotonic_ms).0 ≡ true)
      ↔ InOrder store now_ms × Ahead state.expires_at_ms now_ms
unfolding restore
restore_iff lock state none now_ms monotonic_ms = ground arith
restore_iff lock state (some w) now_ms monotonic_ms = ground arith

-- The timer that `restore` arms.
abbrev rest_of_window : Option ℕ → ℕ → ℕ → Option ℕ
rest_of_window none now_ms monotonic_ms = none
rest_of_window (some deadline) now_ms monotonic_ms = some (monotonic_ms + (deadline - now_ms))

restore_fields :
    (lock : Bool) (state : PersistedSelfDestructState) (store : WatermarkStore)
    (now_ms monotonic_ms : ℕ) (m : SelfDestructingMessage)
    → (restore lock state store now_ms monotonic_ms).0 ≡ ok m
    → (m.ciphertext ≡ state.ciphertext)
      × (m.key.held ≡ some state.key_bytes)
      × (m.mode ≡ state.mode)
      × (m.expires_at_ms ≡ state.expires_at_ms)
      × (m.timer ≡ rest_of_window state.expires_at_ms now_ms monotonic_ms)
unfolding restore
restore_fields lock state none now_ms monotonic_ms m r = ground arith
restore_fields lock state (some w) now_ms monotonic_ms m r = ground arith

open_fields :
    (x : Crypto) (m m' : SelfDestructingMessage)
    → m'.ciphertext ≡ m.ciphertext
    → m'.key.held ≡ m.key.held
    → (open_message x m').0 ≡ (open_message x m).0
unfolding open_message
open_fields x m m' c h = ground arith

-- What comes back from an exported message holds the same key over the same ciphertext in the same
-- mode, so every reading of it returns what a reading of the exported message would; and its
-- timer, if the message had a deadline, is armed for what was left of the wall-clock window.
pub restore-export :
    (lock : Bool) (x : Crypto) (m m' : SelfDestructingMessage) (state : PersistedSelfDestructState)
    (store : WatermarkStore) (now_ms monotonic_ms : ℕ)
    → export_for_persistence m ≡ ok state
    → (restore lock state store now_ms monotonic_ms).0 ≡ ok m'
    → ((open_message x m').0 ≡ (open_message x m).0)
      × (m'.mode ≡ m.mode)
      × (m'.expires_at_ms ≡ m.expires_at_ms)
      × ((deadline : ℕ)
          → m.expires_at_ms ≡ some deadline
          → m'.timer ≡ some (monotonic_ms + (deadline - now_ms)))
      × (m.expires_at_ms ≡ none → m'.timer ≡ none)
unfolding export_for_persistence
restore-export lock x m m' state store now_ms monotonic_ms e r =
    let (same_text, same_key, same_mode, same_deadline, timer) =
      restore_fields lock state store now_ms monotonic_ms m' r in
    elim (Option-cases m.key.held) [
      | inl gone ↦ absurd (ground arith)
      | inr (key, held) ↦ (
        open_fields x m m' (ground arith) (ground arith),
        ground arith,
        ground arith,
        λ deadline d. ground arith,
        λ d. ground arith,
      )
    ]

-- An erased message cannot be exported, so no restart brings it back.
pub export-gone :
    (m : SelfDestructingMessage)
    → m.key.held ≡ none
    → export_for_persistence m ≡ err self_destruct_expired
unfolding export_for_persistence
export-gone m h = ground arith

-- A message that came back is gone once the rest of its wall-clock window has passed, whatever
-- happened to it: the time that the process was down counts.
pub restored_gone :
    (lock : Bool) (x : Crypto) (state : PersistedSelfDestructState) (m : SelfDestructingMessage)
    (store store' : WatermarkStore) (now_ms monotonic_ms deadline : ℕ) (es : List Event)
    → (restore lock state store now_ms monotonic_ms).0 ≡ ok m
    → state.expires_at_ms ≡ some deadline
    → deadline ≤ now_ms + elapsed es
    → (run x (start m monotonic_ms store') es).message.key.held ≡ none
restored_gone lock x state m store store' now_ms monotonic_ms deadline es r d late =
    let (_, _, _, _, timer) = restore_fields lock state store now_ms monotonic_ms m r in
    run_gone x (monotonic_ms + (deadline - now_ms)) (start m monotonic_ms store') es
      (start-Due x m monotonic_ms _ store'
        (timer ∙ ap (λ o. rest_of_window o now_ms monotonic_ms) d))
      (omega (arith, start-monotonic x m monotonic_ms store'))
