-- ===== src/Protocol/SelfDestruct/Run.antt =====
-- Histories of one sealed message: readings, expiries and the passing of time in any order. The
-- runtime runs a due expiry task before anything that happens later.
pub mod Once
pub mod Deadline
pub mod Readable
pub mod Zeroized
use parda.Base.{
  ℕ, ◌+◌, Bool, true, false, Option, none, some, List, [], ◌∷◌, Bytes, leb, if◌then◌else◌,
}
use parda.Result.{Result, ok, err}
use parda.Protocol.Error.{ProtoResult}
use parda.Protocol.ClockGuard.{WatermarkStore}
use parda.Protocol.SelfDestruct.{
  Crypto, SelfDestructingMessage, erase, open_message, expire_now, open_with_clock_guard,
}

pub record World : Type 0 where
  pub message : SelfDestructingMessage
  pub monotonic_ms : ℕ
  pub watermark : WatermarkStore

pub data Event : Type 0 where
  opens : Event
  opens_guarded : (wall_ms : ℕ) → Event
  expires : Event
  advances : (elapsed_ms : ℕ) → Event

-- The expiry task: `sleep_until(deadline)`, then `erase`.
fire : ℕ → Option ℕ → SelfDestructingMessage → SelfDestructingMessage
unfolding erase
fire now_ms none m = m
fire now_ms (some deadline) m =
    if leb deadline now_ms then record m { key = erase m.key; timer = none } else m

pub settle : World → World
unfolding fire
settle w = record w { message = fire w.monotonic_ms w.message.timer w.message }

-- one for a reading that returned the plaintext
abbrev pub success : Option (ProtoResult Bytes) → ℕ
success none = 0
success (some (ok plaintext)) = 1
success (some (err e)) = 0

module _ (x : Crypto) where
  -- The world after an event, and what a reading returned.
  pub step : World → Event → World × Option (ProtoResult Bytes)
  unfolding open_message open_with_clock_guard expire_now settle
  step w opens = let (r, m) = open_message x w.message in (record w { message = m }, some r)
  step w (opens_guarded wall_ms) =
      let (r, m, store) = open_with_clock_guard x w.watermark wall_ms w.message in
      (record w { message = m; watermark = store }, some r)
  step w expires = (record w { message = expire_now w.message }, none)
  step w (advances elapsed_ms) =
      (settle (record w { monotonic_ms = w.monotonic_ms + elapsed_ms }), none)

  pub run : World → List Event → World
  run w [] = w
  run w (e ∷ es) = run (step w e).0 es

  pub successes : World → List Event → ℕ
  successes w [] = 0
  successes w (e ∷ es) = success (step w e).1 + successes (step w e).0 es

pub start : SelfDestructingMessage → ℕ → WatermarkStore → World
unfolding settle
start m monotonic_ms store =
    settle (record { message = m; monotonic_ms = monotonic_ms; watermark = store })

-- The time that the events take.
abbrev pub elapsed : List Event → ℕ
elapsed [] = 0
elapsed (advances n ∷ es) = n + elapsed es
elapsed (_ ∷ es) = elapsed es
