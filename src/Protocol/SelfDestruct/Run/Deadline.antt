-- ===== src/Protocol/SelfDestruct/Run/Deadline.antt =====
-- Expiry: a message with a timer is gone by its deadline.
use parda.Base.{ℕ, ◌+◌, ◌≤◌, ◌<◌, ◌≡◌, refl, ◌⊎◌, inl, inr, none, some, List, [], ◌∷◌, arith, Bytes}
use parda.Result.{ok}
use parda.Protocol.ClockGuard.{WatermarkStore}
use parda.Protocol.SelfDestruct.{Crypto, Env, SelfDestructingMessage, seal, seal_combined}
use parda.Protocol.SelfDestruct.Run.{
  World, Event, opens, opens_guarded, expires, advances, step, run, start, elapsed,
}

-- The key is gone, or the timer is armed and its deadline lies ahead.
abbrev pub Due : ℕ → World → Type 0
Due deadline w =
    (w.message.key.held ≡ none) ⊎ (w.message.timer ≡ some deadline) × (w.monotonic_ms < deadline)

module _ (x : Crypto) where
  step-Due : (deadline : ℕ) (w : World) (e : Event) → Due deadline w → Due deadline (step x w e).0
  unfolding step
  step-Due deadline w opens h = ground arith
  step-Due deadline w (opens_guarded wall_ms) h = ground arith
  step-Due deadline w expires h = ground arith
  step-Due deadline w (advances n) h = ground arith

  run-Due :
      (deadline : ℕ) (w : World) (es : List Event) → Due deadline w → Due deadline (run x w es)
  unfolding run
  run-Due deadline w [] h = h
  run-Due deadline w (e ∷ es) h = run-Due deadline (step x w e).0 es (step-Due deadline w e h)

  step-monotonic :
      (w : World) (e : Event) → (step x w e).0.monotonic_ms ≡ w.monotonic_ms + elapsed (e ∷ [])
  unfolding step
  step-monotonic w opens = ground arith
  step-monotonic w (opens_guarded wall_ms) = ground arith
  step-monotonic w expires = ground arith
  step-monotonic w (advances n) = ground arith

  elapsed-cons : (e : Event) (es : List Event) → elapsed (e ∷ es) ≡ elapsed (e ∷ []) + elapsed es
  elapsed-cons opens es = omega arith
  elapsed-cons (opens_guarded wall_ms) es = omega arith
  elapsed-cons expires es = omega arith
  elapsed-cons (advances n) es = omega arith

  pub run-monotonic :
      (w : World) (es : List Event) → (run x w es).monotonic_ms ≡ w.monotonic_ms + elapsed es
  unfolding run
  run-monotonic w [] = omega arith
  run-monotonic w (e ∷ es) =
      omega (arith, run-monotonic (step x w e).0 es, step-monotonic w e, elapsed-cons e es)

  pub run_gone :
      (deadline : ℕ) (w : World) (es : List Event)
      → Due deadline w
      → deadline ≤ w.monotonic_ms + elapsed es
      → (run x w es).message.key.held ≡ none
  run_gone deadline w es h late = elim (run-Due deadline w es h) [
    | inl gone ↦ gone
    | inr (armed, ahead) ↦ absurd (omega (arith, run-monotonic w es))
  ]

  pub start-Due :
      (m : SelfDestructingMessage) (monotonic_ms deadline : ℕ) (store : WatermarkStore)
      → m.timer ≡ some deadline
      → Due deadline (start m monotonic_ms store)
  unfolding start
  start-Due m monotonic_ms deadline store h = ground arith

  pub start-monotonic :
      (m : SelfDestructingMessage) (monotonic_ms : ℕ) (store : WatermarkStore)
      → (start m monotonic_ms store).monotonic_ms ≡ monotonic_ms
  unfolding start
  start-monotonic m monotonic_ms store = refl

  sealed-timer :
      (env : Env) (plaintext : Bytes) (timestamp_ms window : ℕ) (m : SelfDestructingMessage)
      → (seal x env plaintext timestamp_ms window ≡ ok m)
        ⊎ (seal_combined x env plaintext timestamp_ms window ≡ ok m)
      → m.timer ≡ some (env.monotonic_ms + window)
  unfolding seal seal_combined
  sealed-timer env plaintext timestamp_ms window m (inl h) = ground arith
  sealed-timer env plaintext timestamp_ms window m (inr h) = ground arith

  -- A time-bound or combined message is gone once its window has passed on the monotonic clock since
  -- it was sealed, whatever else happened to it and whatever the wall clock showed.
  pub sealed_gone :
      (env : Env) (plaintext : Bytes) (timestamp_ms window : ℕ) (m : SelfDestructingMessage)
      (store : WatermarkStore) (es : List Event)
      → (seal x env plaintext timestamp_ms window ≡ ok m)
        ⊎ (seal_combined x env plaintext timestamp_ms window ≡ ok m)
      → window ≤ elapsed es
      → (run x (start m env.monotonic_ms store) es).message.key.held ≡ none
  sealed_gone env plaintext timestamp_ms window m store es h late =
      run_gone (env.monotonic_ms + window) _ es
        (start-Due m env.monotonic_ms _ store (sealed-timer env plaintext timestamp_ms window m h))
        (omega (arith, start-monotonic m env.monotonic_ms store))
