-- ===== src/Protocol/SelfDestruct/Run/Once.antt =====
-- An erased key stays erased, and a message that erases on reading is read once.
use parda.Base.{◌≤◌, ◌≡◌, refl, true, none, List, [], ◌∷◌, arith, ◌⊎◌, inl, inr}
use parda.Protocol.SelfDestruct.{Crypto, erases_on_read}
use parda.Protocol.SelfDestruct.Run.{
  World, Event, opens, opens_guarded, expires, advances, step, success, successes,
}

module _ (x : Crypto) where
  step_gone :
      (w : World) (e : Event)
      → w.message.key.held ≡ none
      → ((step x w e).0.message.key.held ≡ none) × (success (step x w e).1 ≡ 0)
  unfolding step
  step_gone w opens h = ground arith
  step_gone w (opens_guarded wall_ms) h = ground arith
  step_gone w expires h = ground arith
  step_gone w (advances n) h = ground arith

  -- Once the key is gone, no sequence of events makes a reading succeed.
  pub successes_gone :
      (w : World) (es : List Event) → w.message.key.held ≡ none → successes x w es ≡ 0
  unfolding successes
  successes_gone w [] h = refl
  successes_gone w (e ∷ es) h =
      omega (arith, (step_gone w e h).1, successes_gone (step x w e).0 es (step_gone w e h).0)

  step_once :
      (w : World) (e : Event)
      → erases_on_read w.message.mode ≡ true
      → ((success (step x w e).1 ≡ 0) × (erases_on_read (step x w e).0.message.mode ≡ true))
        ⊎ (success (step x w e).1 ≡ 1) × ((step x w e).0.message.key.held ≡ none)
  unfolding step
  step_once w opens h = ground arith
  step_once w (opens_guarded wall_ms) h = ground arith
  step_once w expires h = ground arith
  step_once w (advances n) h = ground arith

  -- In a mode that erases on reading, at most one reading ever succeeds, whatever the order of
  -- readings, guarded readings, expiries and timer ticks.
  pub successes-le_one :
      (w : World) (es : List Event) → erases_on_read w.message.mode ≡ true → successes x w es ≤ 1
  unfolding successes
  successes-le_one w [] h = omega arith
  successes-le_one w (e ∷ es) h = elim (step_once w e h) [
    | inl (none_yet, same) ↦ omega (arith, none_yet, successes-le_one (step x w e).0 es same)
    | inr (read, gone) ↦ omega (arith, read, successes_gone (step x w e).0 es gone)
  ]
