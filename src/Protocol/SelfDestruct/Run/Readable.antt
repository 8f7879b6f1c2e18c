-- ===== src/Protocol/SelfDestruct/Run/Readable.antt =====
-- A sealed message is there until its deadline, unless a reading or a call erased it.
use parda.Base.{
  ℕ, ◌+◌, ◌≤◌, ◌<◌, ◌≡◌, ◌≢◌, ◌⊎◌, inl, inr, Option, none, some, List, [], ◌∷◌, ◌++◌, ◌%◌, arith,
  Bytes, length, take, drop, All, take-append, drop-append, length-append, Option-cases,
}
use mathlib.Core.Path.{subst}
use parda.Result.{ok, Result-cases}
use parda.Protocol.ClockGuard.{WatermarkStore}
use parda.Protocol.Envelope.{u64_mod}
use parda.Protocol.SelfDestruct.{
  Crypto, Env, SelfDestructingMessage, DestructMode, time_bound, read_triggered, combined, seal,
  seal_inner, seal_combined, seal_read_triggered, open_message, decrypt_held, nonce_len, derive_key,
}
use parda.Protocol.SelfDestruct.Run.{
  World, Event, opens, opens_guarded, expires, advances, step, run, start, elapsed,
}
use parda.Protocol.SelfDestruct.Run.Deadline.{run-monotonic, start-monotonic}

-- The AEAD opens what it sealed under the same key and nonce.
abbrev pub Opens : Crypto → Type 0
Opens x =
    (key nonce plaintext ciphertext : Bytes)
    → x.encrypt key nonce plaintext ≡ some ciphertext
    → x.decrypt key nonce ciphertext ≡ some plaintext

-- An event that erases no key before the deadline, in this mode.
abbrev pub Harmless : DestructMode → Event → Type 0
Harmless mode opens = mode ≡ time_bound
Harmless mode (opens_guarded wall_ms) = ⊥
Harmless mode expires = ⊥
Harmless mode (advances n) = Unit {0}

abbrev Before : ℕ → Option ℕ → Type 0
Before now_ms none = Unit {0}
Before now_ms (some deadline) = now_ms < deadline

Before-mono : (n m : ℕ) (timer : Option ℕ) → n ≤ m → Before m timer → Before n timer
Before-mono n m none h b = tt
Before-mono n m (some deadline) h b = omega arith

module _ (x : Crypto) where
  -- Readable, in its mode, with its timer.
  Live : Bytes → DestructMode → Option ℕ → World → Type 0
  Live plaintext mode timer w =
      (decrypt_held x w.message ≡ ok plaintext)
      × (w.message.mode ≡ mode)
      × (w.message.timer ≡ timer)

  step-Live :
      (plaintext : Bytes) (mode : DestructMode) (timer : Option ℕ) (w : World) (e : Event)
      → Harmless mode e
      → Before (step x w e).0.monotonic_ms timer
      → Live plaintext mode timer w
      → Live plaintext mode timer (step x w e).0
  unfolding step Live
  step-Live plaintext mode timer w opens h b l = ground arith
  step-Live plaintext mode timer w (opens_guarded wall_ms) h b l = elim h [ ]
  step-Live plaintext mode timer w expires h b l = elim h [ ]
  step-Live plaintext mode timer w (advances n) h b l = ground arith

  run-Live :
      (plaintext : Bytes) (mode : DestructMode) (timer : Option ℕ) (w : World) (es : List Event)
      → All (Harmless mode) es
      → Before (run x w es).monotonic_ms timer
      → Live plaintext mode timer w
      → Live plaintext mode timer (run x w es)
  unfolding run
  run-Live plaintext mode timer w [] h b l = l
  run-Live plaintext mode timer w (e ∷ es) h b l =
      run-Live plaintext mode timer (step x w e).0 es h.1 b (
        step-Live plaintext mode timer w e h.0
          (Before-mono _ _ timer (omega (arith, run-monotonic x (step x w e).0 es)) b) l)

  -- The three ways to seal.
  abbrev pub SealedAs : Env → Bytes → ℕ → ℕ → SelfDestructingMessage → Type 0
  SealedAs env plaintext timestamp_ms window m =
      (seal x env plaintext timestamp_ms window ≡ ok m)
      ⊎ (seal_read_triggered x env plaintext timestamp_ms ≡ ok m)
      ⊎ (seal_combined x env plaintext timestamp_ms window ≡ ok m)

  take-nonce : (nonce ct : Bytes) → length nonce ≡ nonce_len → take nonce_len (nonce ++ ct) ≡ nonce
  take-nonce nonce ct h = subst (λ k. take k (nonce ++ ct) ≡ nonce) h (take-append nonce ct)

  drop-nonce : (nonce ct : Bytes) → length nonce ≡ nonce_len → drop nonce_len (nonce ++ ct) ≡ ct
  drop-nonce nonce ct h = subst (λ k. drop k (nonce ++ ct) ≡ ct) h (drop-append nonce ct)

  seal_inner-decrypts :
      (env : Env) (plaintext : Bytes) (mode : DestructMode) (timestamp_ms window : ℕ)
      (m : SelfDestructingMessage)
      → Opens x
      → length env.nonce ≡ nonce_len
      → seal_inner x env plaintext mode timestamp_ms window ≡ ok m
      → (decrypt_held x m ≡ ok plaintext) × (m.mode ≡ mode) × (m.timer ≡ none)
  unfolding seal_inner decrypt_held
  seal_inner-decrypts env plaintext mode timestamp_ms window m law h12 h =
      let key = derive_key x env.seed mode timestamp_ms window in
      elim (Option-cases (x.encrypt key env.nonce plaintext)) [
        | inl p ↦ absurd (ground arith)
        | inr (ct, p) ↦ ground (
          arith,
          law key env.nonce plaintext ct p,
          take-nonce env.nonce ct h12,
          drop-nonce env.nonce ct h12,
          length-append env.nonce ct,
        )
      ]

  -- No deadline in the read-triggered mode, the window's end in the others.
  abbrev Timed : Env → ℕ → SelfDestructingMessage → Type 0
  Timed env window m =
      (m.mode ≡ read_triggered) × (m.timer ≡ none)
      ⊎ (m.mode ≢ read_triggered) × (m.timer ≡ some (env.monotonic_ms + window))

  sealed-decrypts :
      (env : Env) (plaintext : Bytes) (timestamp_ms window : ℕ) (m : SelfDestructingMessage)
      → Opens x
      → length env.nonce ≡ nonce_len
      → SealedAs env plaintext timestamp_ms window m
      → (decrypt_held x m ≡ ok plaintext) × Timed env window m
  unfolding seal seal_read_triggered seal_combined decrypt_held
  sealed-decrypts env plaintext ts window m law h12 (inl h) =
      elim (Result-cases (seal_inner x env plaintext time_bound ts (window % u64_mod))) [
        | inl (e, p) ↦ absurd (ground arith)
        | inr (m₀, p) ↦
            ground (arith, seal_inner-decrypts env plaintext time_bound ts _ m₀ law h12 p)
      ]
  sealed-decrypts env plaintext ts window m law h12 (inr (inl h)) =
      let (d, mode, timer) = seal_inner-decrypts env plaintext read_triggered ts 0 m law h12 h in
      (d, inl (mode, timer))
  sealed-decrypts env plaintext ts window m law h12 (inr (inr h)) =
      elim (Result-cases (seal_inner x env plaintext combined ts (window % u64_mod))) [
        | inl (e, p) ↦ absurd (ground arith)
        | inr (m₀, p) ↦ ground (arith, seal_inner-decrypts env plaintext combined ts _ m₀ law h12 p)
      ]

  start-Live :
      (m : SelfDestructingMessage) (plaintext : Bytes) (now_ms : ℕ) (store : WatermarkStore)
      → Before now_ms m.timer
      → decrypt_held x m ≡ ok plaintext
      → Live plaintext m.mode m.timer (start m now_ms store)
  unfolding start Live
  start-Live m plaintext now_ms store b h = ground arith

  Timed→Before :
      (env : Env) (window n : ℕ) (m : SelfDestructingMessage)
      → Timed env window m
      → (m.mode ≡ read_triggered) ⊎ (n < window)
      → Before (env.monotonic_ms + n) m.timer
  Timed→Before env window n m t h = ground arith

  Live-open :
      (plaintext : Bytes) (mode : DestructMode) (timer : Option ℕ) (w : World)
      → Live plaintext mode timer w
      → (open_message x w.message).0 ≡ ok plaintext
  unfolding Live open_message
  Live-open plaintext mode timer w l = ground arith

  -- Where the AEAD opens what it sealed and the nonce has its 12 bytes, a sealed message reads
  -- back as its plaintext until its deadline: after any time short of the window, after any
  -- time at all if it is read-triggered, and after any number of readings before that one if it
  -- is time-bound.
  pub sealed_readable :
      (env : Env) (plaintext : Bytes) (timestamp_ms window : ℕ) (m : SelfDestructingMessage)
      (store : WatermarkStore) (es : List Event)
      → Opens x
      → length env.nonce ≡ nonce_len
      → SealedAs env plaintext timestamp_ms window m
      → All (Harmless m.mode) es
      → (m.mode ≡ read_triggered) ⊎ (elapsed es < window)
      → (open_message x (run x (start m env.monotonic_ms store) es).message).0 ≡ ok plaintext
  sealed_readable env plaintext ts window m store es law h12 h harmless early =
      let (d, timed) = sealed-decrypts env plaintext ts window m law h12 h in
      let w = start m env.monotonic_ms store in
      let before = Timed→Before env window (elapsed es) m timed early in
      Live-open plaintext m.mode m.timer (run x w es) (
        run-Live plaintext m.mode m.timer w es harmless
          (Before-mono _ _ m.timer
            (omega (arith, run-monotonic x w es, start-monotonic x m env.monotonic_ms store))
            before)
          (start-Live m plaintext env.monotonic_ms store
            (Before-mono _ _ m.timer (omega arith) before) d))
