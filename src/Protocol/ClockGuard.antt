-- ===== src/Protocol/ClockGuard.antt =====
-- protocol/src/clock_guard.rs: the persisted wall-clock watermark and the rollback check. A
-- watermark store is the value that it holds.
use parda.Base.{ℕ, ◌≤◌, ◌<◌, ◌≡◌, Option, none, some, List, [], ◌∷◌, arith, ltb, if◌then◌else◌}

abbrev pub WatermarkStore : Type 0
WatermarkStore = Option ℕ

pub data ClockCheck : Type 0 where
  in_order : ClockCheck
  rollback_detected : (watermark_ms observed_ms : ℕ) → ClockCheck

-- The check, and the store after it.
unfoldable pub check_clock_integrity : WatermarkStore → ℕ → ClockCheck × WatermarkStore
check_clock_integrity none now_ms = (in_order, some now_ms)
check_clock_integrity (some watermark_ms) now_ms =
    if ltb now_ms watermark_ms
    then (rollback_detected watermark_ms now_ms, some watermark_ms)
    else (in_order, some now_ms)

-- What the store holds after a sequence of readings.
pub checks : WatermarkStore → List ℕ → WatermarkStore
checks store [] = store
checks store (now_ms ∷ later) = checks (check_clock_integrity store now_ms).1 later

-- The watermark is at most the store's value.
abbrev pub AtLeast : ℕ → WatermarkStore → Type 0
AtLeast n none = ⊥
AtLeast n (some w) = n ≤ w

checks-AtLeast :
    (n : ℕ) (store : WatermarkStore) (readings : List ℕ)
    → AtLeast n store
    → AtLeast n (checks store readings)
unfolding checks check_clock_integrity
checks-AtLeast n store [] h = h
checks-AtLeast n none (now ∷ later) h = elim h [ ]
checks-AtLeast n (some w) (now ∷ later) h =
    ground (arith, checks-AtLeast n (some w) later, checks-AtLeast n (some now) later)

AtLeast-check :
    (n now_ms : ℕ) (store : WatermarkStore)
    → AtLeast n store
    → now_ms < n
    → (w : ℕ) × (check_clock_integrity store now_ms ≡ (rollback_detected w now_ms, store))
unfolding check_clock_integrity
AtLeast-check n now_ms (some w) h lt = (w, ground arith)
AtLeast-check n now_ms none h lt = elim h [ ]

-- Once a reading was accepted, every reading below it is reported as a rollback, whatever other
-- readings, rollbacks among them, come in between; and the report leaves the watermark as it was.
pub rollback-detected :
    (store : WatermarkStore) (accepted : ℕ) (readings : List ℕ) (now_ms : ℕ)
    → (check_clock_integrity store accepted).0 ≡ in_order
    → now_ms < accepted
    → let s = checks store (accepted ∷ readings) in
      (w : ℕ) × (check_clock_integrity s now_ms ≡ (rollback_detected w now_ms, s))
unfolding checks check_clock_integrity
rollback-detected none accepted readings now_ms h lt =
    AtLeast-check accepted now_ms _ (checks-AtLeast accepted (some accepted) readings (omega arith))
      lt
rollback-detected (some w) accepted readings now_ms h lt = ground (
  arith,
  AtLeast-check accepted now_ms (checks (some accepted) readings)
      (checks-AtLeast accepted (some accepted) readings (omega arith)) lt,
)
