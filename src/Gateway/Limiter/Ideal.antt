-- ===== src/Gateway/Limiter/Ideal.antt =====
-- The limiter without a table: every key has a bucket that was full at the start, and none is ever
-- dropped. The limiter gives the same answers.
use parda.Base.{
  ℕ, ◌+◌, ◌-◌, ◌*◌, ◌≤◌, ◌≡◌, refl, min, Bool, List, [], ◌∷◌, arith, Bytes, bytes_key, leb,
  if◌then◌else◌, ◌==◌, Bool-cases, inl, inr,
}
use parda.HashMap.{Distinct}
use parda.Gateway.Limiter.{one_token, Bucket, RateLimiter, new, refilled, try_acquire, outcomes}
use parda.Gateway.Limiter.Available.{
  Fast, available-new, available, spent, accepted-try_acquire, available-try_acquire,
  Distinct-try_acquire, rates-try_acquire,
}

abbrev pub Buckets : Type 0
Buckets = Bytes → Bucket

abbrev pub all_full : ℕ → ℕ → Buckets
all_full capacity scale key = record { tokens = capacity * one_token scale; last_refill = 0 }

pub grown : ℕ → ℕ → ℕ → Bucket → ℕ
grown capacity per_second now b = min (b.tokens + (now - b.last_refill) * per_second) capacity

abbrev pub with_bucket : Bytes → Bucket → Buckets → Buckets
with_bucket key b buckets other = if key == other then b else buckets other

pub ideal_outcomes : ℕ → ℕ → ℕ → Buckets → List (ℕ × Bytes) → List Bool
unfolding grown
ideal_outcomes capacity per_second scale buckets [] = []
ideal_outcomes capacity per_second scale buckets ((now, key) ∷ requests) =
    let tokens = grown capacity per_second now (buckets key) in
    leb (one_token scale) tokens
    ∷ ideal_outcomes capacity per_second scale (with_bucket key (spent scale now tokens) buckets)
        requests

-- The clock is monotonic: no request is earlier than the one before it.
abbrev pub InOrder : ℕ → List (ℕ × Bytes) → Type 0
InOrder start [] = Unit
InOrder start ((now, key) ∷ requests) = (start ≤ now) × InOrder now requests

abbrev Simulates : ℕ → RateLimiter → Buckets → Type 0
Simulates start l buckets =
    (key : Bytes) (later : ℕ)
    → start ≤ later
    → available l key later ≡ grown l.capacity l.per_second later (buckets key)

Simulates-step :
    (start now : ℕ) (key : Bytes) (l : RateLimiter) (buckets : Buckets)
    → Fast l
    → Distinct l.buckets
    → Simulates start l buckets
    → start ≤ now
    → Simulates now (try_acquire key now l).1 (
        with_bucket key
          (spent l.scale now (grown l.capacity l.per_second now (buckets key)))
          buckets)
unfolding grown refilled
Simulates-step start now key l buckets fast d s h other later h' =
    elim (Bool-cases (key == other)) [
      | inl e ↦ rw (
        available-try_acquire key other now later l fast d h',
        e,
        s key now h,
        (rates-try_acquire key now l).0,
        (rates-try_acquire key now l).1,
      )
      | inr e ↦ rw (
        available-try_acquire key other now later l fast d h',
        e,
        s other later (omega arith),
        (rates-try_acquire key now l).0,
        (rates-try_acquire key now l).1,
      )
    ]

outcomes-Simulates :
    (start : ℕ) (l : RateLimiter) (buckets : Buckets) (requests : List (ℕ × Bytes))
    → Fast l
    → Distinct l.buckets
    → Simulates start l buckets
    → InOrder start requests
    → outcomes l requests ≡ ideal_outcomes l.capacity l.per_second l.scale buckets requests
unfolding outcomes ideal_outcomes
outcomes-Simulates start l buckets [] fast d s o = refl
outcomes-Simulates start l buckets ((now, key) ∷ requests) fast d s o =
    let step = Simulates-step start now key l buckets fast d s o.0 in
    let rates = rates-try_acquire key now l in
    let rest =
      outcomes-Simulates now (try_acquire key now l).1
        (with_bucket key (spent l.scale now (grown l.capacity l.per_second now (buckets key)))
          buckets)
        requests (rw (rates.1, rates.2) fast) (Distinct-try_acquire key now l d) step o.1 in
    rw (accepted-try_acquire key now l fast d, s key now o.0, rest, rates.0, rates.1, rates.2)

-- Where the rate is at least a thousandth of a token a second and the clock does not go back, a new
-- limiter answers every sequence of requests as the reference does, in which every key has had a
-- full bucket from the start and no bucket is dropped.
pub outcomes-ideal :
    (capacity per_second scale : ℕ) (requests : List (ℕ × Bytes))
    → scale ≤ per_second * 1_000
    → InOrder 0 requests
    → outcomes (new capacity per_second scale) requests
      ≡ ideal_outcomes
          (capacity * one_token scale)
          per_second
          scale
          (all_full capacity scale)
          requests
unfolding new grown
outcomes-ideal capacity per_second scale requests fast o =
    outcomes-Simulates 0 (new capacity per_second scale) (all_full capacity scale) requests fast tt
      (λ key later h. rw (available-new capacity per_second scale later key) (omega arith)) o
