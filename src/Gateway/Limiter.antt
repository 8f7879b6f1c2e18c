-- ===== src/Gateway/Limiter.antt =====
-- gateway/src/auth.rs, RateLimiter: a token bucket for each key. The floating-point numbers are
-- taken as exact: times are nanoseconds, and a rate, as every finite `f64` that is not negative, is a
-- fraction, of `per_second / scale` tokens a second. Tokens are counted in units of `1 / (10 ^ 9 * scale)`, so that
-- `elapsed * per_second` is a whole number of units.
pub mod Available
pub mod Ideal
pub mod Bound
use Prim.Native.Nat.{max}
use parda.Base.{
  ℕ, ◌+◌, ◌-◌, ◌*◌, min, Bool, true, false, Option, none, some, List, [], ◌∷◌, Bytes, bytes_key,
  length, ltb, leb, if◌then◌else◌, keep_if,
}
use parda.HashMap.{HashMap, lookup, insert}

-- The units of one token.
abbrev pub one_token : ℕ → ℕ
one_token scale = 1_000_000_000 * scale

abbrev pub max_buckets : ℕ
max_buckets = 10_000

pub record Bucket : Type 0 where
  pub tokens : ℕ
  pub last_refill : ℕ

pub record RateLimiter : Type 0 where
  pub capacity : ℕ
  pub per_second : ℕ
  pub scale : ℕ
  pub buckets : HashMap Bytes Bucket

unfoldable pub new : ℕ → ℕ → ℕ → RateLimiter
new capacity per_second scale = record {
  capacity = capacity * one_token scale;
  per_second = per_second;
  scale = scale;
  buckets = [];
}

-- `now.duration_since(last_refill) < capacity / per_second.max(0.001)`, multiplied out
abbrev pub is_refilling : RateLimiter → ℕ → Bytes × Bucket → Bool
is_refilling l now (key, b) =
    ltb ((now - b.last_refill) * max (l.per_second * 1_000) l.scale) (l.capacity * 1_000)

pub evict : ℕ → RateLimiter → RateLimiter
evict now l =
    if ltb max_buckets (length l.buckets)
    then record l { buckets = keep_if (is_refilling l now) l.buckets }
    else l

-- `entry(key).or_insert(full)`
abbrev pub bucket_of : ℕ → ℕ → Option Bucket → Bucket
bucket_of capacity now none = record { tokens = capacity; last_refill = now }
bucket_of capacity now (some b) = b

unfoldable pub refilled : RateLimiter → ℕ → Bucket → ℕ
refilled l now b = min (b.tokens + (now - b.last_refill) * l.per_second) l.capacity

unfoldable pub try_acquire : Bytes → ℕ → RateLimiter → Bool × RateLimiter
unfolding evict refilled
try_acquire key now l₀ =
    let l = evict now l₀ in
    let tokens = refilled l now (bucket_of l.capacity now (lookup key l.buckets)) in
    let accepted = leb (one_token l₀.scale) tokens in
    let left = if accepted then tokens - one_token l₀.scale else tokens in
    (
      accepted,
      record l { buckets = insert key (record { tokens = left; last_refill = now }) l.buckets },
    )

-- The answers to requests, each with its time and its key.
unfoldable pub outcomes : RateLimiter → List (ℕ × Bytes) → List Bool
outcomes l [] = []
outcomes l ((now, key) ∷ requests) =
    let (accepted, l') = try_acquire key now l in accepted ∷ outcomes l' requests
