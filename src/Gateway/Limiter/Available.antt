-- ===== src/Gateway/Limiter/Available.antt =====
-- The tokens that a request finds, and how a request changes them.
use Prim.Native.Nat.{max}
use parda.Base.{
  ℕ, ◌+◌, ◌-◌, ◌*◌, ◌≤◌, ◌≡◌, refl, ap, false, Option, none, some, arith, Bytes, bytes_key, length,
  ltb, leb, if◌then◌else◌, ◌==◌, Bool-cases, Option-cases, inl, inr,
}
use parda.HashMap.{
  lookup, insert, Distinct, passing, lookup-insert, lookup-keep_if, insert-Distinct,
  keep_if-Distinct,
}
use parda.Gateway.Limiter.{
  one_token, max_buckets, Bucket, RateLimiter, new, is_refilling, evict, bucket_of, refilled,
  try_acquire,
}

-- The tokens that a request for the key would find.
pub available : RateLimiter → Bytes → ℕ → ℕ
unfolding refilled
available l key now = refilled l now (bucket_of l.capacity now (lookup key l.buckets))

-- The rate is at least the floor that the eviction puts under it, of a token in 1000 seconds.
abbrev pub Fast : RateLimiter → Type 0
Fast l = l.scale ≤ l.per_second * 1_000

pub mul_mono : (a b r : ℕ) → a ≤ b → a * r ≤ b * r
mul_mono a b r h = grind arith

floor_unused : (r s : ℕ) → s ≤ r * 1_000 → max (r * 1_000) s ≡ r * 1_000
floor_unused r s h = omega arith

full_in : (t r s c : ℕ) → s ≤ r * 1_000 → c * 1_000 ≤ t * max (r * 1_000) s → c ≤ t * r
full_in t r s c h full =
    let unused = ap (λ (m : ℕ). t * m) (floor_unused r s h) in grind (arith, unused)

refilled_full :
    (l : RateLimiter) (now later : ℕ) (key : Bytes) (b : Bucket)
    → Fast l
    → now ≤ later
    → is_refilling l now (key, b) ≡ false
    → refilled l later b ≡ l.capacity
unfolding refilled
refilled_full l now later key b fast h full =
    let enough =
      full_in (now - b.last_refill) l.per_second l.scale l.capacity fast (ground arith) in
    let more = mul_mono (now - b.last_refill) (later - b.last_refill) l.per_second (omega arith) in
    omega (arith, enough, more)

passing-refilled :
    (l : RateLimiter) (now later : ℕ) (key : Bytes) (found : Option Bucket)
    → Fast l
    → now ≤ later
    → refilled l later (bucket_of l.capacity later (passing (is_refilling l now) key found))
      ≡ refilled l later (bucket_of l.capacity later found)
unfolding refilled
passing-refilled l now later key none fast h = refl
passing-refilled l now later key (some b) fast h = elim (Bool-cases (is_refilling l now (key, b))) [
  | inl e ↦ rw (e)
  | inr e ↦ ground (arith, refilled_full l now later key b fast h e)
]

mul_split : (a b c r : ℕ) → a ≤ b + c → a * r ≤ b * r + c * r
mul_split a b c r h = grind (arith, mul_mono a (b + c) r h)

refilled_later :
    (l : RateLimiter) (start now : ℕ) (b : Bucket)
    → start ≤ now
    → refilled l now b ≤ refilled l start b + (now - start) * l.per_second
unfolding refilled
refilled_later l start now b h = omega (
  arith,
  mul_split (now - b.last_refill) (start - b.last_refill) (now - start) l.per_second (omega arith),
)

-- Dropping a bucket that is full again changes what no request finds.
available-evict :
    (l : RateLimiter) (now later : ℕ) (key : Bytes)
    → Fast l
    → Distinct l.buckets
    → now ≤ later
    → available (evict now l) key later ≡ available l key later
unfolding available evict refilled
available-evict l now later key fast d h = elim (Bool-cases (ltb max_buckets (length l.buckets))) [
  | inl e ↦
      rw (e, lookup-keep_if (is_refilling l now) key l.buckets d)
        (passing-refilled l now later key (lookup key l.buckets) fast h)
  | inr e ↦ rw (e)
]

abbrev pub spend : ℕ → ℕ → ℕ
spend scale tokens = if leb (one_token scale) tokens then tokens - one_token scale else tokens

abbrev pub spent : ℕ → ℕ → ℕ → Bucket
spent scale now tokens = record { tokens = spend scale tokens; last_refill = now }

available-insert :
    (l : RateLimiter) (key other : Bytes) (b : Bucket) (later : ℕ)
    → available (record l { buckets = insert key b l.buckets }) other later
      ≡ (if key == other then refilled l later b else available l other later)
unfolding available refilled
available-insert l key other b later = elim (Bool-cases (key == other)) [
  | inl e ↦ rw (e, lookup-insert key other b l.buckets, e)
  | inr e ↦ rw (e, lookup-insert key other b l.buckets, e)
]

refilled-evict :
    (l : RateLimiter) (now later : ℕ) (b : Bucket)
    → refilled (evict now l) later b ≡ refilled l later b
unfolding refilled evict
refilled-evict l now later b = elim (Bool-cases (ltb max_buckets (length l.buckets))) [
  | inl e ↦ rw (e)
  | inr e ↦ rw (e)
]

-- Whether a request is accepted depends on the tokens it finds.
pub accepted-try_acquire :
    (key : Bytes) (now : ℕ) (l : RateLimiter)
    → Fast l
    → Distinct l.buckets
    → (try_acquire key now l).0 ≡ leb (one_token l.scale) (available l key now)
unfolding try_acquire available
accepted-try_acquire key now l fast d =
    ap (leb (one_token l.scale)) (available-evict l now now key fast d (omega arith))

-- A request changes what its own key finds, and nothing else.
pub available-try_acquire :
    (key other : Bytes) (now later : ℕ) (l : RateLimiter)
    → Fast l
    → Distinct l.buckets
    → now ≤ later
    → available (try_acquire key now l).1 other later ≡ (
        if key == other
        then refilled l later (spent l.scale now (available l key now))
        else available l other later)
unfolding try_acquire available
available-try_acquire key other now later l fast d h = rw (
  available-insert (evict now l) key other (spent l.scale now (available (evict now l) key now))
      later,
  available-evict l now now key fast d (omega arith),
  available-evict l now later other fast d h,
  refilled-evict l now later (spent l.scale now (available l key now)),
)

evict-Distinct : (now : ℕ) (l : RateLimiter) → Distinct l.buckets → Distinct (evict now l).buckets
unfolding evict
evict-Distinct now l d = ground (arith, keep_if-Distinct (is_refilling l now) l.buckets d)

pub Distinct-try_acquire :
    (key : Bytes) (now : ℕ) (l : RateLimiter)
    → Distinct l.buckets
    → Distinct (try_acquire key now l).1.buckets
unfolding try_acquire available
Distinct-try_acquire key now l d =
    insert-Distinct key (spent l.scale now (available (evict now l) key now)) (evict now l).buckets
      (evict-Distinct now l d)

-- The rates never change.
pub rates-try_acquire :
    (key : Bytes) (now : ℕ) (l : RateLimiter)
    → ((try_acquire key now l).1.capacity ≡ l.capacity)
      × ((try_acquire key now l).1.per_second ≡ l.per_second)
      × ((try_acquire key now l).1.scale ≡ l.scale)
unfolding try_acquire evict
rates-try_acquire key now l = elim (Bool-cases (ltb max_buckets (length l.buckets))) [
  | inl e ↦ rw (e) (refl, refl, refl)
  | inr e ↦ rw (e) (refl, refl, refl)
]

pub available-new :
    (capacity per_second scale now : ℕ) (key : Bytes)
    → available (new capacity per_second scale) key now ≡ capacity * one_token scale
unfolding new available refilled
available-new capacity per_second scale now key = omega arith

pub available_later :
    (l : RateLimiter) (start now : ℕ) (key : Bytes)
    → start ≤ now
    → available l key now ≤ available l key start + (now - start) * l.per_second
unfolding available refilled
available_later l start now key h = elim (Option-cases (lookup key l.buckets)) [
  | inl e ↦ rw (e) (ground arith)
  | inr (b, e) ↦ rw (e) (refilled_later l start now b h)
]

-- The tokens left after a request, and the one it was given, are at most those it found.
pub spend_pays :
    (l : RateLimiter) (now tokens : ℕ)
    → (if leb (one_token l.scale) tokens then 1 else 0) * one_token l.scale
        + refilled l now (spent l.scale now tokens)
      ≤ tokens
unfolding refilled
spend_pays l now tokens = elim (Bool-cases (leb (one_token l.scale) tokens)) [
  | inl e ↦ rw (e) (ground arith)
  | inr e ↦ rw (e) (ground arith)
]
