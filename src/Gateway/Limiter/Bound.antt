-- ===== src/Gateway/Limiter/Bound.antt =====
-- How many requests a key gets through in a stretch of time, whatever the others do.
use parda.Base.{
  ℕ, ◌+◌, ◌-◌, ◌*◌, ◌≤◌, ◌≡◌, ◌&&◌, refl, ap, ◌∙◌, bytes_beq_iff, Bool, List, [], ◌∷◌, arith, Bytes,
  bytes_key, if◌then◌else◌, ◌==◌, Bool-cases, inl, inr,
}
use parda.HashMap.{Distinct}
use parda.Gateway.Limiter.{one_token, RateLimiter, refilled, try_acquire, outcomes}
use parda.Gateway.Limiter.Available.{
  Fast, available_later, spend_pays, available, spent, accepted-try_acquire, available-try_acquire,
  Distinct-try_acquire, rates-try_acquire,
}

-- The requests of the key that were accepted.
pub accepted : Bytes → List (ℕ × Bytes) → List Bool → ℕ
accepted key [] answers = 0
accepted key (r ∷ requests) [] = 0
accepted key ((now, k) ∷ requests) (answer ∷ answers) =
    (if k == key && answer then 1 else 0) + accepted key requests answers

-- The times of the requests go up from the first bound to the second.
abbrev pub InWindow : ℕ → ℕ → List (ℕ × Bytes) → Type 0
InWindow start end [] = start ≤ end
InWindow start end ((now, key) ∷ requests) = (start ≤ now) × InWindow now end requests

start≤end :
    (start end : ℕ) (requests : List (ℕ × Bytes)) → InWindow start end requests → start ≤ end
start≤end start end [] w = w
start≤end start end ((now, key) ∷ requests) w = omega (arith, w.0, start≤end now end requests w.1)

sum_mul :
    (start now end r : ℕ)
    → start ≤ now
    → now ≤ end
    → (now - start) * r + (end - now) * r ≡ (end - start) * r
sum_mul start now end r h h' = grind arith

-- Where the rate is at least a thousandth of a token a second, every bucket stands once and the requests' times go up from a start to
-- an end, the accepted requests of a key cost at most the tokens it has at the start and those
-- that its rate gives until the end, whatever the other keys ask for.
pub accepted-outcomes :
    (key : Bytes) (start end : ℕ) (l : RateLimiter) (requests : List (ℕ × Bytes))
    → Fast l
    → Distinct l.buckets
    → InWindow start end requests
    → accepted key requests (outcomes l requests) * one_token l.scale
      ≤ available l key start + (end - start) * l.per_second
unfolding accepted outcomes
accepted-outcomes key start end l [] fast d w = omega arith
accepted-outcomes key start end l ((now, k) ∷ requests) fast d w =
    let l' = (try_acquire k now l).1 in
    let rates = rates-try_acquire k now l in
    let rest =
      accepted-outcomes key now end l' requests (rw (rates.1, rates.2) fast)
        (Distinct-try_acquire k now l d) w.1 in
    let price = ap (λ n. accepted key requests (outcomes l' requests) * one_token n) rates.2 in
    let rate = ap (λ r. (end - now) * r) rates.1 in
    let found = available-try_acquire k key now now l fast d (omega arith) in
    let later = available_later l start now key w.0 in
    let time = sum_mul start now end l.per_second w.0 (start≤end now end requests w.1) in
    let pays = spend_pays l now (available l k now) in
    elim (Bool-cases (k == key)) [
      | inl e ↦
          let found' : available l' key now
              ≡ refilled l now (spent l.scale now (available l k now)) =
            found ∙ rw (e) refl in
          let same = ap (λ j. available l j now) ((bytes_beq_iff k key).0 e) in
          rw (e, accepted-try_acquire k now l fast d)
            (omega (arith, rest, price, rate, found', later, time, pays, same))
      | inr e ↦
          let found' : available l' key now ≡ available l key now = found ∙ rw (e) refl in
          rw (e) (omega (arith, rest, price, rate, found', later, time))
    ]
