-- ===== src/Mesh/Transport/Claims.antt =====
-- The watermark: it moves past the claimed numbers only, and claims are never forgotten.
use parda.Base.{
  ℕ, zero, suc, ◌+◌, ◌≤◌, ◌<◌, ◌%◌, ◌^◌, ◌≡◌, refl, Bool, true, false, ◌&&◌, ◌||◌, List, [], ◌∷◌,
  ◌++◌, arith, length, length-append, ltb, not, nat_beq, contains, nat_key, Bool-cases, inl, inr,
}
use parda.Mesh.Transport.{ReceiveState, insert_claim, insert_claims, remove_claim, advance}

-- A number whose message has been delivered.
abbrev pub is_claimed : ℕ → ReceiveState → Bool
is_claimed n state = ltb n state.low_watermark || contains state.claimed_ahead n

contains-append :
    (xs ys : List ℕ) (n : ℕ) → contains (xs ++ ys) n ≡ (contains xs n || contains ys n)
contains-append [] ys n = refl
contains-append (x ∷ xs) ys n = ground (arith, contains-append xs ys n)

pub contains-insert_claims :
    (ns xs : List ℕ) (n : ℕ) → contains (insert_claims ns xs) n ≡ (contains xs n || contains ns n)
unfolding insert_claims insert_claim
contains-insert_claims [] xs n = ground arith
contains-insert_claims (m ∷ ns) xs n =
    ground (arith, contains-insert_claims ns (insert_claim m xs) n, contains-append xs (m ∷ []) n)

pub length-insert_claims : (ns xs : List ℕ) → length (insert_claims ns xs) ≤ length ns + length xs
unfolding insert_claims insert_claim
length-insert_claims [] xs = omega arith
length-insert_claims (n ∷ ns) xs =
    ground (arith, length-insert_claims ns (insert_claim n xs), length-append xs (n ∷ []))

contains-remove_claim :
    (m n : ℕ) (xs : List ℕ) → contains (remove_claim m xs) n ≡ (contains xs n && not (nat_beq n m))
unfolding remove_claim
contains-remove_claim m n [] = refl
contains-remove_claim m n (x ∷ xs) = ground (arith, contains-remove_claim m n xs)

length-remove_claim-le : (m : ℕ) (xs : List ℕ) → length (remove_claim m xs) ≤ length xs
unfolding remove_claim
length-remove_claim-le m [] = omega arith
length-remove_claim-le m (x ∷ xs) = ground (arith, length-remove_claim-le m xs)

length-remove_claim :
    (m : ℕ) (xs : List ℕ) → contains xs m ≡ true → length (remove_claim m xs) < length xs
unfolding remove_claim
length-remove_claim m [] h = cc
length-remove_claim m (x ∷ xs) h =
    ground (arith, length-remove_claim m xs, length-remove_claim-le m xs)

contains-empty : (xs : List ℕ) (n : ℕ) → length xs ≤ 0 → contains xs n ≡ false
contains-empty [] n h = refl
contains-empty (x ∷ xs) n h = ground arith

-- Where the fuel is at least the number of claims and the watermark cannot pass the 64-bit range,
-- the loop ends at an unclaimed watermark, never lower than before, and exactly the numbers that
-- were delivered before count as delivered afterwards: all below the new watermark do.
pub advance_lem :
    (fuel : ℕ) (state : ReceiveState)
    → length state.claimed_ahead ≤ fuel
    → state.low_watermark + fuel < 2 ^ 64
    → let state' = advance fuel state in
      (is_claimed state'.low_watermark state' ≡ false)
      × (state.low_watermark ≤ state'.low_watermark)
      × ((n : ℕ) → is_claimed n state' ≡ is_claimed n state)
unfolding advance
advance_lem zero state enough bound =
    (ground (arith, contains-empty state.claimed_ahead state.low_watermark), omega arith, λ n. refl)
advance_lem (suc fuel) state enough bound =
    let low = state.low_watermark in
    let ahead = state.claimed_ahead in
    let next : ReceiveState = record {
      low_watermark = (low + 1) % 2 ^ 64;
      claimed_ahead = remove_claim low ahead;
    } in
    elim (Bool-cases (contains ahead low)) [
      | inl claimed ↦
          let (unclaimed, risen, same) =
            advance_lem fuel next (ground (arith, length-remove_claim low ahead)) (omega arith) in
          rw (claimed, advance)
            (
              unclaimed,
              ground (arith, risen),
              λ n. ground (arith, same n, contains-remove_claim low n ahead),
            )
      | inr open_number ↦ rw (open_number, advance) (ground arith, omega arith, λ n. refl)
    ]
