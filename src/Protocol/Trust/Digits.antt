-- ===== src/Protocol/Trust/Digits.antt =====
-- The printed safety number: twelve groups of five decimal digits.
use parda.Base.{
  ℕ, zero, suc, ◌+◌, ◌-◌, ◌*◌, ◌%◌, ◌≤◌, ◌<◌, ◌≡◌, refl, ap, ◌∙◌, ◌⊎◌, inl, inr, List, [], ◌∷◌,
  arith, Bytes, length, length-append, All, All-append,
}
use parda.Protocol.Trust.{groups, group, join, digits, five_digits, chunk_value, fingerprint_len}

-- The number that ASCII digits spell.
abbrev pub decimal : ℕ → Bytes → ℕ
decimal acc [] = acc
decimal acc (c ∷ cs) = decimal (acc * 10 + (c - 48)) cs

abbrev pub IsDigit : ℕ → Type 0
IsDigit c = (48 ≤ c) × (c ≤ 57)

abbrev pub IsGroup : Bytes → Type 0
IsGroup g = (length g ≡ 5) × All IsDigit g

five_digits-IsGroup : (n : ℕ) → IsGroup (five_digits n)
unfolding five_digits
five_digits-IsGroup n = omega arith

decimal-five_digits : (n : ℕ) → n < 100000 → decimal 0 (five_digits n) ≡ n
unfolding five_digits
decimal-five_digits n h = omega arith

spelled :
    (a b c d e : ℕ)
    → chunk_value 0 (a ∷ b ∷ c ∷ d ∷ e ∷ []) ≡ (((a * 256 + b) * 256 + c) * 256 + d) * 256 + e
unfolding chunk_value
spelled a b c d e = omega arith

digits-or-space : (g : Bytes) → All IsDigit g → All (λ c. IsDigit c ⊎ (c ≡ 32)) g
digits-or-space [] h = tt
digits-or-space (c ∷ g) h = (inl h.0, digits-or-space g h.1)

-- A printed group spells its five bytes' big-endian value, less what passes five decimal digits.
pub decimal-group :
    (a b c d e : ℕ)
    → decimal 0 (group a b c d e) ≡ ((((a * 256 + b) * 256 + c) * 256 + d) * 256 + e) % 100000
unfolding group
decimal-group a b c d e =
    let value = chunk_value 0 (a ∷ b ∷ c ∷ d ∷ e ∷ []) in
    decimal-five_digits (value % 100000) (omega arith)
    ∙ ap (λ (t : ℕ). t % 100000) (spelled a b c d e)

groups-IsGroup :
    (n : ℕ) (bytes : Bytes)
    → length bytes ≡ 5 * n
    → (length (groups bytes) ≡ n) × All IsGroup (groups bytes)
unfolding groups group
groups-IsGroup zero [] h = (refl, tt)
groups-IsGroup zero (a ∷ bytes) h = absurd (omega arith)
groups-IsGroup (suc n) (a ∷ b ∷ c ∷ d ∷ e ∷ rest) h =
    let ih = groups-IsGroup n rest (omega arith) in
    (omega (arith, ih.0), (five_digits-IsGroup _, ih.1))
groups-IsGroup (suc n) _ h = absurd (omega arith)

length-join :
    (g : Bytes) (gs : List Bytes)
    → All IsGroup (g ∷ gs)
    → (length (join (g ∷ gs)) ≡ 5 + 6 * length gs) × All (λ c. IsDigit c ⊎ (c ≡ 32)) (join (g ∷ gs))
unfolding join
length-join g [] h = (omega (arith, h.0.0), digits-or-space g h.0.1)
length-join g (k ∷ gs) h =
    let ih = length-join k gs h.1 in
    (
      omega (arith, h.0.0, ih.0, length-append g (32 ∷ join (k ∷ gs))),
      All-append _ g (32 ∷ join (k ∷ gs)) (digits-or-space g h.0.1) (inr refl, ih.1),
    )

joined :
    (gs : List Bytes)
    → length gs ≡ 12
    → All IsGroup gs
    → (length gs ≡ 12)
      × All IsGroup gs
      × (length (join gs) ≡ 71)
      × All (λ c. IsDigit c ⊎ (c ≡ 32)) (join gs)
joined [] h good = absurd (omega arith)
joined (g ∷ gs) h good =
    let (long, chars) = length-join g gs good in (h, good, omega (arith, long), chars)

-- The safety number of a 60-byte fingerprint has 71 characters: digits, and the spaces that
-- separate twelve groups of five.
pub digits_lem :
    (fingerprint : Bytes)
    → length fingerprint ≡ fingerprint_len
    → (length (groups fingerprint) ≡ 12)
      × All IsGroup (groups fingerprint)
      × (length (digits fingerprint) ≡ 71)
      × All (λ c. IsDigit c ⊎ (c ≡ 32)) (digits fingerprint)
unfolding digits
digits_lem fingerprint h =
    let (twelve, good) = groups-IsGroup 12 fingerprint h in joined (groups fingerprint) twelve good
