-- ===== src/Protocol/SelfDestruct/Kdf.antt =====
-- Domain separation of the derived key: the HKDF info names the mode and both times.
use native.Mathlib.Nat.{mul-add-mod_self_left, mod-eq_of_lt, pow-suc, one-le-pow, div-add-mod}
use parda.Base.{
  ℕ, zero, suc, ◌+◌, ◌*◌, ◌/◌, ◌%◌, ◌^◌, ◌<◌, ◌≡◌, refl, sym, ap, ◌∙◌, [], ◌∷◌, ◌++◌, arith, Bytes,
  length,
}
use mathlib.Core.Path.{ap₂}
use mathlib.Core.List.{tail}
use parda.Protocol.Envelope.{u64_mod}
use parda.Protocol.SelfDestruct.{DestructMode, tag, be_bytes, kdf_context, kdf_info}

-- A remainder by a product, from the digits.
mod-mul : (n d m : ℕ) → 0 < d → 0 < m → n % (d * m) ≡ n % d + d * (n / d % m)
mod-mul n d m hd hm =
    ap (λ (t : ℕ). t % (d * m)) whole
    ∙ mul-add-mod_self_left (d * m) (n / d / m) low
    ∙ mod-eq_of_lt fits
  where
    low : ℕ
    low = n % d + d * (n / d % m)

    whole : n ≡ d * m * (n / d / m) + low
    whole = omega (arith, div-add-mod n d, ap (λ (t : ℕ). d * t) (sym (div-add-mod (n / d) m)))

    fits : low < d * m
    fits = grind arith

be_bytes-injective : (k n m : ℕ) → be_bytes k n ≡ be_bytes k m → n % 256 ^ k ≡ m % 256 ^ k
unfolding be_bytes
be_bytes-injective zero n m h = omega arith
be_bytes-injective (suc k) n m h =
    let d = 256 ^ k in
    let pos = one-le-pow k 256 (omega arith) in
    let low = be_bytes-injective k n m (ground arith) in
    let digit : n / d % 256 ≡ m / d % 256 = ground arith in
    rw (pow-suc 256 k, mod-mul n d 256 pos (omega arith), mod-mul m d 256 pos (omega arith))
      (ap₂ (λ (a b : ℕ). a + d * b) low digit)

u64_bytes-injective : (n m : ℕ) → n < u64_mod → m < u64_mod → be_bytes 8 n ≡ be_bytes 8 m → n ≡ m
u64_bytes-injective n m hn hm h = omega (arith, be_bytes-injective 8 n m h)

length-be_bytes : (k n : ℕ) → length (be_bytes k n) ≡ k
unfolding be_bytes
length-be_bytes zero n = refl
length-be_bytes (suc k) n = ap suc (length-be_bytes k n)

append-cancel_left : (p s t : Bytes) → p ++ s ≡ p ++ t → s ≡ t
append-cancel_left [] s t h = h
append-cancel_left (x ∷ p) s t h = append-cancel_left p s t (ground arith)

append-cancel : (p q s t : Bytes) → length p ≡ length q → p ++ s ≡ q ++ t → (p ≡ q) × (s ≡ t)
append-cancel [] [] s t l h = (refl, h)
append-cancel [] (y ∷ q) s t l h = absurd (omega arith)
append-cancel (x ∷ p) [] s t l h = absurd (omega arith)
append-cancel (x ∷ p) (y ∷ q) s t l h =
    let ih = append-cancel p q s t (omega arith) (ground arith) in (ground arith, ih.1)

tag-injective : (m m' : DestructMode) → tag m ≡ tag m' → m ≡ m'
unfolding tag
tag-injective m m' h = ground arith

-- Two messages whose modes, delivery timestamps or expiry windows, all of 64 bits, differ never
-- hand HKDF the same info: the info determines all three.
pub kdf_info-injective :
    (mode mode' : DestructMode) (t t' w w' : ℕ)
    → t < u64_mod
    → t' < u64_mod
    → w < u64_mod
    → w' < u64_mod
    → kdf_info mode t w ≡ kdf_info mode' t' w'
    → (mode ≡ mode') × (t ≡ t') × (w ≡ w')
unfolding kdf_info
kdf_info-injective mode mode' t t' w w' ht ht' hw hw' h =
    let body = append-cancel_left kdf_context _ _ h in
    let times =
      append-cancel (be_bytes 8 t) (be_bytes 8 t') (be_bytes 8 w) (be_bytes 8 w')
        (omega (arith, length-be_bytes 8 t, length-be_bytes 8 t')) (ap tail body) in
    (
      tag-injective mode mode' (ground arith),
      u64_bytes-injective t t' ht ht' times.0,
      u64_bytes-injective w w' hw hw' times.1,
    )
