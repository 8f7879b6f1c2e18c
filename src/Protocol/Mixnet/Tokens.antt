-- ===== src/Protocol/Mixnet/Tokens.antt =====
-- Address tokens: what fits, and that it comes back.
use parda.Base.{
  ℕ, ◌-◌, ◌%◌, ◌≤◌, ◌<◌, ◌≡◌, ◌↔◌, true, arith, Bytes, length, replicate, length-append,
  length-replicate, take-append, Bool-cases, ltb, inl, inr,
}
use parda.Result.{ok, is_ok}
use parda.Protocol.Mixnet.{encode_fixed, decode_fixed}

-- For a positive capacity, a token is made exactly when its bytes and their length byte fit.
pub encode_fixed_iff :
    (bytes : Bytes) (capacity : ℕ)
    → 0 < capacity
    → (is_ok (encode_fixed bytes capacity) ≡ true) ↔ (length bytes < capacity)
unfolding encode_fixed
encode_fixed_iff bytes capacity h = ground arith

-- A token made for a capacity of 1 to 256 bytes has that size and decodes to what was encoded.
pub decode_fixed-encode_fixed :
    (bytes token : Bytes) (capacity : ℕ)
    → 0 < capacity
    → capacity ≤ 256
    → encode_fixed bytes capacity ≡ ok token
    → (decode_fixed token ≡ ok bytes) × (length token ≡ capacity)
unfolding encode_fixed decode_fixed
decode_fixed-encode_fixed bytes token capacity h small e =
    let room = capacity - 1 - length bytes in
    let pad : Bytes = replicate room 0 in
    elim (Bool-cases (ltb (capacity - 1) (length bytes))) [
      | inl full ↦ absurd (ground arith)
      | inr fits ↦
          let low : length bytes ≤ capacity - 1 = ground arith in
          let whole : length bytes % 256 ≡ length bytes = omega arith in
          ground (
            arith,
            take-append bytes pad,
            length-append bytes pad,
            length-replicate room (let z : ℕ = 0 in z),
          )
    ]
