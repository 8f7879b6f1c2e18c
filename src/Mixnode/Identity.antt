-- ===== src/Mixnode/Identity.antt =====
-- mixnode/src/identity.rs: the key file of the node, in hexadecimal digits. A text is its ASCII
-- bytes; a panic is `err`, and a read that fails in another way than "not found" is left out.
use parda.Base.{
  ℕ, ◌+◌, ◌-◌, ◌*◌, ◌/◌, ◌%◌, ◌<◌, ◌≡◌, refl, ap, ◌∙◌, ◌&&◌, Option, none, some, [], ◌∷◌, String,
  Bytes, All, arith, leb, ltb, nat_beq, if◌then◌else◌, length, Bool-cases, inl, inr,
}
use parda.Result.{Result, ok, err}
use parda.Text.{trim, trim_idle, IsBlack}

abbrev pub key_len : ℕ
key_len = 32

-- `{b:02x}`
abbrev pub hex_digit : ℕ → ℕ
hex_digit d = if ltb d 10 then 48 + d else 87 + d

pub hex_encode : Bytes → Bytes
hex_encode [] = []
hex_encode (b ∷ bytes) = hex_digit (b / 16) ∷ hex_digit (b % 16) ∷ hex_encode bytes

abbrev pub hex_value : ℕ → Option ℕ
hex_value c =
    if leb 48 c && leb c 57
    then some (c - 48)
    else if leb 97 c && leb c 102
    then some (c - 87)
    else if leb 65 c && leb c 70
    then some (c - 55)
    else none

-- `u8::from_str_radix` on two characters, of which the first may be a plus sign
unfoldable pub from_str_radix : ℕ → ℕ → Option ℕ
from_str_radix c d = if nat_beq c 43 then hex_value d else elim (hex_value c) [
  | none ↦ none
  | some high ↦ elim (hex_value d) [ none ↦ none | some low ↦ some (16 * high + low) ]
]

-- The pairs of a text; an odd length is refused before anything is read.
unfoldable pub pairs : Bytes → Option Bytes
unfolding from_str_radix
pairs [] = some []
pairs (c ∷ []) = none
pairs (c ∷ d ∷ s) =
    let rest = pairs s in
    elim (from_str_radix c d) [
      | none ↦ none
      | some b ↦ elim rest [ none ↦ none | some bytes ↦ some (b ∷ bytes) ]
    ]

unfoldable pub hex_decode : Bytes → Option Bytes
unfolding pairs
hex_decode s = pairs (trim s)

abbrev pub KeyResult : Type 0
KeyResult = Result String Bytes

-- `try_into::<[u8; 32]>`
pub key_of : Option Bytes → KeyResult
key_of none = err "is not 64 hex characters"
key_of (some bytes) =
    if nat_beq (length bytes) key_len then ok bytes else err "must decode to exactly 32 bytes"

-- The file's contents, `none` if there is no file, before and after.
pub load_or_create_key_file : Bytes → Option Bytes → KeyResult × Option Bytes
unfolding hex_decode hex_encode key_of
load_or_create_key_file fresh (some contents) = (key_of (hex_decode contents), some contents)
load_or_create_key_file fresh none = (ok fresh, some (hex_encode fresh))

-- The variable with the key, or else the one with the path, whose file's contents are given.
unfoldable pub load_or_generate :
    Bytes → Option Bytes → Option (Option Bytes) → KeyResult × Option (Option Bytes)
unfolding load_or_create_key_file
load_or_generate fresh (some hex) path = (key_of (hex_decode hex), path)
load_or_generate fresh none (some file) =
    let (key, file') = load_or_create_key_file fresh file in (key, some file')
load_or_generate fresh none none = (ok fresh, none)

abbrev pub IsByte : ℕ → Type 0
IsByte b = b < 256

from_str_radix-hex_digit :
    (b : ℕ) → b < 256 → from_str_radix (hex_digit (b / 16)) (hex_digit (b % 16)) ≡ some b
unfolding from_str_radix
from_str_radix-hex_digit b h = ground arith

hex_digit-IsBlack : (d : ℕ) → d < 16 → IsBlack (hex_digit d)
hex_digit-IsBlack d h = ground arith

hex_encode-IsBlack : (bytes : Bytes) → All IsByte bytes → All IsBlack (hex_encode bytes)
unfolding hex_encode
hex_encode-IsBlack [] h = tt
hex_encode-IsBlack (b ∷ bytes) h = (
  hex_digit-IsBlack (b / 16) (omega (arith, h.0)),
  (hex_digit-IsBlack (b % 16) (omega arith), hex_encode-IsBlack bytes h.1),
)

pairs-hex_encode : (bytes : Bytes) → All IsByte bytes → pairs (hex_encode bytes) ≡ some bytes
unfolding pairs hex_encode
pairs-hex_encode [] h = refl
pairs-hex_encode (b ∷ bytes) h =
    rw (pairs, from_str_radix-hex_digit b h.0, pairs-hex_encode bytes h.1) refl

pub hex_decode-hex_encode :
    (bytes : Bytes) → All IsByte bytes → hex_decode (hex_encode bytes) ≡ some bytes
unfolding hex_decode
hex_decode-hex_encode bytes h =
    ap pairs (trim_idle (hex_encode bytes) (hex_encode-IsBlack bytes h)) ∙ pairs-hex_encode bytes h

key_of-ok :
    (decoded : Option Bytes) (key : Bytes)
    → key_of decoded ≡ ok key
    → (decoded ≡ some key) × (length key ≡ key_len)
unfolding key_of
key_of-ok none key h = absurd (ground arith)
key_of-ok (some bytes) key h = elim (Bool-cases (nat_beq (length bytes) key_len)) [
  | inl e ↦ ground arith
  | inr e ↦ absurd (ground arith)
]

-- Where there is no key file, a fresh key of 32 bytes is used and written, and every later load
-- gives that key again and leaves the file; a file that does not decode to 32 bytes is an error
-- and stays as it is.
pub load_or_create_key_file_lem :
    (fresh later contents : Bytes)
    → length fresh ≡ key_len
    → All IsByte fresh
    → let (key, file) = load_or_create_key_file fresh none in
      (key ≡ ok fresh)
      × (load_or_create_key_file later file ≡ (ok fresh, file))
      × ((load_or_create_key_file later (some contents)).1 ≡ some contents)
      × ((key : Bytes)
          → (load_or_create_key_file later (some contents)).0 ≡ ok key
          → (hex_decode contents ≡ some key) × (length key ≡ key_len))
unfolding load_or_create_key_file key_of
load_or_create_key_file_lem fresh later contents size bytes = (
  refl,
  rw (load_or_create_key_file, key_of, hex_decode-hex_encode fresh bytes, size) refl,
  refl,
  λ key h. key_of-ok (hex_decode contents) key h,
)
