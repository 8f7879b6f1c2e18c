-- ===== src/Protocol/Trust.antt =====
-- protocol/src/trust.rs: safety-number fingerprints and the verified-identity check. HKDF is a
-- parameter, an identity key is its serialisation, and a trust store is the map that it holds.
pub mod Policy
pub mod Digits
use parda.Base.{
  ℕ, zero, suc, ◌+◌, ◌*◌, ◌/◌, ◌%◌, ◌≡◌, Bool, true, false, Option, none, some, List, [], ◌∷◌, ◌++◌,
  Bytes, String, bytes_beq, ltb, nat_beq, if◌then◌else◌, length, string_key, map,
}
use parda.HashMap.{HashMap, lookup, insert, remove}
use parda.Result.{Result, ok, err}
use parda.Protocol.Mixnet.{text}

abbrev pub fingerprint_len : ℕ
fingerprint_len = 60

unfoldable pub fingerprint_context : Bytes
fingerprint_context = text "PARDA-Fingerprint-v1"

-- `&[u8] <= &[u8]`: the lexicographic order.
pub bytes_le : Bytes → Bytes → Bool
bytes_le [] b = true
bytes_le (x ∷ a) [] = false
bytes_le (x ∷ a) (y ∷ b) =
    let rest = bytes_le a b in if ltb x y then true else if nat_beq x y then rest else false

-- `Hkdf::new(Some(salt), ikm).expand(info)` at 60 bytes
abbrev pub Hkdf : Type 0
Hkdf = (salt ikm info : Bytes) → Bytes

-- The two keys in the one order that both parties agree on.
pub ordered : Bytes → Bytes → Bytes
unfolding bytes_le
ordered a b = if bytes_le a b then a ++ b else b ++ a

pub compute : Hkdf → Bytes → Bytes → Bytes
unfolding ordered
compute hkdf local remote = hkdf fingerprint_context (ordered local remote) fingerprint_context

-- `fold(0u64, |acc, byte| (acc << 8) | byte)` over five bytes, which does not reach bit 64.
pub chunk_value : ℕ → Bytes → ℕ
chunk_value acc [] = acc
chunk_value acc (byte ∷ chunk) = chunk_value (acc * 256 + byte) chunk

-- `format!("{:05}", n)` for n below 100000, as ASCII digits
pub five_digits : ℕ → Bytes
five_digits n =
    (48 + n / 10000 % 10)
    ∷ (48 + n / 1000 % 10)
    ∷ (48 + n / 100 % 10)
    ∷ (48 + n / 10 % 10)
    ∷ (48 + n % 10)
    ∷ []

pub group : ℕ → ℕ → ℕ → ℕ → ℕ → Bytes
group a b c d e = five_digits (chunk_value 0 (a ∷ b ∷ c ∷ d ∷ e ∷ []) % 100000)

-- `chunks_exact(5)`: a shorter rest is dropped
pub groups : Bytes → List Bytes
unfolding group
groups (a ∷ b ∷ c ∷ d ∷ e ∷ rest) = group a b c d e ∷ groups rest
groups _ = []

-- `join(" ")`
pub join : List Bytes → Bytes
join [] = []
join (g ∷ []) = g
join (g ∷ h ∷ rest) = g ++ (32 ∷ join (h ∷ rest))

pub digits : Bytes → Bytes
unfolding groups join
digits fingerprint = join (groups fingerprint)

pub data TrustLevel : Type 0 where
  tofu verified : TrustLevel

abbrev pub TrustStore : Type 0
TrustStore = HashMap String Bytes

pub verified_fingerprint : TrustStore → String → Option Bytes
verified_fingerprint store peer_id = lookup peer_id store

pub record_verified : TrustStore → String → Bytes → TrustStore
unfolding insert
record_verified store peer_id fingerprint = insert peer_id fingerprint store

pub forget_verification : TrustStore → String → TrustStore
unfolding remove
forget_verification store peer_id = remove peer_id store

pub trust_level : TrustStore → String → TrustLevel
unfolding verified_fingerprint
trust_level store peer_id = elim (verified_fingerprint store peer_id) [
  | some fingerprint ↦ verified
  | none ↦ tofu
]

-- `PardaError::IdentityKeyChangedAfterVerification`, with both fingerprints' digits
pub record IdentityKeyChanged : Type 0 where
  pub peer_id : String
  pub verified_digits : Bytes
  pub observed_digits : Bytes

pub check_identity :
    Hkdf → TrustStore → String → Bytes → Bytes → Result IdentityKeyChanged (Unit {0})
unfolding verified_fingerprint
check_identity hkdf store peer_id local_key remote_key = elim (verified_fingerprint store peer_id) [
  | none ↦ ok tt
  | some fingerprint ↦
      let observed = compute hkdf local_key remote_key in
      if bytes_beq observed fingerprint
      then ok tt
      else err (record {
        peer_id = peer_id;
        verified_digits = digits fingerprint;
        observed_digits = digits observed;
      })
]
