-- ===== src/Peer/BundleJson.antt =====
-- The prekey bundle's JSON of cli/src/peer.rs. A public key is its serialised bytes; a text in an
-- error loses its interpolated values.
use parda.Base.{
  ℕ, ◌<◌, ◌≡◌, refl, sym, ap, ◌∙◌, ◌%◌, ◌^◌, Option, none, some, [], ◌∷◌, String, Bytes, arith,
  string_key,
}
use parda.HashMap.{HashMap, lookup}
use parda.Result.{Result, ok, err, ok_or, map_err, ◌>>=◌}
use parda.Protocol.Error.{signal}
use parda.Protocol.Identity.{
  KeyLibrary, LocalIdentity, Reads, generate, generate-Offers, build_prekey_bundle,
}

abbrev pub u32_mod : ℕ
u32_mod = 2 ^ 32

-- A field's value; `other` is one that is neither a number of 64 bits nor a text.
pub data Value : Type 0 where
  null : Value
  number : ℕ → Value
  text : String → Value
  other : Value

-- A value that is not an object has no fields.
abbrev pub Object : Type 0
Object = HashMap String Value

abbrev pub as_u64 : Value → Option ℕ
as_u64 (number n) = some n
as_u64 _ = none

abbrev pub as_str : Value → Option String
as_str (text s) = some s
as_str _ = none

abbrev pub field : {A : Type 0} → (Value → Option A) → Option Value → Option A
field f none = none
field f (some v) = f v

-- `b64` and `d64`, and what the source calls of libsignal on a bundle
pub record BundleLibrary (Bundle : Type 0) : Type 0 where
  pub encode : Bytes → String
  pub decode : String → Option Bytes
  pub read_identity : Bytes → Result String Bytes
  pub read_public_key : Bytes → Result String Bytes
  pub registration_id : Bundle → Result String ℕ
  pub identity_key : Bundle → Result String Bytes
  pub pre_key_id : Bundle → Result String (Option ℕ)
  pub pre_key_public : Bundle → Result String (Option Bytes)
  pub signed_pre_key_id : Bundle → Result String ℕ
  pub signed_pre_key_public : Bundle → Result String Bytes
  pub signed_pre_key_signature : Bundle → Result String Bytes

map_err-ok : {E F A : Type 0} (f : E → F) (r : Result E A) (a : A) → map_err f r ≡ ok a → r ≡ ok a
map_err-ok f (ok x) a h = ground (arith, h)
map_err-ok f (err e) a h = absurd (ground (arith, h))

-- `.ok().flatten()`
abbrev pub flattened : {A : Type 0} → Result String (Option A) → Option A
flattened (ok o) = o
flattened (err e) = none

abbrev pub optional : {A : Type 0} → (A → Value) → Option A → Value
optional f none = null
optional f (some a) = f a

module _ {Rng SignedPreKey PreKey Bundle : Type 0}
    (keys : KeyLibrary Rng SignedPreKey PreKey Bundle) (lib : BundleLibrary Bundle) where
  -- the eight fields
  abbrev pub fields : ℕ → Bytes → ℕ → Bytes → Bytes → Option ℕ → Option Bytes → Object
  fields registration_id identity_key signed_id signed_public signature id public =
      ("registration_id", number registration_id)
      ∷ ("device_id", number 1)
      ∷ ("identity_key", text (lib.encode identity_key))
      ∷ ("signed_prekey_id", number signed_id)
      ∷ ("signed_prekey_public", text (lib.encode signed_public))
      ∷ ("signed_prekey_signature", text (lib.encode signature))
      ∷ ("one_time_prekey_id", optional number id)
      ∷ ("one_time_prekey_public", optional (λ k. text (lib.encode k)) public)
      ∷ []

  -- `bundle_to_json` after the bundle is built; an error is a panic.
  pub object_of : Bundle → Result String Object
  object_of b = do
    identity_key ← map_err (λ e. "identity key") (lib.identity_key b)
    signed_pre_key_public ← map_err (λ e. "signed prekey public") (lib.signed_pre_key_public b)
    signed_pre_key_signature ← map_err (λ e. "signature") (lib.signed_pre_key_signature b)
    signed_pre_key_id ← map_err (λ e. "signed prekey id") (lib.signed_pre_key_id b)
    registration_id ← map_err (λ e. "registration id") (lib.registration_id b)
    ok (
        fields registration_id identity_key signed_pre_key_id signed_pre_key_public
          signed_pre_key_signature (flattened (lib.pre_key_id b))
          (flattened (lib.pre_key_public b)))

  pub bundle_to_json : LocalIdentity SignedPreKey PreKey → Result String Object
  unfolding object_of
  bundle_to_json identity = do
    bundle ← map_err (λ e. "build bundle") (build_prekey_bundle keys identity)
    object_of bundle

  abbrev pub get_str : String → Object → Result String String
  get_str k v = ok_or (field as_str (lookup k v)) "missing field"

  abbrev pub get_u32 : String → Object → Result String ℕ
  get_u32 k v = do x ← ok_or (field as_u64 (lookup k v)) "missing field"; ok (x % u32_mod)

  abbrev pub d64 : String → Result String Bytes
  d64 s = ok_or (lib.decode s) "bad base64"

  -- the two fields of a one-time prekey, which count only together
  pub one_time : Option ℕ → Option String → Result String (Option (ℕ × Bytes))
  one_time none pk = ok none
  one_time (some id) none = ok none
  one_time (some id) (some pk) = do
    bytes ← d64 pk
    key ← lib.read_public_key bytes
    ok (some (id % u32_mod, key))

  pub bundle_from_json : Object → Result String Bundle
  unfolding one_time
  bundle_from_json v = do
    identity_text ← get_str "identity_key" v
    identity_bytes ← d64 identity_text
    identity_key ← lib.read_identity identity_bytes
    signed_text ← get_str "signed_prekey_public" v
    signed_bytes ← d64 signed_text
    signed_public ← lib.read_public_key signed_bytes
    one_time_prekey ←
        one_time (field as_u64 (lookup "one_time_prekey_id" v))
          (field as_str (lookup "one_time_prekey_public" v))
    registration_id ← get_u32 "registration_id" v
    signed_prekey_id ← get_u32 "signed_prekey_id" v
    signature_text ← get_str "signed_prekey_signature" v
    signature ← d64 signature_text
    keys.bundle registration_id 1 one_time_prekey signed_prekey_id signed_public signature
        identity_key

  -- a bundle returns what it was made from, and its keys read from their serialised form
  pub record Holds (b : Bundle) (r : ℕ) (id : ℕ) (otpk : Bytes) (sid : ℕ) (spk sig ik : Bytes)
      : Type 0 where
    pub registers : lib.registration_id b ≡ ok r
    pub has_identity : lib.identity_key b ≡ ok ik
    pub has_id : lib.pre_key_id b ≡ ok (some id)
    pub has_public : lib.pre_key_public b ≡ ok (some otpk)
    pub has_signed_id : lib.signed_pre_key_id b ≡ ok sid
    pub has_signed_public : lib.signed_pre_key_public b ≡ ok spk
    pub has_signature : lib.signed_pre_key_signature b ≡ ok sig
    pub identity_reads : lib.read_identity ik ≡ ok ik
    pub public_reads : lib.read_public_key otpk ≡ ok otpk
    pub signed_reads : lib.read_public_key spk ≡ ok spk

  bundle_from_json-object_of :
      (b : Bundle) (r id : ℕ) (otpk : Bytes) (sid : ℕ) (spk sig ik : Bytes)
      → ((bytes : Bytes) → lib.decode (lib.encode bytes) ≡ some bytes)
      → Holds b r id otpk sid spk sig ik
      → r < u32_mod
      → id < u32_mod
      → sid < u32_mod
      → keys.bundle r 1 (some (id, otpk)) sid spk sig ik ≡ ok b
      → (v : Object) × (object_of b ≡ ok v) × (bundle_from_json v ≡ ok b)
  unfolding object_of bundle_from_json one_time
  bundle_from_json-object_of b r id otpk sid spk sig ik reads h r_low id_low sid_low made =
      let r_same : r % u32_mod ≡ r = omega arith in
      let id_same : id % u32_mod ≡ id = omega arith in
      let sid_same : sid % u32_mod ≡ sid = omega arith in
      (
        fields r ik sid spk sig (some id) (some otpk),
        rw
            (
              object_of, h.has_identity, h.has_signed_public, h.has_signature, h.has_signed_id,
              h.registers, h.has_id, h.has_public,
            )
            refl,
        simp (
          reads ik,
          reads spk,
          reads otpk,
          reads sig,
          h.identity_reads,
          h.public_reads,
          h.signed_reads,
          r_same,
          id_same,
          sid_same,
          made,
        ),
      )

  -- Where base64 reads back what it wrote, libsignal's records return what they were made from and
  -- its keys read from their serialised form: for an identity that was generated with a registration
  -- id of 32 bits and has a bundle, the peer publishes an object that parses back to that very bundle.
  pub bundle_from_json-bundle_to_json :
      (registration_id now_ms : ℕ) (rng : Rng) (identity : LocalIdentity SignedPreKey PreKey)
      (b : Bundle)
      → Reads keys
      → ((bytes : Bytes) → lib.decode (lib.encode bytes) ≡ some bytes)
      → ((b : Bundle) (r id : ℕ) (otpk : Bytes) (sid : ℕ) (spk sig ik : Bytes)
          → keys.bundle r 1 (some (id, otpk)) sid spk sig ik ≡ ok b
          → Holds b r id otpk sid spk sig ik)
      → registration_id < u32_mod
      → generate keys registration_id (ok now_ms) rng ≡ ok identity
      → build_prekey_bundle keys identity ≡ ok b
      → (v : Object) × (bundle_to_json identity ≡ ok v) × (bundle_from_json v ≡ ok b)
  unfolding bundle_to_json
  bundle_from_json-bundle_to_json registration_id now_ms rng identity b reads encoded holds low made
        built =
      let (_, _, _, otpk, spk, sig, _, _, _, _, _, offered, _) =
        generate-Offers keys registration_id now_ms rng identity reads made in
      let ik = identity.identity_key_pair.identity_key in
      let bundled : keys.bundle registration_id 1 (some (0, otpk)) 1 spk sig ik ≡ ok b =
        map_err-ok signal _ b (sym offered ∙ built) in
      let (v, shown, parsed) =
        bundle_from_json-object_of b registration_id 0 otpk 1 spk sig ik encoded
          (holds b registration_id 0 otpk 1 spk sig ik bundled) low (omega arith) (omega arith)
          bundled in
      (v, ap (λ r. map_err (λ e. "build bundle") r >>= object_of) built ∙ shown, parsed)
