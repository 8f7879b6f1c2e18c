-- ===== src/Protocol/Identity.antt =====
-- protocol/src/identity.rs: a device's keys and the bundle that it uploads. libsignal is a parameter,
-- a public key is its serialised bytes, and the system's time an argument, in milliseconds.
use mathlib.Core.Path.{subst}
use parda.Base.{
  ℕ, zero, suc, ◌%◌, ◌≡◌, refl, Option, none, some, List, [], ◌∷◌, map, String, Bytes, Bool, true,
  arith, inl, inr,
}
use parda.Result.{Result, ok, err, map_err, Result-cases, ◌>>=◌}
use parda.Protocol.Error.{ProtoResult, signal, key_generation}
use parda.Protocol.Envelope.{u64_mod}
use parda.Protocol.Store.{IdentityKeyPair}
use parda.Protocol.DeadDrop.{count_from}

pub record KeyPair : Type 0 where
  pub public_key : Bytes
  pub private_key : Bytes

abbrev pub one_time_prekey_batch : ℕ
one_time_prekey_batch = 100

-- What the source calls of libsignal; `Rng` is the random generator's state.
pub record KeyLibrary (Rng SignedPreKey PreKey Bundle : Type 0) : Type 0 where
  pub generate_identity : Rng → IdentityKeyPair × Rng
  pub generate_pair : Rng → KeyPair × Rng
  pub calculate_signature : Bytes → Bytes → Rng → Result String Bytes × Rng
  pub signed_prekey : ℕ → ℕ → KeyPair → Bytes → SignedPreKey
  pub signed_id : SignedPreKey → Result String ℕ
  pub signed_public_key : SignedPreKey → Result String Bytes
  pub signed_signature : SignedPreKey → Result String Bytes
  pub prekey : ℕ → KeyPair → PreKey
  pub prekey_id : PreKey → Result String ℕ
  pub prekey_public_key : PreKey → Result String Bytes
  pub bundle : ℕ → ℕ → Option (ℕ × Bytes) → ℕ → Bytes → Bytes → Bytes → Result String Bundle
  pub verify_signature : Bytes → Bytes → Bytes → Bool

pub record LocalIdentity (SignedPreKey PreKey : Type 0) : Type 0 where
  pub registration_id : ℕ
  pub identity_key_pair : IdentityKeyPair
  pub signed_prekey : SignedPreKey
  pub one_time_prekeys : List PreKey

module _ {Rng SignedPreKey PreKey Bundle : Type 0}
    (lib : KeyLibrary Rng SignedPreKey PreKey Bundle) where
  -- `(from..from + count).map(…)`, each prekey of a new pair
  unfoldable pub prekeys_from : ℕ → ℕ → Rng → List PreKey
  prekeys_from from zero rng = []
  prekeys_from from (suc count) rng =
      let (pair, rng') = lib.generate_pair rng in
      lib.prekey from pair ∷ prekeys_from (suc from) count rng'

  unfoldable pub generate :
      ℕ → Result String ℕ → Rng → ProtoResult (LocalIdentity SignedPreKey PreKey)
  generate registration_id now rng =
      let (identity_key_pair, rng') = lib.generate_identity rng in
      let (pair, paired) = lib.generate_pair rng' in
      elim now [
        | err e ↦ err (key_generation e)
        | ok now_ms ↦
            let (signature, left) =
              lib.calculate_signature identity_key_pair.private_key pair.public_key paired in
            elim signature [
              | err e ↦ err (key_generation e)
              | ok s ↦ ok (record {
                registration_id = registration_id;
                identity_key_pair = identity_key_pair;
                signed_prekey = lib.signed_prekey 1 (now_ms % u64_mod) pair s;
                one_time_prekeys = prekeys_from 0 one_time_prekey_batch left;
              })
            ]
      ]

  abbrev pub key_error : {A : Type 0} → Result String A → ProtoResult A
  key_error r = map_err key_generation r

  -- `first()`, with the two fields of the prekey, `transpose()`
  unfoldable pub first_prekey : List PreKey → ProtoResult (Option (ℕ × Bytes))
  first_prekey [] = ok none
  first_prekey (pk ∷ rest) = do
    id ← key_error (lib.prekey_id pk)
    public_key ← key_error (lib.prekey_public_key pk)
    ok (some (id, public_key))

  unfoldable pub build_prekey_bundle : LocalIdentity SignedPreKey PreKey → ProtoResult Bundle
  unfolding first_prekey
  build_prekey_bundle identity = do
    otpk ← first_prekey identity.one_time_prekeys
    signed_prekey_id ← key_error (lib.signed_id identity.signed_prekey)
    signed_prekey_pub ← key_error (lib.signed_public_key identity.signed_prekey)
    signature ← key_error (lib.signed_signature identity.signed_prekey)
    map_err signal (
        lib.bundle identity.registration_id 1 otpk signed_prekey_id signed_prekey_pub signature
          identity.identity_key_pair.identity_key)

  -- libsignal's records return what they were made from, and a signature that a new identity's
  -- private key makes verifies under its public key.
  pub record Reads : Type 0 where
    pub reads_id : (i : ℕ) (pair : KeyPair) → lib.prekey_id (lib.prekey i pair) ≡ ok i
    pub reads_public_key :
        (i : ℕ) (pair : KeyPair) → lib.prekey_public_key (lib.prekey i pair) ≡ ok pair.public_key
    pub reads_signed_id :
        (i t : ℕ) (pair : KeyPair) (s : Bytes) → lib.signed_id (lib.signed_prekey i t pair s) ≡ ok i
    pub reads_signed_public_key :
        (i t : ℕ) (pair : KeyPair) (s : Bytes)
        → lib.signed_public_key (lib.signed_prekey i t pair s) ≡ ok pair.public_key
    pub reads_signature :
        (i t : ℕ) (pair : KeyPair) (s : Bytes)
        → lib.signed_signature (lib.signed_prekey i t pair s) ≡ ok s
    pub verifies :
        (rng rng' : Rng) (message signature : Bytes)
        → let (keys, after) = lib.generate_identity rng in
          (lib.calculate_signature keys.private_key message rng').0 ≡ ok signature
          → lib.verify_signature keys.identity_key message signature ≡ true

  map-prekeys_from :
      (from count : ℕ) (rng : Rng)
      → Reads
      → map lib.prekey_id (prekeys_from from count rng) ≡ map (λ i. ok i) (count_from from count)
  unfolding prekeys_from count_from
  map-prekeys_from from zero rng reads = refl
  map-prekeys_from from (suc count) rng reads =
      let (pair, rng') = lib.generate_pair rng in
      cc (reads.reads_id from pair, map-prekeys_from (suc from) count rng' reads)

  -- the identity that `generate` returns, of the values that it drew
  abbrev identity_of :
      ℕ → ℕ → IdentityKeyPair → KeyPair → Bytes → Rng → LocalIdentity SignedPreKey PreKey
  identity_of registration_id now_ms keys pair signature rng = record {
    registration_id = registration_id;
    identity_key_pair = keys;
    signed_prekey = lib.signed_prekey 1 (now_ms % u64_mod) pair signature;
    one_time_prekeys = prekeys_from 0 one_time_prekey_batch rng;
  }

  build_prekey_bundle-identity_of :
      (registration_id now_ms : ℕ) (keys : IdentityKeyPair) (pair : KeyPair) (signature : Bytes)
      (rng : Rng)
      → Reads
      → build_prekey_bundle (identity_of registration_id now_ms keys pair signature rng)
        ≡ map_err signal (
            lib.bundle registration_id 1
              (some (0, (lib.generate_pair rng).0.public_key))
              1
              pair.public_key
              signature
              keys.identity_key)
  unfolding build_prekey_bundle first_prekey prekeys_from
  build_prekey_bundle-identity_of registration_id now_ms keys pair signature rng reads =
      let first = (lib.generate_pair rng).0 in
      let t = now_ms % u64_mod in
      simp (
        reads.reads_id 0 first,
        reads.reads_public_key 0 first,
        reads.reads_signed_id 1 t pair signature,
        reads.reads_signed_public_key 1 t pair signature,
        reads.reads_signature 1 t pair signature,
      )

  prekeys_from-batch :
      (rng : Rng)
      → prekeys_from 0 one_time_prekey_batch rng
        ≡ lib.prekey 0 (lib.generate_pair rng).0 ∷ prekeys_from 1 99 (lib.generate_pair rng).1
  unfolding prekeys_from
  prekeys_from-batch rng = refl

  -- the identity's hundred one-time prekeys are numbered from 0, and its bundle is of the public key of
  -- the first of them and of the signed prekey 1 with its own key and signature, which verifies under the bundle's identity key
  abbrev pub Offers : ℕ → LocalIdentity SignedPreKey PreKey → Type 0
  Offers registration_id identity =
      (map lib.prekey_id identity.one_time_prekeys
        ≡ map (λ i. ok i) (count_from 0 one_time_prekey_batch))
      × (first : PreKey) × (rest : List PreKey) × (otpk : Bytes) × (signed : Bytes)
      × (signature : Bytes) × (identity.one_time_prekeys ≡ first ∷ rest)
      × (lib.prekey_public_key first ≡ ok otpk)
      × (lib.signed_id identity.signed_prekey ≡ ok 1)
      × (lib.signed_public_key identity.signed_prekey ≡ ok signed)
      × (lib.signed_signature identity.signed_prekey ≡ ok signature)
      × (build_prekey_bundle identity
          ≡ map_err signal (
              lib.bundle registration_id 1 (some (0, otpk)) 1 signed signature
                identity.identity_key_pair.identity_key))
      × (lib.verify_signature identity.identity_key_pair.identity_key signed signature ≡ true)

  -- Where libsignal's records return what they were made from, and a new identity's signatures verify
  -- under its public key: an identity that `generate` returns has one hundred one-time prekeys with the
  -- ids 0 to 99, and its bundle is libsignal's of the registration id, device 1, the public key
  -- of the first of its own prekeys, and the key and signature of its own signed prekey 1, which verifies under the bundle's identity key.
  pub generate-Offers :
      (registration_id now_ms : ℕ) (rng : Rng) (identity : LocalIdentity SignedPreKey PreKey)
      → Reads
      → generate registration_id (ok now_ms) rng ≡ ok identity
      → Offers registration_id identity
  unfolding generate
  generate-Offers registration_id now_ms rng identity reads made =
      let (keys, drawn) = lib.generate_identity rng in
      let (pair, paired) = lib.generate_pair drawn in
      let (signed, left) = lib.calculate_signature keys.private_key pair.public_key paired in
      elim (Result-cases signed) [
        | inl (e, failed) ↦ ground (arith, failed, made)
        | inr (signature, s) ↦
            let e : identity_of registration_id now_ms keys pair signature left ≡ identity =
              ground (arith, s, made) in
            subst (Offers registration_id) e (
              map-prekeys_from 0 one_time_prekey_batch left reads,
              lib.prekey 0 (lib.generate_pair left).0,
              prekeys_from 1 99 (lib.generate_pair left).1,
              (lib.generate_pair left).0.public_key,
              pair.public_key,
              signature,
              prekeys_from-batch left,
              reads.reads_public_key 0 (lib.generate_pair left).0,
              reads.reads_signed_id 1 (now_ms % u64_mod) pair signature,
              reads.reads_signed_public_key 1 (now_ms % u64_mod) pair signature,
              reads.reads_signature 1 (now_ms % u64_mod) pair signature,
              build_prekey_bundle-identity_of registration_id now_ms keys pair signature left reads,
              reads.verifies rng paired pair.public_key signature s,
            )
      ]
