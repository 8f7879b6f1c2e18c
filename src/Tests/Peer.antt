-- ===== src/Tests/Peer.antt =====
-- The peer's bundle over a libsignal that keeps what a bundle is made from and a base64 that tallies,
-- and a poll that is answered with two messages.
use Prim.Native.Char.{code}
use Prim.Native.String.{String}
use mathlib.Core.Path.{subst}
use parda.Base.{
  ℕ, zero, suc, ◌≡◌, refl, ap, false, Option, some, none, List, [], ◌∷◌, ◌++◌, Bytes, bytes_beq,
  bytes_beq_iff, arith, nat_beq, if◌then◌else◌,
}
use parda.Result.{ok}
use parda.Protocol.Identity.{
  KeyPair, KeyLibrary, LocalIdentity, Reads, prekeys_from, generate, build_prekey_bundle,
  first_prekey,
}
use parda.Protocol.Envelope.{MessageEnvelope, ratchet}
use parda.Protocol.Transport.{Reply}
use parda.Peer.{PeerJson, PeerState}
use parda.Tests.{test_envelope}
use parda.Tests.Session.{manager}
use parda.Peer.BundleJson.{
  Object, BundleLibrary, Holds, bundle_to_json, bundle_from_json, bundle_from_json-bundle_to_json,
}

abbrev tally : ℕ → String → String
tally zero s = String.◌∷◌ "." s
tally (suc n) s = String.◌∷◌ "|" (tally n s)

abbrev encode : Bytes → String
encode [] = String.[]
encode (b ∷ bs) = tally b (encode bs)

abbrev one_more : Option Bytes → Option Bytes
one_more (some (b ∷ bs)) = some (suc b ∷ bs)
one_more _ = none

abbrev with_zero : Option Bytes → Option Bytes
with_zero (some bs) = some (zero ∷ bs)
with_zero none = none

abbrev decode : String → Option Bytes
decode String.[] = some []
decode (String.◌∷◌ c s) =
    let rest = decode s in if nat_beq (code c) b'.' then with_zero rest else one_more rest

decode-tally :
    (n : ℕ) (s : String) (bs : Bytes) → decode s ≡ some bs → decode (tally n s) ≡ some (n ∷ bs)
decode-tally zero s bs h = ap with_zero h
decode-tally (suc n) s bs h = ap one_more (decode-tally n s bs h)

decode-encode : (bs : Bytes) → decode (encode bs) ≡ some bs
decode-encode [] = refl
decode-encode (b ∷ bs) = decode-tally b (encode bs) bs (decode-encode bs)

-- what a bundle is made from
abbrev Parts : Type 0
Parts = ℕ × Option (ℕ × Bytes) × ℕ × Bytes × Bytes × Bytes

abbrev first : Option (ℕ × Bytes) → Option ℕ
first none = none
first (some p) = some p.0

abbrev second : Option (ℕ × Bytes) → Option Bytes
second none = none
second (some p) = some p.1

abbrev pair_of : ℕ → KeyPair
pair_of n = record { public_key = n ∷ []; private_key = n ∷ [] }

abbrev Signed : Type 0
Signed = ℕ × ℕ × KeyPair × Bytes

abbrev keys : KeyLibrary ℕ Signed (ℕ × KeyPair) Parts
keys = record {
  generate_identity = λ n. (record { identity_key = n ∷ []; private_key = n ∷ [] }, suc n);
  generate_pair = λ n. (pair_of n, suc n);
  calculate_signature = λ key message n. (ok (key ++ message), suc n);
  signed_prekey = λ id time pair signature. (id, time, pair, signature);
  signed_id = λ s. ok s.0;
  signed_public_key = λ s. ok s.2.public_key;
  signed_signature = λ s. ok s.3;
  prekey = λ id pair. (id, pair);
  prekey_id = λ p. ok p.0;
  prekey_public_key = λ p. ok p.1.public_key;
  bundle = λ registration_id device_id otpk id public_key signature identity_key.
      ok (registration_id, otpk, id, public_key, signature, identity_key);
  verify_signature = λ key message signature. bytes_beq signature (key ++ message);
}

keys-Reads : Reads keys
keys-Reads = record {
  reads_id = λ i pair. refl;
  reads_public_key = λ i pair. refl;
  reads_signed_id = λ i t pair s. refl;
  reads_signed_public_key = λ i t pair s. refl;
  reads_signature = λ i t pair s. refl;
  verifies = λ n m message signature made.
      ground (arith, made, bytes_beq_iff signature ((n ∷ []) ++ message));
}

abbrev bundles : BundleLibrary Parts
bundles = record {
  encode = encode;
  decode = decode;
  read_identity = λ b. ok b;
  read_public_key = λ b. ok b;
  registration_id = λ b. ok b.0;
  identity_key = λ b. ok b.5;
  pre_key_id = λ b. ok (first b.1);
  pre_key_public = λ b. ok (second b.1);
  signed_pre_key_id = λ b. ok b.2;
  signed_pre_key_public = λ b. ok b.3;
  signed_pre_key_signature = λ b. ok b.4;
}

bundles-Holds :
    (b : Parts) (r id : ℕ) (otpk : Bytes) (sid : ℕ) (spk sig ik : Bytes)
    → keys.bundle r 1 (some (id, otpk)) sid spk sig ik ≡ ok b
    → Holds keys bundles b r id otpk sid spk sig ik
bundles-Holds b r id otpk sid spk sig ik made =
    let same : (r, some (id, otpk), sid, spk, sig, ik) ≡ b = cc in
    subst (λ b. Holds keys bundles b r id otpk sid spk sig ik) same
      (record {
        registers = refl;
        has_identity = refl;
        has_id = refl;
        has_public = refl;
        has_signed_id = refl;
        has_signed_public = refl;
        has_signature = refl;
        identity_reads = refl;
        public_reads = refl;
        signed_reads = refl;
      })

abbrev identity : LocalIdentity Signed (ℕ × KeyPair)
identity = record {
  registration_id = 7;
  identity_key_pair = record { identity_key = 0 ∷ []; private_key = 0 ∷ [] };
  signed_prekey = (1, 9, pair_of 1, 0 ∷ 1 ∷ []);
  one_time_prekeys = prekeys_from keys 0 100 3;
}

abbrev bundle : Parts
bundle = (7, some (0, 3 ∷ []), 1, 1 ∷ [], 0 ∷ 1 ∷ [], 0 ∷ [])

generated : generate keys 7 (ok 9) 0 ≡ ok identity
unfolding generate
generated = refl

bundle-built : build_prekey_bundle keys identity ≡ ok bundle
unfolding build_prekey_bundle first_prekey prekeys_from
bundle-built = refl

bundle_from_json-bundle_to_json_example :
    (v : Object) × (bundle_to_json keys bundles identity ≡ ok v)
    × (bundle_from_json keys bundles v ≡ ok bundle)
bundle_from_json-bundle_to_json_example =
    bundle_from_json-bundle_to_json keys bundles 7 9 0 identity bundle keys-Reads decode-encode
      bundles-Holds (omega arith) generated bundle-built

-- an answer's messages, each with the envelope that it reads as
abbrev Answer : Type 0
Answer = List (Option MessageEnvelope)

abbrev peer_json : PeerJson Answer (Option MessageEnvelope)
peer_json = record {
  object_json = λ v. [];
  envelope_json = λ e. some e.ciphertext;
  messages_of = λ b. some b;
  envelope_of = λ raw. raw;
  from_utf8_lossy = λ b. b;
}

abbrev from_bob : MessageEnvelope
from_bob = record test_envelope {
  sender_id = "bob";
  envelope_type = ratchet;
  sealed_sender = false;
}

abbrev two_messages : Answer
two_messages = none ∷ some from_bob ∷ []

abbrev on_post : List (Bytes × Bytes) → Option (Reply Answer)
on_post log = some (record { status = 201; body = none })

abbrev on_get : List (Bytes × Bytes) → Bytes → Option (Reply Answer)
on_get log url = some (record { status = 200; body = some two_messages })

abbrev peer : PeerState (List (Bytes × Bytes))
peer = record { manager = manager; http = []; printed = [] }
