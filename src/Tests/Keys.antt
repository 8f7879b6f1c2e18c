-- ===== src/Tests/Keys.antt =====
-- Keys and certificates over a libsignal whose generator counts, and whose signature is the signer's
-- key before the message.
use parda.Base.{
  ℕ, suc, ◌≢◌, ◌≡◌, refl, ◌++◌, some, [], ◌∷◌, Bytes, bytes_beq, bytes_beq_iff, leb, arith,
  if◌then◌else◌, false, String,
}
use parda.Result.{ok, err}
use parda.Protocol.Identity.{
  KeyPair, KeyLibrary, LocalIdentity, Reads, Offers, prekeys_from, generate, generate-Offers,
}
use parda.Server.Store.{sender_cert_ttl}
use parda.Server.Store.Certificates.{store_issue_sender_certificate, issued-expired}
use parda.Protocol.SealedSender.{
  from_trust_root, CertificateLibrary, CertificateAuthority, Chain, issue_sender_certificate,
  validate_sender_certificate, default_sender_cert_ttl, epoch_millis, validation_failed,
}

abbrev pair_of : ℕ → KeyPair
pair_of n = record { public_key = n ∷ []; private_key = n ∷ [] }

abbrev Signed : Type 0
Signed = ℕ × ℕ × KeyPair × Bytes

abbrev keys_lib : KeyLibrary ℕ Signed (ℕ × KeyPair) (Bytes × Bytes)
keys_lib = record {
  generate_identity = λ n. (record { identity_key = n ∷ []; private_key = n ∷ [] }, suc n);
  generate_pair = λ n. (pair_of n, suc n);
  calculate_signature = λ key message n. (ok (key ++ message), suc n);
  signed_prekey = λ id time pair signature. (id, time, pair, signature);
  signed_id = λ s. ok s.0;
  signed_public_key = λ s. ok s.2.public_key;
  signed_signature = λ s. ok s.3;
  prekey = λ id pair. (id, pair);
  prekey_id = λ p. ok p.0;
  prekey_public_key = λ p. ok p.1.public_key;
  bundle = λ registration_id device_id otpk id public_key signature identity_key.
      ok (public_key, signature);
  verify_signature = λ key message signature. bytes_beq signature (key ++ message);
}

keys_lib-Reads : Reads keys_lib
keys_lib-Reads = record {
  reads_id = λ i pair. refl;
  reads_public_key = λ i pair. refl;
  reads_signed_id = λ i t pair s. refl;
  reads_signed_public_key = λ i t pair s. refl;
  reads_signature = λ i t pair s. refl;
  verifies = λ n m message signature made.
      ground (arith, made, bytes_beq_iff signature ((n ∷ []) ++ message));
}

abbrev identity : LocalIdentity Signed (ℕ × KeyPair)
identity = record {
  registration_id = 7;
  identity_key_pair = record { identity_key = 0 ∷ []; private_key = 0 ∷ [] };
  signed_prekey = (1, 9, pair_of 1, 0 ∷ 1 ∷ []);
  one_time_prekeys = prekeys_from keys_lib 0 100 3;
}

generate-Offers_example : Offers keys_lib 7 identity
unfolding generate
generate-Offers_example = generate-Offers keys_lib 7 9 0 identity keys_lib-Reads refl

-- without a time after the epoch there is no identity
generate_failed : (e : String) → generate keys_lib 7 (err e) 0 ≢ ok identity
unfolding generate
generate_failed e h = cc

abbrev certificates : CertificateLibrary ℕ Bytes (Bytes × ℕ)
certificates = record {
  generate_pair = λ n. (pair_of n, suc n);
  server_certificate = λ id server_key root_key n. (ok root_key, suc n);
  sender_certificate = λ uuid key device expiration c server_key n. ok (c, expiration);
  validate = λ cert root time. ok (if bytes_beq cert.0 root then leb time cert.1 else false);
}

abbrev IsPair : KeyPair → Type 0
IsPair pair = pair.public_key ≡ pair.private_key

certificates-Chain : Chain certificates IsPair
certificates-Chain = record {
  generated-IsPair = λ n. refl;
  validates =
      λ root server n m id c uuid key device expiration cert root-pair server-pair signed issued
          time.
        let same : cert.0 ≡ root.public_key = cc in
        let until : cert.1 ≡ expiration = cc in
        ground (arith, bytes_beq_iff cert.0 root.public_key, same, until);
}

abbrev authority : CertificateAuthority Bytes
authority = record {
  trust_root = pair_of 5;
  server_key_pair = pair_of 0;
  server_certificate = 5 ∷ [];
}

issued_alice :
    issue_sender_certificate certificates authority "alice"
      (1 ∷ [])
      1
      default_sender_cert_ttl
      2000000
      1
    ≡ some (ok (5 ∷ [], 86400002))
unfolding issue_sender_certificate epoch_millis
issued_alice = refl

expired_alice :
    validate_sender_certificate certificates (5 ∷ [], 86400002) (5 ∷ []) 86400003000000
    ≡ err validation_failed
unfolding validate_sender_certificate epoch_millis
expired_alice = refl

issued-expired_example :
    validate_sender_certificate certificates (5 ∷ [], 604800002) (5 ∷ []) 604800003000000
    ≡ err validation_failed
unfolding from_trust_root store_issue_sender_certificate issue_sender_certificate epoch_millis
    sender_cert_ttl
issued-expired_example =
    issued-expired certificates certificates-Chain (pair_of 5) 0 1 authority "alice" (1 ∷ []) 1
      999999999 2000000 604800003000000 (5 ∷ [], 604800002) refl refl refl (omega arith)
      (omega arith)
