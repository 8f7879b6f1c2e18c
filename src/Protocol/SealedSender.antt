-- ===== src/Protocol/SealedSender.antt =====
-- protocol/src/sealed_sender.rs: the certificate authority and the check of a sender's certificate.
-- libsignal is a parameter, a public key is its serialised bytes, and a time or a duration is its
-- nanoseconds; a time before the epoch, at which the source panics, has no number here.
use mathlib.Core.Path.{subst}
use parda.Base.{
  ℕ, ◌+◌, ◌*◌, ◌/◌, ◌%◌, ◌≡◌, Option, none, some, String, Bytes, Bool, leb, if◌then◌else◌, arith,
  inl, inr, sym,
}
use parda.Result.{Result, ok, err, map_err, Result-cases, ensure, ◌>>=◌}
use parda.Protocol.Error.{PardaError, ProtoResult, signal, sealed_sender_auth}
use parda.Protocol.Envelope.{u64_mod}
use parda.Protocol.Identity.{KeyPair}

abbrev pub server_cert_key_id : ℕ
server_cert_key_id = 1

abbrev pub nanos_per_sec : ℕ
nanos_per_sec = 1000000000

abbrev pub default_sender_cert_ttl : ℕ
default_sender_cert_ttl = 24 * 60 * 60 * nanos_per_sec

abbrev pub validation_failed : PardaError
validation_failed = sealed_sender_auth "sender certificate failed trust-root/expiry validation"

-- `as_millis() as u64`
unfoldable pub epoch_millis : ℕ → ℕ
epoch_millis nanos = nanos / 1000000 % u64_mod

-- What the source calls of libsignal; `Rng` is the random generator's state.
pub record CertificateLibrary (Rng ServerCertificate SenderCertificate : Type 0) : Type 0 where
  pub generate_pair : Rng → KeyPair × Rng
  pub server_certificate : ℕ → Bytes → Bytes → Rng → Result String ServerCertificate × Rng
  pub sender_certificate :
      String → Bytes → ℕ → ℕ → ServerCertificate → Bytes → Rng → Result String SenderCertificate
  pub validate : SenderCertificate → Bytes → ℕ → Result String Bool

pub record CertificateAuthority (ServerCertificate : Type 0) : Type 0 where
  pub trust_root : KeyPair
  pub server_key_pair : KeyPair
  pub server_certificate : ServerCertificate

module _ {Rng ServerCertificate SenderCertificate : Type 0}
    (lib : CertificateLibrary Rng ServerCertificate SenderCertificate) where
  unfoldable pub from_trust_root :
      KeyPair → Rng → ProtoResult (CertificateAuthority ServerCertificate)
  from_trust_root trust_root rng =
      let (server_key_pair, drawn) = lib.generate_pair rng in
      let (certificate, left) =
        lib.server_certificate server_cert_key_id server_key_pair.public_key trust_root.private_key
          drawn in
      elim certificate [
        | err e ↦ err (signal e)
        | ok c ↦ ok (record {
          trust_root = trust_root;
          server_key_pair = server_key_pair;
          server_certificate = c;
        })
      ]

  -- `CertificateAuthority::new`
  pub new_authority : Rng → ProtoResult (CertificateAuthority ServerCertificate)
  unfolding from_trust_root
  new_authority rng =
      let (trust_root, left) = lib.generate_pair rng in from_trust_root trust_root left

  abbrev pub trust_root_public_key : CertificateAuthority ServerCertificate → Bytes
  trust_root_public_key ca = ca.trust_root.public_key

  -- `none` is the panic of an addition of durations past the last second of 64 bits
  unfoldable pub issue_sender_certificate :
      CertificateAuthority ServerCertificate
      → String
      → Bytes
      → ℕ
      → ℕ
      → ℕ
      → Rng
      → Option (ProtoResult SenderCertificate)
  issue_sender_certificate ca sender_uuid identity_public_key device_id ttl now rng =
      if leb (u64_mod * nanos_per_sec) (now + ttl)
      then none
      else some (
          map_err signal (
            lib.sender_certificate sender_uuid identity_public_key device_id
              (epoch_millis (now + ttl)) ca.server_certificate ca.server_key_pair.private_key rng))

  unfoldable pub validate_sender_certificate :
      SenderCertificate → Bytes → ℕ → ProtoResult (Unit {0})
  validate_sender_certificate cert trust_root now = do
    valid ← map_err signal (lib.validate cert trust_root (epoch_millis now))
    ensure valid validation_failed

  -- A chain that starts from a pair of `IsPair` and a generated pair validates up to its expiration.
  pub record Chain (IsPair : KeyPair → Type 0) : Type 0 where
    pub generated-IsPair : (rng : Rng) → IsPair (lib.generate_pair rng).0
    pub validates :
        (root server : KeyPair) (rng last : Rng) (id : ℕ) (c : ServerCertificate) (uuid : String)
        (key : Bytes) (device expiration : ℕ) (cert : SenderCertificate)
        → IsPair root
        → IsPair server
        → (lib.server_certificate id server.public_key root.private_key rng).0 ≡ ok c
        → lib.sender_certificate uuid key device expiration c server.private_key last ≡ ok cert
        → (time : ℕ) → lib.validate cert root.public_key time ≡ ok (leb time expiration)

  issued-made :
      (ca : CertificateAuthority ServerCertificate) (uuid : String) (key : Bytes)
      (device ttl now : ℕ) (last : Rng) (cert : SenderCertificate)
      → issue_sender_certificate ca uuid key device ttl now last ≡ some (ok cert)
      → lib.sender_certificate uuid key device
          (epoch_millis (now + ttl))
          ca.server_certificate
          ca.server_key_pair.private_key
          last
        ≡ ok cert
  unfolding issue_sender_certificate
  issued-made ca uuid key device ttl now last cert issued =
      let result =
        lib.sender_certificate uuid key device (epoch_millis (now + ttl)) ca.server_certificate
          ca.server_key_pair.private_key last in
      elim (Result-cases result) [
        | inl (e, failed) ↦ ground (arith, failed, issued)
        | inr (c, made) ↦ ground (arith, made, issued)
      ]

  -- A certificate that an authority issues is valid under its own trust root as long as the time in
  -- milliseconds has not passed the issuing time plus the lifetime; after it, it is refused with
  -- `SealedSenderAuth`. The trust root is a key pair.
  pub validate-issue :
      {IsPair : KeyPair → Type 0} (chain : Chain IsPair) (root : KeyPair) (rng last : Rng)
      (ca : CertificateAuthority ServerCertificate) (uuid : String) (key : Bytes)
      (device ttl now later : ℕ) (cert : SenderCertificate)
      → IsPair root
      → from_trust_root root rng ≡ ok ca
      → issue_sender_certificate ca uuid key device ttl now last ≡ some (ok cert)
      → validate_sender_certificate cert (trust_root_public_key ca) later
        ≡ ensure (leb (epoch_millis later) (epoch_millis (now + ttl))) validation_failed
  unfolding from_trust_root validate_sender_certificate
  validate-issue {IsPair} chain root rng last ca uuid key device ttl now later cert root-IsPair made
        issued =
      let (pair, drawn) = lib.generate_pair rng in
      let (result, left) =
        lib.server_certificate server_cert_key_id pair.public_key root.private_key drawn in
      elim (Result-cases result) [
        | inl (e, failed) ↦ ground (arith, failed, made)
        | inr (c, signed) ↦
            let authority : CertificateAuthority ServerCertificate = record {
              trust_root = root;
              server_key_pair = pair;
              server_certificate = c;
            } in
            let same : ca ≡ authority = ground (arith, signed, made) in
            let by_ca =
              subst (λ a. issue_sender_certificate a uuid key device ttl now last ≡ some (ok cert))
                same issued in
            let law =
              chain.validates root pair drawn last server_cert_key_id c uuid key device
                (epoch_millis (now + ttl)) cert root-IsPair (chain.generated-IsPair rng) signed
                (issued-made authority uuid key device ttl now last cert by_ca)
                (epoch_millis later) in
            subst
              (λ a.
                validate_sender_certificate cert (trust_root_public_key a) later
                ≡ ensure (leb (epoch_millis later) (epoch_millis (now + ttl))) validation_failed)
              (sym same) (simp law)
      ]
