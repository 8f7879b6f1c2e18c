-- ===== src/Server/Store/Certificates.antt =====
-- server/src/store.rs, the issuing of certificates by the authority that the relay holds.
use parda.Base.{
  ℕ, ◌+◌, ◌*◌, ◌/◌, ◌≡◌, ◌≤◌, ◌<◌, ◌∙◌, ap, Option, some, String, Bytes, false, leb, arith,
}
use parda.Result.{ok, err, ensure}
use parda.Protocol.Error.{ProtoResult}
use parda.Protocol.Envelope.{u64_mod}
use parda.Protocol.Identity.{KeyPair}
use parda.Protocol.SealedSender.{
  CertificateLibrary, CertificateAuthority, Chain, nanos_per_sec, epoch_millis, from_trust_root,
  issue_sender_certificate, validate_sender_certificate, trust_root_public_key, validation_failed,
  validate-issue,
}
use parda.Server.Store.{sender_cert_ttl, max_sender_cert_ttl_secs}

epoch_millis_past :
    (start ttl_secs later : ℕ)
    → start + max_sender_cert_ttl_secs * nanos_per_sec + 1000000 ≤ later
    → later / 1000000 < u64_mod
    → leb (epoch_millis later) (epoch_millis (start + sender_cert_ttl ttl_secs * nanos_per_sec))
      ≡ false
unfolding epoch_millis sender_cert_ttl
epoch_millis_past start ttl_secs later past fits =
    let until = start + sender_cert_ttl ttl_secs * nanos_per_sec in
    let capped : sender_cert_ttl ttl_secs ≤ max_sender_cert_ttl_secs = ground arith in
    let ahead : until + 1000000 ≤ later = omega arith in
    let ms_ahead : until / 1000000 < later / 1000000 = omega arith in
    let here : epoch_millis later ≡ later / 1000000 = omega arith in
    let there : epoch_millis until ≡ until / 1000000 = omega arith in
    ground (arith, here, there, ms_ahead)

module _ {Rng ServerCertificate SenderCertificate : Type 0}
    (lib : CertificateLibrary Rng ServerCertificate SenderCertificate) where
  -- `RelayStore::issue_sender_certificate`
  unfoldable pub store_issue_sender_certificate :
      CertificateAuthority ServerCertificate
      → String
      → Bytes
      → ℕ
      → ℕ
      → ℕ
      → Rng
      → Option (ProtoResult SenderCertificate)
  store_issue_sender_certificate ca user_id identity_key device_id ttl_secs now rng =
      issue_sender_certificate lib ca user_id identity_key device_id
        (sender_cert_ttl ttl_secs * nanos_per_sec) now rng

  -- Where libsignal validates the chain of a trust root's key pair up to a certificate's expiration:
  -- whatever lifetime a client asks for, a certificate that the relay issued is refused from seven
  -- days and a millisecond after its issue on, as long as the time fits 64 bits of milliseconds.
  pub issued-expired :
      {IsPair : KeyPair → Type 0} (chain : Chain lib IsPair) (root : KeyPair) (rng last : Rng)
      (ca : CertificateAuthority ServerCertificate) (user_id : String) (key : Bytes)
      (device ttl_secs now later : ℕ) (cert : SenderCertificate)
      → IsPair root
      → from_trust_root lib root rng ≡ ok ca
      → store_issue_sender_certificate ca user_id key device ttl_secs now last ≡ some (ok cert)
      → now + max_sender_cert_ttl_secs * nanos_per_sec + 1000000 ≤ later
      → later / 1000000 < u64_mod
      → validate_sender_certificate lib cert (trust_root_public_key lib ca) later
        ≡ err validation_failed
  unfolding store_issue_sender_certificate
  issued-expired chain root rng last ca user_id key device ttl_secs now later cert root-IsPair made
        issued past fits =
      let ttl = sender_cert_ttl ttl_secs * nanos_per_sec in
      validate-issue lib chain root rng last ca user_id key device ttl now later cert root-IsPair
        made issued
      ∙ ap (λ within. ensure within validation_failed)
          (epoch_millis_past now ttl_secs later past fits)
