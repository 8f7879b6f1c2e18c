-- ===== src/Protocol/Session/Verified.antt =====
-- Verified sessions fail closed: an identity key that differs from the verified one is an error.
use mathlib.Core.Path.{subst}
use parda.Base.{
  ℕ, ◌≡◌, ◌↔◌, ◌⊎◌, refl, ap, sym, ◌∙◌, ◌≢◌, some, arith, String, Bytes, Option-cases, inl, inr,
}
use parda.Result.{ok, err, Result-cases}
use parda.Protocol.Error.{ProtoResult, identity_key_changed_after_verification}
use parda.Protocol.Envelope.{MessageEnvelope}
use parda.Protocol.Store.{IdentityKeyPair, get_identity_key_pair, get_identity}
use parda.Protocol.Trust.{
  TrustStore, Hkdf, check_identity, verified_fingerprint, trust_level, tofu, compute, digits,
}
use parda.Protocol.Trust.Policy.{check_identity_iff, check_identity_changed}
use parda.Protocol.Session.{
  ProtocolAddress, SealedSenderPlaintext, Signal, SessionManager, initiate_session,
  initiate_session_verified,
}
use parda.Protocol.Session.Decryption.{decrypt_sealed, checked_sender, decrypt_sealed_verified}

-- No verification is on file for the peer, or it is of these two keys.
abbrev pub Accepted : Hkdf → TrustStore → String → Bytes → Bytes → Type 0
Accepted hkdf trust_store peer_id local_key remote_key =
    (trust_level trust_store peer_id ≡ tofu)
    ⊎ (verified_fingerprint trust_store peer_id ≡ some (compute hkdf local_key remote_key))

module _ {Bundle Certificate : Type 0} (lib : Signal Bundle Certificate) (hkdf : Hkdf) where
  -- On a device with identity keys and a bundle that names a remote key: initiating is the plain
  -- initiation where no verification is on file for the peer or it is of these two keys; where one
  -- of other keys is on file, it fails with both fingerprints' digits, and no state changes.
  pub initiate_session_verified_lem :
      (remote : ProtocolAddress) (bundle : Bundle) (trust_store : TrustStore) (peer_id : String)
      (now : ℕ) (m : SessionManager) (pair : IdentityKeyPair) (remote_key : Bytes)
      → get_identity_key_pair m.store ≡ ok pair
      → lib.identity_key bundle ≡ ok remote_key
      → let result = initiate_session_verified lib hkdf remote bundle trust_store peer_id now m in
        let observed = compute hkdf pair.identity_key remote_key in
        (Accepted hkdf trust_store peer_id pair.identity_key remote_key
          → result ≡ initiate_session lib remote bundle now m)
        × ((fingerprint : Bytes)
            → verified_fingerprint trust_store peer_id ≡ some fingerprint
            → observed ≢ fingerprint
            → result ≡ (
              err (
                  identity_key_changed_after_verification peer_id
                    (digits fingerprint)
                    (digits observed)),
              m,
            ))
  unfolding initiate_session_verified
  initiate_session_verified_lem remote bundle trust_store peer_id now m pair remote_key own named =
      let (_, passes) = check_identity_iff hkdf trust_store peer_id pair.identity_key remote_key in
      (
        λ a. rw (initiate_session_verified, own, named, passes a) refl,
        λ fingerprint f ne.
            rw
              (
                initiate_session_verified,
                own,
                named,
                check_identity_changed hkdf trust_store peer_id pair.identity_key remote_key
                    fingerprint f ne,
              )
              refl,
      )

  abbrev sender_of : SealedSenderPlaintext → ProtocolAddress
  sender_of result = record { name = result.sender_uuid; device_id = result.device_id }

  -- The sender's recorded key is the one that was verified, or none was.
  abbrev pub SenderAccepted :
      TrustStore → String → Bytes → SealedSenderPlaintext → SessionManager → Type 0
  SenderAccepted trust_store peer_id local_key result m =
      (remote_key : Bytes) × (get_identity (lib.shown (sender_of result)) m.store ≡ some remote_key)
      × Accepted hkdf trust_store peer_id local_key remote_key

  checked_sender_self :
      (trust_store : TrustStore) (peer_id : String) (local_key : Bytes)
      (found : SealedSenderPlaintext) (m : SessionManager)
      → (checked_sender lib hkdf trust_store peer_id local_key (ok found, m) ≡ ok found)
        ↔ SenderAccepted trust_store peer_id local_key found m
  unfolding checked_sender
  checked_sender_self trust_store peer_id local_key found m =
      elim (Option-cases (get_identity (lib.shown (sender_of found)) m.store)) [
        | inl e ↦ (λ h. absurd (ground arith), λ h. absurd (ground (arith, h.1)))
        | inr (key, e) ↦
            let policy = check_identity_iff hkdf trust_store peer_id local_key key in
            elim (Result-cases (check_identity hkdf trust_store peer_id local_key key)) [
              | inl (changed, p) ↦ (
                λ h. absurd (ground arith),
                λ (other, stored, accepted).
                    let same : other ≡ key = ground arith in
                    let passed =
                      policy.1
                        (subst (Accepted hkdf trust_store peer_id local_key) same accepted) in
                    absurd (ground arith),
              )
              | inr (u, p) ↦ (λ h. (key, e, policy.0 p), λ h. rw (checked_sender, e, p) refl)
            ]
      ]

  checked_sender_found :
      (trust_store : TrustStore) (peer_id : String) (local_key : Bytes)
      (found result : SealedSenderPlaintext) (m : SessionManager)
      → checked_sender lib hkdf trust_store peer_id local_key (ok found, m) ≡ ok result
      → found ≡ result
  unfolding checked_sender
  checked_sender_found trust_store peer_id local_key found result m h =
      elim (Option-cases (get_identity (lib.shown (sender_of found)) m.store)) [
        | inl e ↦ absurd (ground arith)
        | inr (key, e) ↦
            elim (Result-cases (check_identity hkdf trust_store peer_id local_key key)) [
              | inl (changed, p) ↦ absurd (ground arith)
              | inr (u, p) ↦ ground arith
            ]
      ]

  checked_sender_iff :
      (trust_store : TrustStore) (peer_id : String) (local_key : Bytes)
      (decrypted : ProtoResult SealedSenderPlaintext × SessionManager)
      (result : SealedSenderPlaintext)
      → (checked_sender lib hkdf trust_store peer_id local_key decrypted ≡ ok result) ↔ (
          (decrypted.0 ≡ ok result)
          × SenderAccepted trust_store peer_id local_key result decrypted.1)
  unfolding checked_sender
  checked_sender_iff trust_store peer_id local_key (err e, m) result =
      (λ h. absurd (ground arith), λ h. absurd (ground (arith, h.0)))
  checked_sender_iff trust_store peer_id local_key (ok found, m) result =
      let self = checked_sender_self trust_store peer_id local_key found m in
      let accepted =
        λ (r : SealedSenderPlaintext). SenderAccepted trust_store peer_id local_key r m in
      (
        λ h.
            let same = checked_sender_found trust_store peer_id local_key found result m h in
            (ap ok same, subst accepted same (self.0 (h ∙ ap ok (sym same)))),
        λ (e, a).
            let same : found ≡ result = ground arith in
            self.1 (subst accepted (sym same) a) ∙ ap ok same,
      )

  -- On a device with identity keys, a sealed message comes out exactly if the plain decryption
  -- gives it, the store has an identity key for its sender afterwards, and no verification is on
  -- file for the expected peer or it is of that key; the session state moves as the plain
  -- decryption moves it.
  pub decrypt_sealed_verified_iff :
      (envelope : MessageEnvelope) (trust_root : Bytes) (local_uuid : String) (local_device_id : ℕ)
      (trust_store : TrustStore) (peer_id : String) (now_ms : ℕ) (m : SessionManager)
      (pair : IdentityKeyPair) (result : SealedSenderPlaintext)
      → get_identity_key_pair m.store ≡ ok pair
      → let (plain, m') =
          decrypt_sealed lib envelope trust_root local_uuid local_device_id now_ms m in
        let (checked, m'') =
          decrypt_sealed_verified lib hkdf envelope trust_root local_uuid local_device_id
            trust_store peer_id now_ms m in
        ((checked ≡ ok result)
          ↔ ((plain ≡ ok result) × SenderAccepted trust_store peer_id pair.identity_key result m'))
        × (m'' ≡ m')
  unfolding decrypt_sealed_verified
  decrypt_sealed_verified_iff envelope trust_root local_uuid local_device_id trust_store peer_id
        now_ms m pair result own =
      rw (decrypt_sealed_verified, own)
        (
          checked_sender_iff trust_store peer_id pair.identity_key
              (decrypt_sealed lib envelope trust_root local_uuid local_device_id now_ms m) result,
          refl,
        )
