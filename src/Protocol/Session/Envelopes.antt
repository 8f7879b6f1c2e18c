-- ===== src/Protocol/Session/Envelopes.antt =====
-- The envelopes of a session: what encryption makes is valid, and goes to the decryption of its
-- kind only.
use parda.Base.{ℕ, ◌≡◌, refl, ap, ◌≢◌, true, false, String, Bytes}
use parda.Result.{ok, err, map_err}
use parda.Protocol.Error.{signal, malformed_sealed_sender}
use parda.Protocol.Envelope.{MessageEnvelope, validate_version}
use parda.Protocol.Session.{
  ProtocolAddress, CiphertextMessage, pre_key_signal_message, signal_message, other_message, Signal,
  SessionManager, encrypt, encrypt_sealed, envelope_of, sealed_envelope,
}
use parda.Protocol.Session.Decryption.{ciphertext_of, decrypt, decrypt_sealed}

module _ {Bundle Certificate : Type 0} (lib : Signal Bundle Certificate) where
  -- libsignal reads each of the two messages of a session from its serialised form.
  pub record Parses : Type 0 where
    pub reads_pre_key :
        (b : Bytes)
        → lib.parse_pre_key (lib.serialize (pre_key_signal_message b))
          ≡ ok (pre_key_signal_message b)
    pub reads_signal :
        (b : Bytes) → lib.parse_signal (lib.serialize (signal_message b)) ≡ ok (signal_message b)

  envelope-valid :
      (remote : ProtocolAddress) (now_ms : ℕ) (m : SessionManager) (c : CiphertextMessage)
      → validate_version (envelope_of lib remote now_ms m c) ≡ ok tt
  unfolding validate_version
  envelope-valid remote now_ms m (pre_key_signal_message b) = refl
  envelope-valid remote now_ms m (signal_message b) = refl
  envelope-valid remote now_ms m (other_message b) = refl

  ciphertext_of-envelope :
      (remote : ProtocolAddress) (now_ms : ℕ) (m : SessionManager) (c : CiphertextMessage)
      → Parses
      → ((b : Bytes) → c ≢ other_message b)
      → ciphertext_of lib (envelope_of lib remote now_ms m c) ≡ ok c
  unfolding ciphertext_of
  ciphertext_of-envelope remote now_ms m (pre_key_signal_message b) p n =
      ap (map_err signal) (p.reads_pre_key b)
  ciphertext_of-envelope remote now_ms m (signal_message b) p n =
      ap (map_err signal) (p.reads_signal b)
  ciphertext_of-envelope remote now_ms m (other_message b) p n = absurd (n b refl)

  refuses-type_of :
      (remote : ProtocolAddress) (now_ms : ℕ) (m receiver : SessionManager) (c : CiphertextMessage)
      (trust_root : Bytes) (local_uuid : String) (device : ℕ)
      → decrypt_sealed lib
          (envelope_of lib remote now_ms m c)
          trust_root
          local_uuid
          device
          now_ms
          receiver
        ≡ (
          err (malformed_sealed_sender "decrypt_sealed requires envelope_type = SealedSender"),
          receiver,
        )
  unfolding decrypt_sealed validate_version
  refuses-type_of remote now_ms m receiver (pre_key_signal_message b) t u d = refl
  refuses-type_of remote now_ms m receiver (signal_message b) t u d = refl
  refuses-type_of remote now_ms m receiver (other_message b) t u d = refl

  -- Where libsignal encrypts to one of the two messages of a session and reads them from their
  -- serialised form: the encryption succeeds, the envelope is valid and unsealed and names both
  -- parties, and a receiver's decryption hands libsignal that very message, as one of the sender's
  -- device 1; the sealed decryption refuses it and changes nothing.
  pub decrypt-encrypt :
      (remote : ProtocolAddress) (plaintext : Bytes) (now_ms : ℕ) (m receiver : SessionManager)
      (c : CiphertextMessage) (trust_root : Bytes) (local_uuid : String) (device : ℕ)
      → Parses
      → (lib.message_encrypt plaintext remote now_ms m.store).0 ≡ ok c
      → ((b : Bytes) → c ≢ other_message b)
      → (envelope : MessageEnvelope) × ((encrypt lib remote plaintext now_ms m).0 ≡ ok envelope)
        × (validate_version envelope ≡ ok tt)
        × (envelope.sealed_sender ≡ false)
        × (envelope.sender_id ≡ m.local_address.name)
        × (envelope.recipient_id ≡ remote.name)
        × (let sender : ProtocolAddress = record { name = m.local_address.name; device_id = 1 } in
            let (result, store) = lib.message_decrypt c sender receiver.store in
            decrypt lib envelope receiver
            ≡ (map_err signal result, record receiver { store = store }))
        × (decrypt_sealed lib envelope trust_root local_uuid device now_ms receiver ≡ (
          err (malformed_sealed_sender "decrypt_sealed requires envelope_type = SealedSender"),
          receiver,
        ))
  unfolding encrypt decrypt decrypt_sealed
  decrypt-encrypt remote plaintext now_ms m receiver c trust_root local_uuid device p encrypted n =
      let envelope = envelope_of lib remote now_ms m c in
      let valid = envelope-valid remote now_ms m c in
      let read = ciphertext_of-envelope remote now_ms m c p n in
      (
        envelope,
        rw (encrypt, encrypted) refl,
        valid,
        refl,
        refl,
        refl,
        rw (decrypt, valid, read) refl,
        refuses-type_of remote now_ms m receiver c trust_root local_uuid device,
      )

  -- Where libsignal seals a message: the envelope is valid and sealed, names no sender, and is
  -- refused by the plain decryption, which changes nothing; the sealed decryption hands libsignal
  -- the sealed bytes.
  pub decrypt-encrypt_sealed :
      (remote : ProtocolAddress) (plaintext : Bytes) (cert : Certificate) (now_ms : ℕ)
      (m receiver : SessionManager) (sealed_bytes : Bytes) (trust_root : Bytes)
      (local_uuid : String) (device : ℕ)
      → (lib.sealed_sender_encrypt remote cert plaintext now_ms m.store).0 ≡ ok sealed_bytes
      → (envelope : MessageEnvelope) × ((encrypt_sealed lib remote plaintext cert now_ms m).0
          ≡ ok envelope)
        × (validate_version envelope ≡ ok tt)
        × (envelope.sealed_sender ≡ true)
        × (envelope.sender_id ≡ "")
        × (envelope.recipient_id ≡ remote.name)
        × (decrypt lib envelope receiver ≡ (
          err (
              malformed_sealed_sender
                "sealed-sender envelopes must be decrypted via decrypt_sealed"),
          receiver,
        ))
        × (let (result, store) =
              lib.sealed_sender_decrypt sealed_bytes trust_root now_ms local_uuid device
                receiver.store in
            decrypt_sealed lib envelope trust_root local_uuid device now_ms receiver
            ≡ (map_err signal result, record receiver { store = store }))
  unfolding encrypt_sealed decrypt decrypt_sealed validate_version ciphertext_of
  decrypt-encrypt_sealed remote plaintext cert now_ms m receiver sealed_bytes trust_root local_uuid
        device encrypted =
      (
        sealed_envelope lib remote now_ms sealed_bytes,
        rw (encrypt_sealed, encrypted) refl,
        refl,
        refl,
        refl,
        refl,
        refl,
        refl,
      )
