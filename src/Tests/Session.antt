-- ===== src/Tests/Session.antt =====
-- Sessions over a libsignal that leaves messages in the clear, and a store with one peer.
use parda.Base.{◌≡◌, ◌↔◌, refl, ◌≢◌, true, false, none, some, [], ◌∷◌, Bytes, String, string_key}
use parda.Result.{ok, err}
use parda.Protocol.Error.{identity_key_changed_after_verification, malformed_sealed_sender}
use parda.Protocol.Envelope.{MessageEnvelope, validate_version}
use parda.Protocol.Store.{
  StoreState, IdentityKeyPair, is_some, burn_session, load_session, get_identity,
  has_conversation_state, is_trusted_identity, save_identity, get_identity_key_pair,
  store_prekey_batch, new,
}
use parda.Protocol.Store.Burn.{burn_session_lem}
use parda.Protocol.Trust.{TrustStore, Hkdf, verified_fingerprint, compute, digits}
use parda.Protocol.Session.{
  ProtocolAddress, Signal, SessionManager, SealedSenderPlaintext, pre_key_signal_message,
  signal_message, other_message, encrypt, initiate_session, initiate_session_verified,
}
use parda.Protocol.Session.Decryption.{decrypt, decrypt_sealed, decrypt_sealed_verified}
use parda.Protocol.Session.Envelopes.{Parses, decrypt-encrypt}
use parda.Protocol.Session.Verified.{
  Accepted, SenderAccepted, initiate_session_verified_lem, decrypt_sealed_verified_iff,
}
use parda.Tests.{test_envelope}

abbrev keys : IdentityKeyPair
keys = record { identity_key = 1 ∷ []; private_key = 2 ∷ [] }

abbrev store : StoreState
store = record (new keys 77) {
  trusted_identities = ("bob.1", 5 ∷ []) ∷ ("carol.1", 6 ∷ []) ∷ [];
  sessions = ("bob.1", 9 ∷ []) ∷ [];
}

abbrev bob : String
bob = "bob.1"

abbrev carol : String
carol = "carol.1"

burn_session_lem_example :
    let (result, s') = burn_session bob store in
    (result.session_removed ≡ is_some (load_session bob store))
    × (result.identity_trust_removed ≡ is_some (get_identity bob store))
    × (load_session bob s' ≡ none)
    × (get_identity bob s' ≡ none)
    × (has_conversation_state bob s' ≡ false)
    × (is_trusted_identity bob (8 ∷ []) s' ≡ true)
    × ((save_identity bob (8 ∷ []) s').0 ≡ true)
    × (bob ≢ carol
        → (load_session carol s' ≡ load_session carol store)
          × (get_identity carol s' ≡ get_identity carol store)
          × (has_conversation_state carol s' ≡ has_conversation_state carol store))
    × (s' ≡ record store { sessions = s'.sessions; trusted_identities = s'.trusted_identities })
burn_session_lem_example = burn_session_lem bob carol (8 ∷ []) store

-- A record's id is its length.
batch-stored : (store_prekey_batch (λ r. ok 3) ((4 ∷ []) ∷ []) store).0 ≡ ok tt
unfolding store_prekey_batch
batch-stored = refl

abbrev pub lib : Signal Bytes Bytes
lib = record {
  shown = λ a. a.name;
  describe = λ e. "error";
  identity_key = λ bundle. ok bundle;
  process_prekey_bundle = λ a bundle now s. (ok tt, s);
  message_encrypt = λ plaintext a now s. (ok (signal_message plaintext), s);
  serialize =
      λ c. elim c [ pre_key_signal_message b ↦ b | signal_message b ↦ b | other_message b ↦ b ];
  sealed_sender_encrypt = λ a cert plaintext now s. (ok plaintext, s);
  parse_pre_key = λ b. ok (pre_key_signal_message b);
  parse_signal = λ b. ok (signal_message b);
  message_decrypt = λ c a s. elim c [
    | pre_key_signal_message b ↦ (ok b, s)
    | signal_message b ↦ (ok b, s)
    | other_message b ↦ (err "unexpected", s)
  ];
  sealed_sender_decrypt = λ bytes root now uuid device s.
      (ok (record { sender_uuid = "bob.1"; device_id = 1; plaintext = bytes }), s);
}

abbrev lib-Parses : Parses lib
lib-Parses = record { reads_pre_key = λ b. refl; reads_signal = λ b. refl }

abbrev alice_address : ProtocolAddress
alice_address = record { name = "alice"; device_id = 1 }

abbrev bob_address : ProtocolAddress
bob_address = record { name = "bob.1"; device_id = 1 }

abbrev pub manager : SessionManager
manager = record { local_address = alice_address; store = store }

has_keys : get_identity_key_pair store ≡ ok keys
unfolding get_identity_key_pair
has_keys = refl

abbrev hkdf : Hkdf
hkdf salt ikm info = ikm

abbrev trusted : TrustStore
trusted = ("bob.1", 1 ∷ 5 ∷ []) ∷ []

initiate_session_verified_lem_example :
    let result =
      initiate_session_verified lib hkdf bob_address (5 ∷ []) trusted "bob.1" 3 manager in
    let observed = compute hkdf (1 ∷ []) (5 ∷ []) in
    (Accepted hkdf trusted "bob.1" (1 ∷ []) (5 ∷ [])
      → result ≡ initiate_session lib bob_address (5 ∷ []) 3 manager)
    × ((fingerprint : Bytes)
        → verified_fingerprint trusted "bob.1" ≡ some fingerprint
        → observed ≢ fingerprint
        → result ≡ (
          err (
              identity_key_changed_after_verification "bob.1"
                (digits fingerprint)
                (digits observed)),
          manager,
        ))
initiate_session_verified_lem_example =
    initiate_session_verified_lem lib hkdf bob_address (5 ∷ []) trusted "bob.1" 3 manager keys
      (5 ∷ []) has_keys refl

abbrev opened : SealedSenderPlaintext
opened = record { sender_uuid = "bob.1"; device_id = 1; plaintext = 1 ∷ 2 ∷ [] }

decrypt_sealed_verified_iff_example :
    let (plain, m') = decrypt_sealed lib test_envelope [] "alice" 1 3 manager in
    let (checked, m'') =
      decrypt_sealed_verified lib hkdf test_envelope [] "alice" 1 trusted "bob.1" 3 manager in
    ((checked ≡ ok opened)
      ↔ ((plain ≡ ok opened) × SenderAccepted lib hkdf trusted "bob.1" (1 ∷ []) opened m'))
    × (m'' ≡ m')
decrypt_sealed_verified_iff_example =
    decrypt_sealed_verified_iff lib hkdf test_envelope [] "alice" 1 trusted "bob.1" 3 manager keys
      opened has_keys

no_other : (b : Bytes) → signal_message (4 ∷ []) ≢ other_message b
no_other b h = cc

decrypt-encrypt_example :
    (envelope : MessageEnvelope) × ((encrypt lib bob_address (4 ∷ []) 3 manager).0 ≡ ok envelope)
    × (validate_version envelope ≡ ok tt)
    × (envelope.sealed_sender ≡ false)
    × (envelope.sender_id ≡ "alice")
    × (envelope.recipient_id ≡ "bob.1")
    × (decrypt lib envelope manager ≡ (ok (4 ∷ []), manager))
    × (decrypt_sealed lib envelope [] "bob" 1 3 manager ≡ (
      err (malformed_sealed_sender "decrypt_sealed requires envelope_type = SealedSender"),
      manager,
    ))
decrypt-encrypt_example =
    decrypt-encrypt lib bob_address (4 ∷ []) 3 manager manager (signal_message (4 ∷ [])) [] "bob" 1
      lib-Parses refl no_other
