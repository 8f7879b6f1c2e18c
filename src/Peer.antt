-- ===== src/Peer.antt =====
-- cli/src/peer.rs: a conversation partner on the command line. Its identity and its sessions are those
-- of the protocol and the HTTP client is an interface; the text of a body, lossily read, is its bytes.
-- What the peer prints while it polls is a list, the first line first. A URL is its text: the client
-- that is called reads it; the relay's has its trailing slashes trimmed.
pub mod BundleJson
pub mod Replies
use parda.Base.{
  ℕ, zero, suc, Bool, true, false, ◌&&◌, not, Option, none, some, List, [], ◌∷◌, ◌++◌, String,
  Bytes, leb, ltb, ◌==◌, string_key, if◌then◌else◌,
}
use parda.Result.{Result, ok, err, map_err, ◌>>=◌}
use parda.Protocol.Envelope.{MessageEnvelope}
use parda.Protocol.Store.{StoreState, SignalError, store_prekey_batch, store_signed_prekey_record}
use parda.Protocol.Store
use parda.Protocol.Identity.{KeyLibrary, LocalIdentity}
use parda.Protocol.Session.{Signal, SessionManager, ProtocolAddress, encrypt}
use parda.Protocol.Session.Decryption.{decrypt}
use parda.Protocol.Session
use parda.Protocol.Transport.{Reply}
use parda.Protocol.Mixnet.{text}
use parda.Peer.BundleJson.{Object, BundleLibrary, bundle_to_json}

-- what the peer prints, the sender being an argument
pub data Line : Type 0 where
  skipped : Line
  received : String → Bytes → Line
  decrypt_failed : String → Line
  replied : Line
  reply_failed : Line

-- serde_json, `Raw` being a message as it stands in an answer, and `String::from_utf8_lossy`
pub record PeerJson (B Raw : Type 0) : Type 0 where
  pub object_json : Object → Bytes
  pub envelope_json : MessageEnvelope → Option Bytes
  pub messages_of : B → Option (List Raw)
  pub envelope_of : Raw → Option MessageEnvelope
  pub from_utf8_lossy : Bytes → Bytes

pub record PeerState (S : Type 0) : Type 0 where
  pub manager : SessionManager
  pub http : S
  pub printed : List Line

abbrev pub is_success : {B : Type 0} → Option (Reply B) → Bool
is_success none = false
is_success (some reply) = leb 200 reply.status && ltb reply.status 300

-- reqwest's client; `none` where sending fails
pub record HttpClient (S B : Type 0) : Type 0 where
  pub post : Bytes → Bytes → S → Option (Reply B) × S
  pub get : Bytes → S → Option (Reply B) × S

-- `format!("{relay_url}/v1/messages/{user_id}")`: the name is not escaped.
abbrev pub messages_url : Bytes → String → Bytes
messages_url relay_url user_id = relay_url ++ (text "/v1/messages/" ++ text user_id)

abbrev pub keys_url : Bytes → String → Bytes
keys_url relay_url user_id = relay_url ++ (text "/v1/keys/" ++ text user_id)

abbrev pub echo_prefix : Bytes
echo_prefix = text "echo: "

module _ {S B Raw Bundle Certificate : Type 0} (json : PeerJson B Raw) (http : HttpClient S B)
    (lib : Signal Bundle Certificate) (now : S → ℕ) (relay_url : Bytes) where
  abbrev print : Line → PeerState S → PeerState S
  print line p = record p { printed = p.printed ++ (line ∷ []) }

  pub send_reply : String → Bytes → PeerState S → Bool × PeerState S
  send_reply recipient body p =
      let address : ProtocolAddress = record { name = recipient; device_id = 1 } in
      let (encrypted, m) = encrypt lib address body (now p.http) p.manager in
      let p' = record p { manager = m } in
      elim encrypted [
        | err e ↦ (false, p')
        | ok envelope ↦ elim (json.envelope_json envelope) [
          | none ↦ (false, p')
          | some bytes ↦
              let (answer, s) = http.post (messages_url relay_url recipient) bytes p.http in
              (is_success answer, record p' { http = s })
        ]
      ]

  pub reply : String → Bytes → PeerState S → PeerState S
  unfolding send_reply
  reply sender body p =
      let (sent, p') = send_reply sender body p in print (if sent then replied else reply_failed) p'

  -- one message of an answer
  pub respond : Bool → Raw → PeerState S → PeerState S
  unfolding reply
  respond echo raw p = elim (json.envelope_of raw) [
    | none ↦ print skipped p
    | some envelope ↦
        let (decrypted, m) = decrypt lib envelope p.manager in
        elim decrypted [
          | err e ↦ print (decrypt_failed envelope.sender_id) (record p { manager = m })
          | ok plaintext ↦
              let body = json.from_utf8_lossy plaintext in
              let p' = print (received envelope.sender_id body) (record p { manager = m }) in
              if echo && not (envelope.sender_id == "")
              then reply envelope.sender_id (echo_prefix ++ body) p'
              else p'
        ]
  ]

  pub respond_all : Bool → List Raw → PeerState S → PeerState S
  unfolding respond
  respond_all echo [] p = p
  respond_all echo (raw ∷ raws) p = respond_all echo raws (respond echo raw p)

  -- one turn of the loop of `run`
  pub poll : Bool → String → PeerState S → PeerState S
  unfolding respond_all
  poll echo user_id p =
      let (answer, s) = http.get (messages_url relay_url user_id) p.http in
      let p' = record p { http = s } in
      elim answer [
        | none ↦ p'
        | some reply ↦ elim reply.body [
          | none ↦ p'
          | some body ↦ elim (json.messages_of body) [
            | none ↦ p'
            | some messages ↦ respond_all echo messages p'
          ]
        ]
      ]

  pub polls : ℕ → Bool → String → PeerState S → PeerState S
  unfolding poll
  polls zero echo user_id p = p
  polls (suc rounds) echo user_id p = polls rounds echo user_id (poll echo user_id p)

  module _ {Rng : Type 0} (keys : KeyLibrary Rng Bytes Bytes Bundle)
      (bundles : BundleLibrary Bundle) (id_of : Bytes → Result SignalError ℕ) where
    -- the store with the identity's prekeys; an error is a panic
    pub enrolled : LocalIdentity Bytes Bytes → Result String StoreState
    enrolled identity = do
      let fresh = Store.new identity.identity_key_pair identity.registration_id
      let (batch, s) = store_prekey_batch id_of identity.one_time_prekeys fresh
      stored ← map_err (λ e. "store prekeys") batch
      let (signed, s') = store_signed_prekey_record id_of identity.signed_prekey s
      signed_stored ← map_err (λ e. "store signed prekey") signed
      ok s'

    -- `run` up to its loop: `none` where it panics or exits
    pub start : LocalIdentity Bytes Bytes → String → S → Option (PeerState S)
    unfolding enrolled
    start identity user_id s = elim (enrolled identity) [
      | err e ↦ none
      | ok store ↦ elim (bundle_to_json keys bundles identity) [
        | err e ↦ none
        | ok object ↦
            let (answer, s') = http.post (keys_url relay_url user_id) (json.object_json object) s in
            let address : ProtocolAddress = record { name = user_id; device_id = 1 } in
            if is_success answer
            then some (record { manager = Session.new address store; http = s'; printed = [] })
            else none
      ]
    ]
