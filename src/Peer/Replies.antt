-- ===== src/Peer/Replies.antt =====
-- What a poll of the peer posts and prints, over a client that keeps what it has posted.
use mathlib.Core.List.{Mem}
use parda.Base.{
  ℕ, ◌≡◌, ◌≢◌, ◌≤◌, Bool, true, false, Option, none, some, List, [], ◌∷◌, ◌++◌, String, Bytes, All,
  length, keep_if, string_key, if◌then◌else◌,
}
use parda.Result.{ok, is_ok}
use parda.Protocol.Envelope.{MessageEnvelope}
use parda.Protocol.Session.{Signal, SessionManager}
use parda.Protocol.Session.Decryption.{decrypt}
use parda.Protocol.Transport.{Reply}
use parda.Peer.{
  HttpClient, Line, skipped, received, decrypt_failed, replied, reply_failed, PeerJson, PeerState,
  messages_url,
}

-- A client that answers by what was posted before, and keeps each post, the latest first.
abbrev pub posting :
    {B : Type 0}
    → (List (Bytes × Bytes) → Option (Reply B))
    → (List (Bytes × Bytes) → Bytes → Option (Reply B))
    → HttpClient (List (Bytes × Bytes)) B
posting on_post on_get = record {
  post = λ url body log. (on_post ((url, body) ∷ log), (url, body) ∷ log);
  get = λ url log. (on_get log url, log);
}

-- whether a line tells of a message, and not of a reply
abbrev pub of_message : Line → Bool
of_message skipped = true
of_message (received sender body) = true
of_message (decrypt_failed sender) = true
of_message replied = false
of_message reply_failed = false

module _ {B Raw Bundle Certificate : Type 0} (json : PeerJson B Raw)
    (lib : Signal Bundle Certificate) (now : List (Bytes × Bytes) → ℕ)
    (on_post : List (Bytes × Bytes) → Option (Reply B))
    (on_get : List (Bytes × Bytes) → Bytes → Option (Reply B)) (relay_url : Bytes) where
  -- The post goes to the URL that is made of the name of a sender; a fetched envelope names that
  -- sender, and decrypted in some state of the sessions.
  pub record IsReply (raws : List Raw) (url : Bytes) : Type 0 where
    pub raw : Raw
    pub inside : Mem raw raws
    pub envelope : MessageEnvelope
    pub parsed : json.envelope_of raw ≡ some envelope
    pub named : envelope.sender_id ≢ ""
    pub manager : SessionManager
    pub plaintext : Bytes
    pub decrypted : (decrypt lib envelope manager).0 ≡ ok plaintext
    pub addressed : url ≡ messages_url relay_url envelope.sender_id

  -- what a line says of the message that it tells of
  abbrev pub About : Raw → Line → Type 0
  About raw skipped = json.envelope_of raw ≡ none
  About raw (received sender body) =
      (envelope : MessageEnvelope) × (json.envelope_of raw ≡ some envelope)
      × (sender ≡ envelope.sender_id)
      × ((manager : SessionManager) × (plaintext : Bytes) × ((decrypt lib envelope manager).0
            ≡ ok plaintext)
          × (body ≡ json.from_utf8_lossy plaintext))
  About raw (decrypt_failed sender) =
      (envelope : MessageEnvelope) × (json.envelope_of raw ≡ some envelope)
      × (sender ≡ envelope.sender_id)
      × ((manager : SessionManager) × (is_ok (decrypt lib envelope manager).0 ≡ false))
  About raw replied = ⊥
  About raw reply_failed = ⊥

  -- one line about each message, in their order
  abbrev pub Tells : List Raw → List Line → Type 0
  Tells [] [] = Unit
  Tells [] (line ∷ lines) = ⊥
  Tells (raw ∷ raws) [] = ⊥
  Tells (raw ∷ raws) (line ∷ lines) = About raw line × Tells raws lines

  -- what answering some of the fetched messages adds to the posts and the lines
  pub record Answered (echo : Bool) (fetched raws : List Raw)
      (p p' : PeerState (List (Bytes × Bytes))) : Type 0 where
    pub posts : List (Bytes × Bytes)
    pub posted : p'.http ≡ posts ++ p.http
    pub are_replies : All (λ q. IsReply fetched q.0) posts
    pub few : length posts ≤ (if echo then length raws else 0)
    pub lines : List Line
    pub shown : p'.printed ≡ p.printed ++ lines
    pub told : Tells raws (keep_if of_message lines)

  -- what a reply adds, whether it is sent or not
  abbrev Posted :
      String → PeerState (List (Bytes × Bytes)) → PeerState (List (Bytes × Bytes)) → Type 0
  Posted recipient p p' =
      (posts : List (Bytes × Bytes)) × (p'.http ≡ posts ++ p.http)
      × All (λ q. q.0 ≡ messages_url relay_url recipient) posts
      × (length posts ≤ 1)
      × (p'.printed ≡ p.printed)
