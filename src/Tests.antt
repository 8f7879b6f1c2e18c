-- ===== src/Tests.antt =====
-- Concrete data for the examples: an AEAD, a codec, a Sphinx library and some messages.
mod SelfDestruct
mod Protocol
mod Mesh
mod Delivery
mod Server
mod ClientStore
mod Gateway
mod Transport
mod Session
mod Keys
mod Radio
mod Node
mod Cover
mod Pull
mod Bridge
mod Peer
mod Stub
mod SecureMemory
use parda.Base.{
  ℕ, ◌+◌, ◌≡◌, refl, ap, ◌∙◌, Bool, true, false, ◌&&◌, Option, none, some, List, [], ◌∷◌, ◌++◌,
  arith, Bytes, String, length, take, drop, replicate, take-append, drop-append, nat_beq, bytes_beq,
  bytes_beq_iff, if◌then◌else◌, ◌==◌, string_key, eq_iff, not,
}
use parda.Result.{Result, ok, err}
use parda.Protocol.Envelope.{
  MessageEnvelope, EnvelopeType, pre_key, ratchet, sealed_sender_type, is_sealed_type,
}
use parda.Protocol.SelfDestruct.{Crypto, Env}
use parda.Protocol.SelfDestruct.Run.Readable.{Opens}
use parda.Protocol.Mixnet.{Sphinx, MixNodeDescriptor, ProcessedPacketData, forward_hop}
use parda.Mesh.Bundle.{Codec, Bundle, dead_drop_uri_prefix}
use parda.Mesh.Bundle.Lifetime.{CodecLaws}

abbrev strip : Bytes → Bytes → Option Bytes
strip [] text = some text
strip (p ∷ ps) [] = none
strip (p ∷ ps) (t ∷ ts) = if nat_beq p t then strip ps ts else none

strip-append : (p t : Bytes) → strip p (p ++ t) ≡ some t
strip-append [] t = refl
strip-append (x ∷ p) t = ground (arith, strip-append p t)

-- An AEAD whose ciphertext starts with the key.
abbrev pub test_crypto : Crypto
test_crypto = record {
  hkdf_expand = λ ikm info. ikm ++ info;
  encrypt = λ key nonce plaintext. some (key ++ plaintext);
  decrypt = λ key nonce ciphertext. strip key ciphertext;
}

pub test_crypto-Opens : Opens test_crypto
test_crypto-Opens key nonce plaintext ciphertext h = ground (arith, strip-append key plaintext)

abbrev pub test_env : Env
test_env = record {
  lock = true;
  seed = 9 ∷ [];
  nonce = replicate 12 7;
  wall_ms = 1000;
  monotonic_ms = 50;
}

abbrev pub address_32 : Bytes
address_32 = replicate 32 5

abbrev pub test_envelope : MessageEnvelope
test_envelope = record {
  sender_id = "";
  recipient_id = "";
  ciphertext = 1 ∷ 2 ∷ [];
  envelope_type = sealed_sender_type;
  timestamp_ms = 1000;
  version = 2;
  sealed_sender = true;
  routing_hint = none;
  self_destruct_at = some 5000;
  read_triggered_destruct = false;
  dead_drop_address = some address_32;
}

abbrev has_value : Option ℕ → ℕ → Bool
has_value none n = false
has_value (some m) n = nat_beq m n

abbrev has_bytes : Option Bytes → Bytes → Bool
has_bytes none b = false
has_bytes (some a) b = bytes_beq a b

abbrev is_none : Option Bytes → Bool
is_none none = true
is_none (some a) = false

-- The one envelope that the test codec knows.
abbrev is_test_envelope : MessageEnvelope → Bool
is_test_envelope e =
    (e.sender_id == "")
    && ((e.recipient_id == "")
        && (bytes_beq e.ciphertext (1 ∷ 2 ∷ [])
            && (is_sealed_type e.envelope_type
                && (nat_beq e.timestamp_ms 1000
                    && (nat_beq e.version 2
                        && (e.sealed_sender
                            && (is_none e.routing_hint
                                && (has_value e.self_destruct_at 5000
                                    && (not e.read_triggered_destruct
                                        && has_bytes e.dead_drop_address address_32)))))))))

has_bytes_iff : (o : Option Bytes) (b : Bytes) → has_bytes o b ≡ true → o ≡ some b
has_bytes_iff none b h = cc
has_bytes_iff (some a) b h = ap some ((bytes_beq_iff a b).0 h)

is_test_envelope_iff : (e : MessageEnvelope) → is_test_envelope e ≡ true → e ≡ test_envelope
is_test_envelope_iff e h = ground (
  arith,
  eq_iff e.sender_id "",
  eq_iff e.recipient_id "",
  bytes_beq_iff e.ciphertext (1 ∷ 2 ∷ []),
  has_bytes_iff e.dead_drop_address address_32,
)

abbrev payload_flag : Option Bytes → ℕ
payload_flag none = 0
payload_flag (some payload) = 1

abbrev payload_bytes : Option Bytes → Bytes
payload_bytes none = []
payload_bytes (some payload) = payload

abbrev parse : Bytes → Option Bundle
parse (creation ∷ life ∷ flag ∷ n ∷ rest) = some (record {
  destination = take n rest;
  creation_ms = creation;
  lifetime = life;
  payload = if nat_beq flag 1 then some (drop n rest) else none;
})
parse _ = none

abbrev pub test_codec : Codec
test_codec = record {
  try_from = parse;
  to_cbor = λ b.
      b.creation_ms ∷ b.lifetime ∷ payload_flag b.payload ∷ length b.destination ∷ b.destination
      ++ payload_bytes b.payload;
  hex_encode = λ a. a;
  hex_decode = λ a. some a;
  envelope_to_json = λ e. if is_test_envelope e then some (7 ∷ []) else none;
  envelope_from_json = λ b. if bytes_beq b (7 ∷ []) then some test_envelope else none;
}

payload-round :
    (o : Option Bytes) → (if nat_beq (payload_flag o) 1 then some (payload_bytes o) else none) ≡ o
payload-round none = refl
payload-round (some payload) = refl

pub test_codec-CodecLaws : CodecLaws test_codec
test_codec-CodecLaws = record {
  try_from-to_cbor = λ b. ground (
    arith,
    take-append b.destination (payload_bytes b.payload),
    drop-append b.destination (payload_bytes b.payload),
    payload-round b.payload,
  );
  hex_decode-encode = λ a. refl;
  from_json-to_json = λ e b h. ground (arith, is_test_envelope_iff e);
}

-- The test envelope for the address of 32 bytes, framed at time 2000.
abbrev pub framed_bytes : Bytes
framed_bytes = test_codec.to_cbor (record {
  destination = dead_drop_uri_prefix ++ address_32;
  creation_ms = 2000;
  lifetime = 4000;
  payload = some (7 ∷ []);
})

abbrev pub test_sphinx : Sphinx
test_sphinx = record {
  node_address_length = 32;
  destination_address_length = 32;
  process = λ packet secret. some (forward_hop packet (2 ∷ 8 ∷ 9 ∷ []) 30);
  build = λ size payload route destination delays. some (length route ∷ payload);
  recover_plaintext = λ payload. some payload;
  is_utf8 = λ b. true;
  choose_multiple = λ n nodes. take n nodes;
  generate_delays = λ n average. replicate n average;
}
