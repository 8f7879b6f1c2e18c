-- ===== src/Mesh/Bundle.antt =====
-- mesh/src/bundle.rs: framing an envelope as an RFC 9171 bundle. The crates bp7, serde_json and
-- hex are parameters, a `Codec`: the source reads of a decoded bundle what the record `Bundle` has.
pub mod Lifetime
use Prim.Native.Char.{code}
use Prim.Native.String
use parda.Base.{
  ℕ, ◌+◌, ◌-◌, ◌*◌, ◌%◌, ◌≡◌, String, Option, none, some, List, [], ◌∷◌, ◌++◌, Bytes, nat_beq,
  length, if◌then◌else◌,
}
use parda.Result.{ok, err, ok_or, ensure, map_err, ◌>>=◌, ◌>>◌}
use parda.Mesh.Error.{MeshResult, bundle_codec}
use parda.Protocol.Envelope.{MessageEnvelope, u64_mod}

-- The bytes of an ASCII text.
abbrev pub codes : String → Bytes
codes String.[] = []
codes (String.◌∷◌ c s) = code c ∷ codes s

-- `bp7::Bundle`: the primary block's destination as its URI, its times, and the payload block.
-- `lifetime` is a `Duration` in milliseconds.
pub record Bundle : Type 0 where
  pub destination : Bytes
  pub creation_ms : ℕ
  pub lifetime : ℕ
  pub payload : Option Bytes

pub record Codec : Type 0 where
  pub try_from : Bytes → Option Bundle
  pub to_cbor : Bundle → Bytes
  pub hex_encode : Bytes → Bytes
  pub hex_decode : Bytes → Option Bytes
  pub envelope_to_json : MessageEnvelope → Option Bytes
  pub envelope_from_json : Bytes → Option MessageEnvelope

unfoldable pub dead_drop_uri_prefix : Bytes
dead_drop_uri_prefix = codes "dtn://parda-dead-drop/"

abbrev pub default_max_lifetime_ms : ℕ
default_max_lifetime_ms = 7 * 24 * 60 * 60 * 1000

-- `str::strip_prefix`
unfoldable pub strip_prefix : Bytes → Bytes → Option Bytes
strip_prefix [] text = some text
strip_prefix (p ∷ ps) [] = none
strip_prefix (p ∷ ps) (t ∷ ts) = let rest = strip_prefix ps ts in if nat_beq p t then rest else none

module _ (c : Codec) where
  open c use {try_from, to_cbor, hex_encode, hex_decode, envelope_to_json, envelope_from_json}

  unfoldable pub destination_address : Bundle → MeshResult Bytes
  unfolding strip_prefix
  destination_address bundle = do
    hex_part ←
        ok_or (strip_prefix dead_drop_uri_prefix bundle.destination)
          (bundle_codec "not a PARDA dead-drop bundle")
    bytes ← ok_or (hex_decode hex_part) (bundle_codec "malformed address hex")
    ensure (nat_beq (length bytes) 32) (bundle_codec "address was not 32 bytes")
    ok bytes

  -- The lifetime that `wrap` declares.
  unfoldable pub lifetime_ms : MessageEnvelope → ℕ
  lifetime_ms envelope = elim envelope.self_destruct_at [
    | some deadline_ms ↦ deadline_ms - envelope.timestamp_ms
    | none ↦ default_max_lifetime_ms
  ]

  -- What `PrimaryBlockBuilder` and `Bundle::new` are given.
  unfoldable pub framed : ℕ → MessageEnvelope → Bytes → Bytes → Bundle
  unfolding lifetime_ms
  framed now_ms envelope address payload = record {
    destination = dead_drop_uri_prefix ++ hex_encode address;
    creation_ms = now_ms;
    lifetime = lifetime_ms envelope;
    payload = some payload;
  }

  -- The demux name is the prefix less its scheme; `with_dtn` puts the scheme back.
  unfoldable pub wrap : ℕ → MessageEnvelope → Bytes → MeshResult Bytes
  unfolding framed
  wrap now_ms envelope address = do
    payload ← ok_or (envelope_to_json envelope) (bundle_codec "envelope did not serialize")
    ok (to_cbor (framed now_ms envelope address payload))

  unfoldable pub bytes_as_bundle : Bytes → MeshResult Bundle
  bytes_as_bundle bytes = ok_or (try_from bytes) (bundle_codec "malformed bundle")

  unfoldable pub unwrap : Bytes → MeshResult (Bytes × MessageEnvelope)
  unfolding bytes_as_bundle destination_address
  unwrap bytes = do
    bundle ← bytes_as_bundle bytes
    address ← destination_address bundle
    payload ← ok_or bundle.payload (bundle_codec "bundle has no payload block")
    envelope ←
        ok_or (envelope_from_json payload) (bundle_codec "payload did not decode as an envelope")
    ok (address, envelope)

  -- The additions are those of `u64` in a release build.
  unfoldable pub expiry_ms : Bytes → MeshResult ℕ
  unfolding bytes_as_bundle
  expiry_ms bytes = do
    bundle ← bytes_as_bundle bytes
    ok ((bundle.creation_ms + bundle.lifetime % u64_mod) % u64_mod)
