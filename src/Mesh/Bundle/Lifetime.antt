-- ===== src/Mesh/Bundle/Lifetime.antt =====
-- What a framed envelope gives back, and when its carriers let go of it.
use parda.Base.{
  ℕ, ◌+◌, ◌-◌, ◌<◌, ◌≡◌, refl, some, [], ◌∷◌, ◌++◌, arith, Bytes, length, Option-cases, inl, inr,
}
use parda.Result.{ok}
use parda.Mesh.Bundle.{
  Bundle, Codec, strip_prefix, destination_address, wrap, unwrap, expiry_ms, framed,
  dead_drop_uri_prefix,
}
use parda.Protocol.Envelope.{MessageEnvelope, u64_mod}

-- What the crates document: decoding undoes encoding.
pub record CodecLaws (c : Codec) : Type 0 where
  pub try_from-to_cbor : (b : Bundle) → c.try_from (c.to_cbor b) ≡ some b
  pub hex_decode-encode : (a : Bytes) → c.hex_decode (c.hex_encode a) ≡ some a
  pub from_json-to_json :
      (e : MessageEnvelope) (b : Bytes)
      → c.envelope_to_json e ≡ some b
      → c.envelope_from_json b ≡ some e

pub strip_prefix-append : (p t : Bytes) → strip_prefix p (p ++ t) ≡ some t
unfolding strip_prefix
strip_prefix-append [] t = refl
strip_prefix-append (x ∷ p) t = ground (arith, strip_prefix-append p t)

module _ (c : Codec) (laws : CodecLaws c) where
  -- Where the codecs read back what they wrote, an address of 32 bytes and an envelope survive
  -- the framing.
  pub unwrap-wrap :
      (now_ms : ℕ) (e : MessageEnvelope) (address bytes : Bytes)
      → length address ≡ 32
      → wrap c now_ms e address ≡ ok bytes
      → unwrap c bytes ≡ ok (address, e)
  unfolding wrap unwrap destination_address
  unwrap-wrap now_ms e address bytes h w = elim (Option-cases (c.envelope_to_json e)) [
    | inl p ↦ ground arith
    | inr (payload, p) ↦ ground (
      arith,
      laws.try_from-to_cbor (framed c now_ms e address payload),
      strip_prefix-append dead_drop_uri_prefix (c.hex_encode address),
      laws.hex_decode-encode address,
      laws.from_json-to_json e payload,
    )
  ]

  -- The expiry that carriers read off the framed bytes of a message with a deadline.
  pub expiry_ms-wrap :
      (now_ms deadline : ℕ) (e : MessageEnvelope) (address bytes : Bytes)
      → e.self_destruct_at ≡ some deadline
      → now_ms + deadline < u64_mod
      → wrap c now_ms e address ≡ ok bytes
      → expiry_ms c bytes ≡ ok (now_ms + (deadline - e.timestamp_ms))
  unfolding wrap expiry_ms
  expiry_ms-wrap now_ms deadline e address bytes d b w =
      elim (Option-cases (c.envelope_to_json e)) [
        | inl p ↦ ground arith
        | inr (payload, p) ↦
            ground (arith, laws.try_from-to_cbor (framed c now_ms e address payload))
      ]

  -- The framed bytes decode to a bundle for the address.
  pub wrap-decodes :
      (now_ms : ℕ) (e : MessageEnvelope) (address bytes : Bytes)
      → length address ≡ 32
      → wrap c now_ms e address ≡ ok bytes
      → (b : Bundle) × (c.try_from bytes ≡ some b) × (destination_address c b ≡ ok address)
  unfolding wrap destination_address
  wrap-decodes now_ms e address bytes h w = elim (Option-cases (c.envelope_to_json e)) [
    | inl p ↦ absurd (ground arith)
    | inr (payload, p) ↦ (
      framed c now_ms e address payload,
      ground (arith, laws.try_from-to_cbor (framed c now_ms e address payload)),
      ground (
        arith,
        strip_prefix-append dead_drop_uri_prefix (c.hex_encode address),
        laws.hex_decode-encode address,
      ),
    )
  ]
