-- ===== src/Mesh/Error.antt =====
-- mesh/src/error.rs. A message's interpolated values are dropped from its text.
use parda.Base.{String}
use parda.Result.{Result}
use parda.Protocol.Error.{PardaError}

pub data MeshError : Type 0 where
  peer_unreachable : MeshError
  radio_unavailable link bundle_codec relay_refused : String → MeshError
  no_bundle_for_address : MeshError
  protocol : PardaError → MeshError

abbrev pub MeshResult {ℓ} : Type ℓ → Type ℓ
MeshResult A = Result MeshError A
