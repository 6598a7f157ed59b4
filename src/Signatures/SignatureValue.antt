-- ===== src/Signatures/SignatureValue.antt =====
-- The value of a signature: processing/reps/sigvalue.rs.
use aptos_etl.Prelude.{ℕ, Option, none, some, Result, ok, err, ◌>>=◌}
use aptos_etl.Signatures.Input.{
  Bytes, AnySignatureType, SignatureVariant, AnySignature, IndexedSignature, unspecified, ed25519,
  secp256k1_ecdsa, webauthn, keyless, slh_dsa_sha2_128s, other,
}
use aptos_etl.Signatures.Values.{SigType, sig_type_name, SigValue, encoded_bytes}

pub data SigValueError : Type 0 where
  unspecified_value indexed_sig_missing_sig_data unsupported_signature_variant : SigValueError
  unmapped_type : AnySignatureType → SigValueError

pub record SigValueExtraction : Type 0 where
  pub value : Bytes
  pub sigvaltype : AnySignatureType
  pub index : Option ℕ

abbrev pub convert_type : AnySignatureType → Result SigValueError SigType
convert_type ed25519 = ok SigType.ed25519
convert_type secp256k1_ecdsa = ok SigType.secp256k1_ecdsa
convert_type keyless = ok SigType.keyless
convert_type webauthn = ok SigType.webauthn
convert_type slh_dsa_sha2_128s = ok SigType.slh_dsa_sha2_128s
convert_type unspecified = err unspecified_value
convert_type (other n) = err (unmapped_type (AnySignatureType.other n))

abbrev variant_bytes : SignatureVariant → Bytes
variant_bytes (ed25519 b) = b
variant_bytes (keyless b) = b
variant_bytes (secp256k1_ecdsa b) = b
variant_bytes (webauthn b) = b
variant_bytes (slh_dsa_sha2_128s b) = b

-- `TryFrom<&AnySignature>`
abbrev pub try_from : AnySignature → Result SigValueError SigValueExtraction
try_from s = elim s.signature_variant [
  | none ↦ err unsupported_signature_variant
  | some v ↦ ok (record { value = variant_bytes v; sigvaltype = s.type_of; index = none })
]

-- `TryFrom<&IndexedSignature>`
abbrev pub try_from_indexed : IndexedSignature → Result SigValueError SigValueExtraction
try_from_indexed s = elim s.signature [
  | none ↦ err indexed_sig_missing_sig_data
  | some anysig ↦ try_from anysig >>= λ e. ok (record e { index = some s.index })
]

-- `TryInto<SigValue>`
abbrev pub try_into : SigValueExtraction → Result SigValueError SigValue
try_into e = convert_type e.sigvaltype >>= λ ty.
    ok (record { type_of = sig_type_name ty; value = encoded_bytes e.value; index = e.index })
