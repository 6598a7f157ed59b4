-- ===== src/Signatures/KeyValue.antt =====
-- A public key: processing/reps/publickey.rs.
use aptos_etl.Prelude.{none, Result, ok, err, ◌>>=◌}
use aptos_etl.Signatures.Input.{
  AnyPublicKeyType, AnyPublicKey, unspecified, ed25519, secp256k1_ecdsa, secp256r1_ecdsa, keyless,
  federated_keyless, slh_dsa_sha2_128s, other,
}
use aptos_etl.Signatures.Values.{PublicKeyType, public_key_type_name, PublicKey, encoded_bytes}

pub data PublicKeyError : Type 0 where
  unspecified_key : PublicKeyError
  unmapped_type : AnyPublicKeyType → PublicKeyError

abbrev pub convert_type : AnyPublicKeyType → Result PublicKeyError PublicKeyType
convert_type ed25519 = ok PublicKeyType.ed25519
convert_type secp256k1_ecdsa = ok PublicKeyType.secp256k1_ecdsa
convert_type keyless = ok PublicKeyType.keyless
convert_type secp256r1_ecdsa = ok PublicKeyType.secp256r1_ecdsa
convert_type federated_keyless = ok PublicKeyType.federated_keyless
convert_type slh_dsa_sha2_128s = ok PublicKeyType.slh_dsa_sha2_128s
convert_type unspecified = err unspecified_key
convert_type (other n) = err (unmapped_type (AnyPublicKeyType.other n))

-- `From<&AnyPublicKey>`, then `TryInto<PublicKey>`
abbrev pub try_into : AnyPublicKey → Result PublicKeyError PublicKey
try_into k = convert_type k.type_of >>= λ ty.
    ok (record {
      type_of = public_key_type_name ty;
      value = encoded_bytes k.public_key;
      index = none;
    })
