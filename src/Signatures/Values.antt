-- ===== src/Signatures/Values.antt =====
-- Signature values and public keys as they are published, with the names that
-- proto_src/signatures.proto gives to their types.
use aptos_etl.Prelude.{ℕ, Option}
use aptos_etl.Prelude.Text.{Text, codes}
use aptos_etl.HashValue.{encode}
use aptos_etl.Signatures.Input.{Bytes}

pub data SigType : Type 0 where
  unspecified ed25519 secp256k1_ecdsa webauthn zkid keyless slh_dsa_sha2_128s : SigType

-- `as_str_name`
abbrev pub sig_type_name : SigType → Text
sig_type_name unspecified = codes "unspecified"
sig_type_name ed25519 = codes "ed25519"
sig_type_name secp256k1_ecdsa = codes "secp256k1_ecdsa"
sig_type_name webauthn = codes "webauthn"
sig_type_name zkid = codes "zkid"
sig_type_name keyless = codes "keyless"
sig_type_name slh_dsa_sha2_128s = codes "slh_dsa_sha2_128s"

pub data PublicKeyType : Type 0 where
  unspecified ed25519 secp256k1_ecdsa secp256r1_ecdsa keyless federated_keyless slh_dsa_sha2_128s :
      PublicKeyType

abbrev pub public_key_type_name : PublicKeyType → Text
public_key_type_name unspecified = codes "unspecified"
public_key_type_name ed25519 = codes "ed25519"
public_key_type_name secp256k1_ecdsa = codes "secp256k1_ecdsa"
public_key_type_name secp256r1_ecdsa = codes "secp256r1_ecdsa"
public_key_type_name keyless = codes "keyless"
public_key_type_name federated_keyless = codes "federated_keyless"
public_key_type_name slh_dsa_sha2_128s = codes "slh_dsa_sha2_128s"

pub record SigValue : Type 0 where
  pub type_of : Text
  pub value : Text
  pub index : Option ℕ

pub record PublicKey : Type 0 where
  pub type_of : Text
  pub value : Text
  pub index : Option ℕ

-- `HashValue::from(bytes).encode()`
abbrev pub encoded_bytes : Bytes → Text
encoded_bytes bytes = encode (record { bytes = bytes })
