-- ===== src/Signatures/Input.antt =====
-- The signatures of a transaction as the service sends them: the messages that
-- processing/reps/signatures.rs, sigvalue.rs and publickey.rs read. A type field that is out of its
-- enumeration reads as unspecified; `other` is a type added later.
use aptos_etl.Prelude.{ℕ, Option, List}
use aptos_etl.Prelude.Text.{Text}

abbrev pub Bytes : Type 0
Bytes = List ℕ

pub data AnySignatureType : Type 0 where
  unspecified ed25519 secp256k1_ecdsa webauthn keyless slh_dsa_sha2_128s : AnySignatureType
  other : ℕ → AnySignatureType

pub data SignatureVariant : Type 0 where
  ed25519 secp256k1_ecdsa webauthn keyless slh_dsa_sha2_128s : Bytes → SignatureVariant

pub record AnySignature : Type 0 where
  pub type_of : AnySignatureType
  pub signature_variant : Option SignatureVariant

pub record IndexedSignature : Type 0 where
  pub index : ℕ
  pub signature : Option AnySignature

pub data AnyPublicKeyType : Type 0 where
  unspecified ed25519 secp256k1_ecdsa secp256r1_ecdsa keyless federated_keyless slh_dsa_sha2_128s :
      AnyPublicKeyType
  other : ℕ → AnyPublicKeyType

pub record AnyPublicKey : Type 0 where
  pub type_of : AnyPublicKeyType
  pub public_key : Bytes

pub record Ed25519Signature : Type 0 where
  pub public_key : Bytes
  pub signature : Bytes

pub record MultiEd25519Signature : Type 0 where
  pub public_keys : List Bytes
  pub signatures : List Bytes
  pub threshold : ℕ
  pub public_key_indices : List ℕ

pub record SingleKeySignature : Type 0 where
  pub public_key : Option AnyPublicKey
  pub signature : Option AnySignature

pub record MultiKeySignature : Type 0 where
  pub public_keys : List AnyPublicKey
  pub signatures : List IndexedSignature
  pub signatures_required : ℕ

pub data AccountSignatureType : Type 0 where
  unspecified ed25519 multi_ed25519 single_key multi_key abstraction : AccountSignatureType

pub data AccountSignatureData : Type 0 where
  ed25519 : Ed25519Signature → AccountSignatureData
  multi_ed25519 : MultiEd25519Signature → AccountSignatureData
  single_key_signature : SingleKeySignature → AccountSignatureData
  multi_key_signature : MultiKeySignature → AccountSignatureData
  abstraction : Bytes → AccountSignatureData

pub record AccountSignature : Type 0 where
  pub type_of : AccountSignatureType
  pub signature : Option AccountSignatureData

pub record MultiAgentSignature : Type 0 where
  pub sender : Option AccountSignature
  pub secondary_signer_addresses : List Text
  pub secondary_signers : List AccountSignature

pub record FeePayerSignature : Type 0 where
  pub sender : Option AccountSignature
  pub secondary_signer_addresses : List Text
  pub secondary_signers : List AccountSignature
  pub fee_payer_address : Text
  pub fee_payer_signer : Option AccountSignature

pub data SignatureType : Type 0 where
  unspecified ed25519 multi_ed25519 multi_agent fee_payer single_sender : SignatureType

pub data SignatureData : Type 0 where
  ed25519 : Ed25519Signature → SignatureData
  multi_ed25519 : MultiEd25519Signature → SignatureData
  multi_agent : MultiAgentSignature → SignatureData
  fee_payer : FeePayerSignature → SignatureData
  single_sender : Option AccountSignature → SignatureData

pub record Signature : Type 0 where
  pub type_of : SignatureType
  pub signature : Option SignatureData
