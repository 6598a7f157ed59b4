-- ===== src/Signatures.antt =====
-- The records of a transaction's signatures, before they are completed: processing/reps/signatures.rs.
pub mod Input
pub mod Values
pub mod SignatureValue
pub mod KeyValue
pub mod IndexMap
pub mod Roles
pub mod Accounts
pub mod Usable
pub mod Multi
pub mod FeePayer
pub mod Records
pub mod Safe
mod Tests
use aptos_etl.Prelude.{
  ℕ, suc, ◌^◌, ◌%◌, Bool, true, false, Option, none, some, List, [], ◌∷◌, ◌++◌, map, length, Result,
  ok, err, ◌>>=◌, map_err, map_ok, ◌==◌, if◌then◌else◌,
}
use aptos_etl.Prelude.Text.{Text, codes}
use aptos_etl.Address.{Address, string}
use aptos_etl.Deferred.{Deferred, deferred, present, deferred_fallback}
use Input.{
  Bytes, IndexedSignature, AnyPublicKey, Ed25519Signature, MultiEd25519Signature,
  SingleKeySignature, MultiKeySignature, AccountSignatureType, AccountSignatureData,
  AccountSignature, MultiAgentSignature, FeePayerSignature, SignatureType, SignatureData, Signature,
}
use Values.{
  SigType, sig_type_name, PublicKeyType, public_key_type_name, SigValue, PublicKey, encoded_bytes,
}
use SignatureValue.{SigValueError, SigValueExtraction}
use KeyValue.{PublicKeyError}
use IndexMap.{get, insert, remove}

pub data SignatureError : Type 0 where
  missing_signature_data missing_account_signature_data : SignatureError
  multi_ed25519_length_mismath : ℕ → ℕ → ℕ → SignatureError
  signature_value_issue : SigValueError → SignatureError
  multi_ed25519_multiple_pubkey_index_match : ℕ → SignatureError
  multi_key_multiple_signature_index_match : ℕ → SignatureError
  missing_single_sender unspecified_account_signature : SignatureError
  single_key_signature_missing_pub_key single_key_signature_missing_signature : SignatureError
  unspecified_signature_type fee_payer_missing_sender fee_payer_missing_fee_payer : SignatureError
  multi_agent_missing_sender : SignatureError
  pub_key_error : PublicKeyError → SignatureError

pub data SignatureBuildType : Type 0 where
  ed25519 multi_ed25519 multi_agent fee_payer single_sender : SignatureBuildType

pub record SignatureSubRecord : Type 0 where
  pub buildtype : Deferred SignatureBuildType
  pub public_key : PublicKey
  pub signature : Option SigValue
  pub threshold : Option ℕ
  pub signer : Deferred Address
  pub is_secondary : Deferred (Option Bool)
  pub is_feepayer : Deferred (Option Bool)
  pub is_sender : Deferred (Option Bool)

-- A record of one key, without a role.
abbrev pub of_key :
    Deferred SignatureBuildType → PublicKey → Option SigValue → Option ℕ → SignatureSubRecord
of_key buildtype public_key signature threshold = record {
  buildtype = buildtype;
  public_key = public_key;
  signature = signature;
  threshold = threshold;
  signer = deferred;
  is_secondary = present none;
  is_feepayer = present none;
  is_sender = present none;
}

unfoldable pub from_ed25519 : Ed25519Signature → SignatureSubRecord
from_ed25519 s =
    of_key (deferred_fallback ed25519)
      (record {
        type_of = sig_type_name SigType.ed25519;
        value = encoded_bytes s.public_key;
        index = none;
      })
      (some (record {
        type_of = sig_type_name SigType.ed25519;
        value = encoded_bytes s.signature;
        index = none;
      }))
      none

-- The loop that inserts the signatures of a multi-signature under the indices of their keys.
abbrev pub insert_all :
    {S : Type 0}
    → (S → ℕ)
    → (S → Result SignatureError SigValue)
    → (ℕ → SignatureError)
    → List S
    → List (ℕ × SigValue)
    → Result SignatureError (List (ℕ × SigValue))
insert_all index value twice [] sigs = ok sigs
insert_all index value twice (s ∷ ss) sigs = value s >>= λ v.
    let (old, sigs') = insert (index s) v sigs in
    elim old [ none ↦ insert_all index value twice ss sigs' | some _ ↦ err (twice (index s)) ]

-- The loop over the enumerated keys, which takes each key's signature out of the map.
abbrev pub take_all :
    {K : Type 0}
    → (ℕ → K → Option SigValue → Result SignatureError SignatureSubRecord)
    → ℕ
    → List K
    → List (ℕ × SigValue)
    → Result SignatureError (List SignatureSubRecord)
take_all make i [] sigs = ok []
take_all make i (k ∷ ks) sigs =
    let (found, sigs') = remove i sigs in
    make i k found >>= λ r. take_all make (suc i) ks sigs' >>= λ rs. ok (r ∷ rs)

abbrev pub zip : {A B : Type 0} → List A → List B → List (A × B)
zip (a ∷ as') (b ∷ bs) = (a, b) ∷ zip as' bs
zip [] bs = []
zip (a ∷ as') [] = []

abbrev pub ed25519_value : Bytes × ℕ → Result SignatureError SigValue
ed25519_value (sig, index) = ok (record {
  type_of = sig_type_name SigType.ed25519;
  value = encoded_bytes sig;
  index = some index;
})

abbrev pub ed25519_key : ℕ → ℕ → Bytes → Option SigValue → Result SignatureError SignatureSubRecord
ed25519_key threshold i pubkey found = ok (
    of_key (deferred_fallback multi_ed25519)
      (record {
        type_of = public_key_type_name PublicKeyType.ed25519;
        value = encoded_bytes pubkey;
        index = some (i % 2 ^ 32);
      })
      found (some threshold))

unfoldable pub from_multied25519 :
    MultiEd25519Signature → Result SignatureError (List SignatureSubRecord)
from_multied25519 s =
    if length s.signatures == length s.public_key_indices
    then (do
      sigs ←
          insert_all (λ p. p.1) ed25519_value multi_ed25519_multiple_pubkey_index_match
            (zip s.signatures s.public_key_indices) []
      take_all (ed25519_key s.threshold) 0 s.public_keys sigs)
    else err (
        multi_ed25519_length_mismath (length s.public_keys) (length s.signatures)
          (length s.public_key_indices))

unfoldable pub from_singlekeysignature :
    SingleKeySignature → Result SignatureError SignatureSubRecord
from_singlekeysignature s = elim s.public_key [
  | none ↦ err single_key_signature_missing_pub_key
  | some pubkey ↦ elim s.signature [
    | none ↦ err single_key_signature_missing_signature
    | some sig ↦ do
      extracted ← map_err signature_value_issue (SignatureValue.try_from sig)
      public_key ← map_err pub_key_error (KeyValue.try_into pubkey)
      signature ← map_err signature_value_issue (SignatureValue.try_into extracted)
      ok (of_key deferred public_key (some signature) none)
  ]
]

abbrev pub indexed_value : IndexedSignature → Result SignatureError SigValue
indexed_value s =
    map_err signature_value_issue (SignatureValue.try_from_indexed s >>= SignatureValue.try_into)

abbrev pub any_key :
    ℕ → ℕ → AnyPublicKey → Option SigValue → Result SignatureError SignatureSubRecord
any_key signatures_required i pubkey found =
    map_err pub_key_error (KeyValue.try_into pubkey) >>= λ public_key.
    ok (of_key deferred public_key found (some signatures_required))

unfoldable pub from_multikeysignature :
    MultiKeySignature → Result SignatureError (List SignatureSubRecord)
from_multikeysignature s = do
  sigs ←
      insert_all (λ sig. sig.index) indexed_value multi_key_multiple_signature_index_match
        s.signatures []
  take_all (any_key s.signatures_required) 0 s.public_keys sigs

unfoldable pub from_abstractionsignature : Bytes → SignatureSubRecord
from_abstractionsignature signature = record {
  buildtype = deferred;
  public_key = record { type_of = codes "Unspecified"; value = codes "Abstraction"; index = none };
  signature =
      some
        (record { type_of = codes "Abstraction"; value = encoded_bytes signature; index = none });
  threshold = none;
  signer = deferred;
  is_secondary = deferred_fallback none;
  is_feepayer = deferred_fallback none;
  is_sender = deferred_fallback none;
}

abbrev pub one : SignatureSubRecord → List SignatureSubRecord
one r = r ∷ []

-- The data has to be of the type that is announced.
unfoldable pub from_accountsignature :
    AccountSignature → Result SignatureError (List SignatureSubRecord)
from_accountsignature s = elim s.type_of [
  | AccountSignatureType.unspecified ↦ err unspecified_account_signature
  | AccountSignatureType.ed25519 ↦ elim s.signature [
    | none ↦ err missing_account_signature_data
    | some (AccountSignatureData.ed25519 sigdata) ↦ ok (one (from_ed25519 sigdata))
    | some _ ↦ err unspecified_account_signature
  ]
  | AccountSignatureType.multi_ed25519 ↦ elim s.signature [
    | none ↦ err missing_account_signature_data
    | some (AccountSignatureData.multi_ed25519 sigdata) ↦ from_multied25519 sigdata
    | some _ ↦ err unspecified_account_signature
  ]
  | AccountSignatureType.multi_key ↦ elim s.signature [
    | none ↦ err missing_account_signature_data
    | some (AccountSignatureData.multi_key_signature sigdata) ↦ from_multikeysignature sigdata
    | some _ ↦ err unspecified_account_signature
  ]
  | AccountSignatureType.single_key ↦ elim s.signature [
    | none ↦ err missing_account_signature_data
    | some (AccountSignatureData.single_key_signature sigdata) ↦
        map_ok one (from_singlekeysignature sigdata)
    | some _ ↦ err unspecified_account_signature
  ]
  | AccountSignatureType.abstraction ↦ elim s.signature [
    | none ↦ err missing_account_signature_data
    | some (AccountSignatureData.abstraction sigdata) ↦ ok (one (from_abstractionsignature sigdata))
    | some _ ↦ err unspecified_account_signature
  ]
]
