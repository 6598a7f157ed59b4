-- ===== src/Signatures/Roles.antt =====
-- The signatures of several accounts, each account in its role: the rest of
-- processing/reps/signatures.rs.
use aptos_etl.Prelude.{
  true, false, Option, none, some, List, [], ◌∷◌, ◌++◌, map, Result, ok, err, ◌>>=◌,
}
use aptos_etl.Prelude.Text.{Text}
use aptos_etl.Address.{string}
use aptos_etl.Deferred.{present, deferred_fallback}
use aptos_etl.Signatures.Input.{
  AccountSignature, MultiAgentSignature, FeePayerSignature, SignatureType, SignatureData, Signature,
}
use aptos_etl.Signatures.{
  SignatureError, missing_signature_data, missing_single_sender, unspecified_signature_type,
  fee_payer_missing_sender, fee_payer_missing_fee_payer, multi_agent_missing_sender,
  SignatureBuildType, SignatureSubRecord, from_ed25519, from_multied25519, from_accountsignature,
  zip, one,
}

-- The records of the secondary signers that have an address.
abbrev pub secondary :
    (Text → SignatureSubRecord → SignatureSubRecord)
    → List (AccountSignature × Text)
    → Result SignatureError (List SignatureSubRecord)
secondary update [] = ok []
secondary update ((acctsig, addrstr) ∷ rest) = from_accountsignature acctsig >>= λ rs.
    secondary update rest >>= λ more. ok (map (update addrstr) rs ++ more)

abbrev pub agent_secondary : Text → SignatureSubRecord → SignatureSubRecord
agent_secondary addrstr r = record r {
  buildtype = deferred_fallback SignatureBuildType.multi_agent;
  signer = present (string addrstr);
  is_secondary = present (some true);
  is_sender = present (some false);
}

abbrev pub agent_sender : SignatureSubRecord → SignatureSubRecord
agent_sender r = record r {
  buildtype = deferred_fallback SignatureBuildType.multi_agent;
  is_secondary = present (some false);
  is_sender = present (some true);
}

unfoldable pub from_multiagentsignature :
    MultiAgentSignature → Result SignatureError (List SignatureSubRecord)
from_multiagentsignature s = do
  subrecords ← secondary agent_secondary (zip s.secondary_signers s.secondary_signer_addresses)
  elim s.sender [
    | none ↦ err multi_agent_missing_sender
    | some sender ↦ from_accountsignature sender >>= λ rs. ok (subrecords ++ map agent_sender rs)
  ]

abbrev pub payer_sender : SignatureSubRecord → SignatureSubRecord
payer_sender r = record r {
  buildtype = deferred_fallback SignatureBuildType.fee_payer;
  is_feepayer = present (some false);
  is_secondary = present (some false);
  is_sender = present (some true);
}

abbrev pub payer_feepayer : Text → SignatureSubRecord → SignatureSubRecord
payer_feepayer fee_payer_address r = record r {
  buildtype = deferred_fallback SignatureBuildType.fee_payer;
  signer = present (string fee_payer_address);
  is_feepayer = present (some true);
  is_secondary = present (some false);
  is_sender = present (some false);
}

abbrev pub payer_secondary : Text → SignatureSubRecord → SignatureSubRecord
payer_secondary addr_string r = record r {
  buildtype = deferred_fallback SignatureBuildType.fee_payer;
  signer = present (string addr_string);
  is_feepayer = present (some false);
  is_secondary = present (some true);
  is_sender = present (some false);
}

-- `none` is the missing account's error.
abbrev pub account_records :
    SignatureError → Option AccountSignature → Result SignatureError (List SignatureSubRecord)
account_records missing none = err missing
account_records missing (some account) = from_accountsignature account

unfoldable pub from_feepayersignature :
    FeePayerSignature → Result SignatureError (List SignatureSubRecord)
from_feepayersignature s = do
  sender ← account_records fee_payer_missing_sender s.sender
  feepayer ← account_records fee_payer_missing_fee_payer s.fee_payer_signer
  others ← secondary payer_secondary (zip s.secondary_signers s.secondary_signer_addresses)
  ok (map payer_sender sender ++ map (payer_feepayer s.fee_payer_address) feepayer ++ others)

abbrev pub of_single_sender : SignatureSubRecord → SignatureSubRecord
of_single_sender r = record r { buildtype = deferred_fallback SignatureBuildType.single_sender }

unfoldable pub from_singlesender :
    Option AccountSignature → Result SignatureError (List SignatureSubRecord)
from_singlesender sender =
    account_records missing_single_sender sender >>= λ rs. ok (map of_single_sender rs)

unfoldable pub from_signature : Signature → Result SignatureError (List SignatureSubRecord)
from_signature s = elim s.type_of [
  | SignatureType.unspecified ↦ err unspecified_signature_type
  | SignatureType.ed25519 ↦ elim s.signature [
    | none ↦ err missing_signature_data
    | some (SignatureData.ed25519 sigdata) ↦ ok (one (from_ed25519 sigdata))
    | some _ ↦ err unspecified_signature_type
  ]
  | SignatureType.multi_ed25519 ↦ elim s.signature [
    | none ↦ err missing_signature_data
    | some (SignatureData.multi_ed25519 sigdata) ↦ from_multied25519 sigdata
    | some _ ↦ err unspecified_signature_type
  ]
  | SignatureType.multi_agent ↦ elim s.signature [
    | none ↦ err missing_signature_data
    | some (SignatureData.multi_agent sigdata) ↦ from_multiagentsignature sigdata
    | some _ ↦ err unspecified_signature_type
  ]
  | SignatureType.fee_payer ↦ elim s.signature [
    | none ↦ err missing_signature_data
    | some (SignatureData.fee_payer sigdata) ↦ from_feepayersignature sigdata
    | some _ ↦ err unspecified_signature_type
  ]
  | SignatureType.single_sender ↦ elim s.signature [
    | none ↦ err missing_signature_data
    | some (SignatureData.single_sender sender) ↦ from_singlesender sender
    | some _ ↦ err unspecified_signature_type
  ]
]
