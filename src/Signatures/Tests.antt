-- ===== src/Signatures/Tests.antt =====
-- Signatures at concrete inputs.
use aptos_etl.Prelude.{◌≡◌, refl, some, List, [], ◌∷◌, ok, All}
use aptos_etl.Prelude.Text.{codes}
use aptos_etl.Signatures.Input.{
  Ed25519Signature, MultiEd25519Signature, AccountSignature, AccountSignatureType,
  AccountSignatureData, FeePayerSignature, Signature, SignatureType, SignatureData,
}
use aptos_etl.Signatures.{
  SignatureSubRecord, from_ed25519, from_multied25519, from_accountsignature,
}
use aptos_etl.Signatures.Roles.{
  from_signature, from_feepayersignature, payer_sender, payer_feepayer,
}
use aptos_etl.Signatures.Accounts.{Usable}
use aptos_etl.Signatures.Usable.{from_signature-Usable}
use aptos_etl.Signatures.Multi.{key_records, from_multied25519-key_records}
use aptos_etl.Signatures.Records.{get_signatures}
use aptos_etl.Signatures.Safe.{Safe, get_signatures-Safe}
use aptos_etl.Transaction.Toy.{protos, user_data, extraction, calendar}

abbrev key : Ed25519Signature
key = record { public_key = 1 ∷ 2 ∷ []; signature = 3 ∷ [] }

abbrev account : AccountSignature
account = record {
  type_of = AccountSignatureType.ed25519;
  signature = some (AccountSignatureData.ed25519 key);
}

abbrev payer : FeePayerSignature
payer = record {
  sender = some account;
  secondary_signer_addresses = [];
  secondary_signers = [];
  fee_payer_address = codes "0x7";
  fee_payer_signer = some account;
}

abbrev payer_records : List SignatureSubRecord
payer_records =
    payer_sender (from_ed25519 key) ∷ payer_feepayer (codes "0x7") (from_ed25519 key) ∷ []

payer_made : from_feepayersignature payer ≡ ok payer_records
unfolding from_feepayersignature from_accountsignature
payer_made = refl

abbrev payer_signature : Signature
payer_signature = record {
  type_of = SignatureType.fee_payer;
  signature = some (SignatureData.fee_payer payer);
}

signature_made : from_signature payer_signature ≡ ok payer_records
unfolding from_signature
signature_made = payer_made

from_signature-Usable_example : All Usable payer_records
from_signature-Usable_example = from_signature-Usable payer_signature payer_records signature_made

-- Two keys, of which the second has signed.
abbrev multi : MultiEd25519Signature
multi = record {
  public_keys = (1 ∷ []) ∷ (2 ∷ []) ∷ [];
  signatures = (9 ∷ []) ∷ [];
  threshold = 1;
  public_key_indices = 1 ∷ [];
}

from_multied25519-key_records_example :
    from_multied25519 multi ≡ ok (key_records 1 0 ((1 ∷ []) ∷ (2 ∷ []) ∷ []) ((9 ∷ [], 1) ∷ []))
from_multied25519-key_records_example = from_multied25519-key_records multi refl (tt, tt)

get_signatures-Safe_example :
    Safe protos (get_signatures protos calendar (extraction (user_data payer_signature)))
get_signatures-Safe_example =
    get_signatures-Safe protos calendar (extraction (user_data payer_signature))
