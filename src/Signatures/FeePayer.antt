-- ===== src/Signatures/FeePayer.antt =====
-- Who signs in the records of a fee-payer signature.
use aptos_etl.Prelude.{◌≡◌, Bool, true, false, Option, some, List, [], ◌∷◌, ◌++◌, map, ok}
use aptos_etl.Prelude.Text.{Text}
use aptos_etl.Address.{string}
use aptos_etl.Deferred.{present, deferred_fallback}
use aptos_etl.Signatures.Input.{AccountSignature, FeePayerSignature}
use aptos_etl.Signatures.{SignatureSubRecord, SignatureBuildType, from_accountsignature}

-- A record in one of the three roles, and in no other.
abbrev pub in_role : Bool → Bool → Bool → SignatureSubRecord → SignatureSubRecord
in_role is_sender is_feepayer is_secondary r = record r {
  buildtype = deferred_fallback SignatureBuildType.fee_payer;
  is_sender = present (some is_sender);
  is_feepayer = present (some is_feepayer);
  is_secondary = present (some is_secondary);
}

-- The same, under an address.
abbrev pub in_role_at : Text → Bool → Bool → Bool → SignatureSubRecord → SignatureSubRecord
in_role_at address is_sender is_feepayer is_secondary r =
    record (in_role is_sender is_feepayer is_secondary r) { signer = present (string address) }

-- The records of the other signers, each under the address that stands at its place. A signer or an
-- address without its partner has none.
abbrev pub OthersAt : List AccountSignature → List Text → List SignatureSubRecord → Type 0
OthersAt (s ∷ ss) (a ∷ addresses) rs =
    (own : List SignatureSubRecord) × (more : List SignatureSubRecord) × (from_accountsignature s
      ≡ ok own)
    × (rs ≡ map (in_role_at a false false true) own ++ more)
    × OthersAt ss addresses more
OthersAt [] addresses rs = rs ≡ []
OthersAt (s ∷ ss) [] rs = rs ≡ []

-- The records of the sender, then of the fee payer, then of the other signers.
abbrev pub InRoles : FeePayerSignature → List SignatureSubRecord → Type 0
InRoles s rs =
    (sender : AccountSignature) × (payer : AccountSignature) × (of_sender : List SignatureSubRecord)
    × (of_payer : List SignatureSubRecord) × (others : List SignatureSubRecord) × (s.sender
        ≡ some sender)
    × (from_accountsignature sender ≡ ok of_sender)
    × (s.fee_payer_signer ≡ some payer)
    × (from_accountsignature payer ≡ ok of_payer)
    × OthersAt s.secondary_signers s.secondary_signer_addresses others
    × (rs
        ≡ map (in_role true false false) of_sender
          ++ map (in_role_at s.fee_payer_address false true false) of_payer
          ++ others)

-- An account that has records is there.
abbrev Of : Option AccountSignature → List SignatureSubRecord → Type 0
Of o rs = (a : AccountSignature) × (o ≡ some a) × (from_accountsignature a ≡ ok rs)
