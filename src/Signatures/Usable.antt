-- ===== src/Signatures/Usable.antt =====
-- Every record of a signature can be completed: its deferred parts have values.
use aptos_etl.Prelude.{
  ◌≡◌, refl, subst, Option, none, some, List, [], ◌∷◌, ◌++◌, map, ok, All, >>=-Gives, Gives,
}
use aptos_etl.Prelude.Text.{Text}
use aptos_etl.Signatures.Input.{
  AccountSignature, FeePayerSignature, SignatureType, SignatureData, Signature,
}
use aptos_etl.Signatures.{SignatureSubRecord, from_ed25519, zip}
use aptos_etl.Signatures.Roles.{
  secondary, agent_secondary, agent_sender, payer_sender, payer_feepayer, payer_secondary,
  of_single_sender, from_multiagentsignature, from_feepayersignature, from_singlesender,
  from_signature,
}
use aptos_etl.Signatures.Accounts.{
  RolesUsable, Usable, All-map, All-both, from_multied25519-Usable,
  from_accountsignature-RolesUsable, account_records-RolesUsable,
}

map-Usable :
    (update : SignatureSubRecord → SignatureSubRecord) (rs : List SignatureSubRecord)
    → ((r : SignatureSubRecord) → RolesUsable r → Usable (update r))
    → All RolesUsable rs
    → All Usable (map update rs)
map-Usable update rs completes all = All-map RolesUsable Usable update rs completes all

secondary-Usable :
    (update : Text → SignatureSubRecord → SignatureSubRecord)
    → ((a : Text) (r : SignatureSubRecord) → RolesUsable r → Usable (update a r))
    → (ss : List (AccountSignature × Text)) → Gives (All Usable) (secondary update ss)
secondary-Usable update completes [] = tt
secondary-Usable update completes ((s, a) ∷ ss) =
    >>=-Gives (All RolesUsable) (All Usable) _ _ (from_accountsignature-RolesUsable s) (λ rs h.
      >>=-Gives (All Usable) (All Usable) _ _ (secondary-Usable update completes ss) (λ more h'.
        All-both Usable (map (update a) rs) more (map-Usable (update a) rs (completes a) h) h'))

multiagent-Usable :
    (sender : Option AccountSignature) (addresses : List Text) (signers : List AccountSignature)
    → Gives (All Usable) (
        from_multiagentsignature (record {
          sender = sender;
          secondary_signer_addresses = addresses;
          secondary_signers = signers;
        }))
unfolding from_multiagentsignature
multiagent-Usable none addresses signers =
    >>=-Gives (All Usable) (All Usable) (secondary agent_secondary (zip signers addresses)) _
      (secondary-Usable agent_secondary (λ a r h. (refl, (refl, h.1, refl)))
        (zip signers addresses))
      (λ rs h. tt)
multiagent-Usable (some s) addresses signers =
    >>=-Gives (All Usable) (All Usable) (secondary agent_secondary (zip signers addresses)) _
      (secondary-Usable agent_secondary (λ a r h. (refl, (refl, h.1, refl)))
        (zip signers addresses))
      (λ rs h.
        >>=-Gives (All RolesUsable) (All Usable) _ _ (from_accountsignature-RolesUsable s)
          (λ more h'.
            All-both Usable rs (map agent_sender more) h
              (map-Usable agent_sender more (λ r k. (refl, (refl, k.1, refl))) h')))

from_feepayersignature-Usable :
    (s : FeePayerSignature) → Gives (All Usable) (from_feepayersignature s)
unfolding from_feepayersignature
from_feepayersignature-Usable s =
    >>=-Gives (All RolesUsable) (All Usable) _ _ (account_records-RolesUsable _ s.sender)
      (λ sender h.
        >>=-Gives (All RolesUsable) (All Usable) _ _
          (account_records-RolesUsable _ s.fee_payer_signer)
          (λ payer h'.
            >>=-Gives (All Usable) (All Usable)
              (secondary payer_secondary (zip s.secondary_signers s.secondary_signer_addresses)) _
              (secondary-Usable payer_secondary (λ a r k. (refl, (refl, refl, refl)))
                (zip s.secondary_signers s.secondary_signer_addresses))
              (λ others h''.
                All-both Usable
                  (map payer_sender sender ++ map (payer_feepayer s.fee_payer_address) payer) others
                  (All-both Usable (map payer_sender sender)
                    (map (payer_feepayer s.fee_payer_address) payer)
                    (map-Usable payer_sender sender (λ r k. (refl, (refl, refl, refl))) h)
                    (map-Usable (payer_feepayer s.fee_payer_address) payer
                      (λ r k. (refl, (refl, refl, refl))) h'))
                  h'')))

from_singlesender-Usable :
    (sender : Option AccountSignature) → Gives (All Usable) (from_singlesender sender)
unfolding from_singlesender
from_singlesender-Usable sender =
    >>=-Gives (All RolesUsable) (All Usable) _ _ (account_records-RolesUsable _ sender)
      (λ rs h. map-Usable of_single_sender rs (λ r k. (refl, k)) h)

signature-Usable :
    (t : SignatureType) (d : Option SignatureData)
    → Gives (All Usable) (from_signature (record { type_of = t; signature = d }))
unfolding from_signature from_ed25519
signature-Usable SignatureType.unspecified d = tt
signature-Usable SignatureType.ed25519 none = tt
signature-Usable SignatureType.ed25519 (some (SignatureData.ed25519 x)) =
    ((refl, (refl, refl, refl)), tt)
signature-Usable SignatureType.ed25519 (some _) = tt
signature-Usable SignatureType.multi_ed25519 none = tt
signature-Usable SignatureType.multi_ed25519 (some (SignatureData.multi_ed25519 x)) =
    from_multied25519-Usable x
signature-Usable SignatureType.multi_ed25519 (some _) = tt
signature-Usable SignatureType.multi_agent none = tt
signature-Usable SignatureType.multi_agent (some (SignatureData.multi_agent x)) =
    multiagent-Usable x.sender x.secondary_signer_addresses x.secondary_signers
signature-Usable SignatureType.multi_agent (some _) = tt
signature-Usable SignatureType.fee_payer none = tt
signature-Usable SignatureType.fee_payer (some (SignatureData.fee_payer x)) =
    from_feepayersignature-Usable x
signature-Usable SignatureType.fee_payer (some _) = tt
signature-Usable SignatureType.single_sender none = tt
signature-Usable SignatureType.single_sender (some (SignatureData.single_sender x)) =
    from_singlesender-Usable x
signature-Usable SignatureType.single_sender (some _) = tt

-- Whatever kind of signature a transaction has, every record that is made of it has a usable kind and
-- usable roles, so that its completion finds no value missing.
pub from_signature-Usable :
    (s : Signature) (rs : List SignatureSubRecord) → from_signature s ≡ ok rs → All Usable rs
from_signature-Usable s rs h = subst (Gives (All Usable)) h (signature-Usable s.type_of s.signature)
