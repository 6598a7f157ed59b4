-- ===== src/Signatures/Accounts.antt =====
-- The records of one account's signature have usable roles.
use aptos_etl.Prelude.{
  ℕ, suc, ◌≡◌, refl, true, Option, none, some, List, [], ◌∷◌, ◌++◌, map, Result, ok, err, panic,
  ◌>>=◌, map_ok, map_err, All, >>=-Gives, Gives, Gives-any, ◌==◌, length, Bool-cases, inl, inr,
}
use aptos_etl.Deferred.{Deferred, deferred, is_usable}
use aptos_etl.Signatures.SignatureValue
use aptos_etl.Signatures.SignatureValue.{SigValueExtraction}
use aptos_etl.Signatures.KeyValue
use aptos_etl.Signatures.Input.{
  AccountSignature, AccountSignatureType, AccountSignatureData, MultiEd25519Signature,
  MultiKeySignature, AnyPublicKey, AnySignature,
}
use aptos_etl.Signatures.Values.{SigValue, PublicKey}
use aptos_etl.Signatures.{
  SignatureError, pub_key_error, signature_value_issue, SignatureBuildType, SignatureSubRecord,
  from_ed25519, from_multied25519, from_accountsignature, one, of_key, take_all,
  from_abstractionsignature, from_singlekeysignature, from_multikeysignature, any_key, ed25519_key,
}
use aptos_etl.Signatures.Roles.{account_records}

-- The three roles have values.
abbrev pub RolesUsable : SignatureSubRecord → Type 0
RolesUsable r =
    (is_usable r.is_secondary ≡ true)
    × (is_usable r.is_feepayer ≡ true)
    × (is_usable r.is_sender ≡ true)

-- So has the kind of signature.
abbrev pub Usable : SignatureSubRecord → Type 0
Usable r = (is_usable r.buildtype ≡ true) × RolesUsable r

pub All-map :
    {A B : Type 0} (P : A → Type 0) (Q : B → Type 0) (f : A → B) (xs : List A)
    → ((a : A) → P a → Q (f a))
    → All P xs
    → All Q (map f xs)
All-map P Q f [] h all = tt
All-map P Q f (x ∷ xs) h all = (h x all.0, All-map P Q f xs h all.1)

pub All-both :
    {A : Type 0} (P : A → Type 0) (xs ys : List A) → All P xs → All P ys → All P (xs ++ ys)
All-both P [] ys left right = right
All-both P (x ∷ xs) ys left right = (left.0, All-both P xs ys left.1 right)

module _ (P : SignatureSubRecord → Type 0) where
  take_all-All :
      {K : Type 0} (make : ℕ → K → Option SigValue → Result SignatureError SignatureSubRecord)
      → ((i : ℕ) (k : K) (v : Option SigValue) → Gives P (make i k v))
      → (i : ℕ) (ks : List K) (sigs : List (ℕ × SigValue)) → Gives (All P) (take_all make i ks sigs)
  take_all-All make each i [] sigs = tt
  take_all-All make each i (k ∷ ks) sigs = >>=-Gives P (All P) _ _ (each i k _) (λ r pr.
      >>=-Gives (All P) (All P) _ _ (take_all-All make each (suc i) ks _) (λ rs prs. (pr, prs)))

of_key-RolesUsable :
    (b : Deferred SignatureBuildType) (k : PublicKey) (v : Option SigValue) (t : Option ℕ)
    → RolesUsable (of_key b k v t)
of_key-RolesUsable b k v t = (refl, refl, refl)

any_key-RolesUsable :
    (required i : ℕ) (k : AnyPublicKey) (v : Option SigValue)
    → Gives RolesUsable (any_key required i k v)
any_key-RolesUsable required i k v = with_key (map_err pub_key_error (KeyValue.try_into k))
  where
    with_key :
        (m : Result SignatureError PublicKey)
        → Gives RolesUsable (m >>= λ key. ok (of_key deferred key v (some required)))
    with_key (ok key) = of_key-RolesUsable deferred key v (some required)
    with_key (err e) = tt
    with_key panic = tt

from_multikeysignature-RolesUsable :
    (s : MultiKeySignature) → Gives (All RolesUsable) (from_multikeysignature s)
unfolding from_multikeysignature
from_multikeysignature-RolesUsable s =
    >>=-Gives (λ _. Unit {0}) (All RolesUsable) _ _ (Gives-any _)
      (λ sigs h.
        take_all-All RolesUsable (any_key s.signatures_required)
          (any_key-RolesUsable s.signatures_required) 0 s.public_keys sigs)

pub from_multied25519-Usable :
    (s : MultiEd25519Signature) → Gives (All Usable) (from_multied25519 s)
unfolding from_multied25519
from_multied25519-Usable s =
    elim (Bool-cases (length s.signatures == length s.public_key_indices)) [
      | inl same ↦ rw same (
          >>=-Gives (λ _. Unit {0}) (All Usable) _ _ (Gives-any _)
            (λ sigs h.
              take_all-All Usable (ed25519_key s.threshold) (λ i k v. (refl, (refl, refl, refl))) 0
                s.public_keys sigs))
      | inr other ↦ rw other tt
    ]

Usable-roles : (rs : List SignatureSubRecord) → All Usable rs → All RolesUsable rs
Usable-roles [] all = tt
Usable-roles (r ∷ rs) all = (all.0.1, Usable-roles rs all.1)

Gives-roles :
    (m : Result SignatureError (List SignatureSubRecord))
    → Gives (All Usable) m
    → Gives (All RolesUsable) m
Gives-roles (ok rs) all = Usable-roles rs all
Gives-roles (err e) all = tt
Gives-roles panic all = tt

from_singlekeysignature-RolesUsable :
    (k : Option AnyPublicKey) (v : Option AnySignature)
    → Gives RolesUsable (from_singlekeysignature (record { public_key = k; signature = v }))
unfolding from_singlekeysignature
from_singlekeysignature-RolesUsable none v = tt
from_singlekeysignature-RolesUsable (some k) none = tt
from_singlekeysignature-RolesUsable (some k) (some v) =
    with_value (map_err signature_value_issue (SignatureValue.try_from v))
  where
    with_signature :
        (key : PublicKey) (m : Result SignatureError SigValue)
        → Gives RolesUsable (m >>= λ signature. ok (of_key deferred key (some signature) none))
    with_signature key (ok signature) = of_key-RolesUsable deferred key (some signature) none
    with_signature key (err e) = tt
    with_signature key panic = tt

    with_key :
        (sig : Result SignatureError SigValue) (m : Result SignatureError PublicKey)
        → Gives RolesUsable
            (m >>= λ key. sig >>= λ signature. ok (of_key deferred key (some signature) none))
    with_key sig (ok key) = with_signature key sig
    with_key sig (err e) = tt
    with_key sig panic = tt

    with_value :
        (m : Result SignatureError SigValueExtraction)
        → Gives RolesUsable (
            m >>= λ extracted. map_err pub_key_error (KeyValue.try_into k) >>= λ key.
            map_err signature_value_issue (SignatureValue.try_into extracted) >>= λ signature.
            ok (of_key deferred key (some signature) none))
    with_value (ok extracted) =
        with_key (map_err signature_value_issue (SignatureValue.try_into extracted))
          (map_err pub_key_error (KeyValue.try_into k))
    with_value (err e) = tt
    with_value panic = tt

one-All :
    (m : Result SignatureError SignatureSubRecord)
    → Gives RolesUsable m
    → Gives (All RolesUsable) (map_ok one m)
one-All (ok r) h = (h, tt)
one-All (err e) h = tt
one-All panic h = tt

account-RolesUsable :
    (t : AccountSignatureType) (d : Option AccountSignatureData)
    → Gives (All RolesUsable) (from_accountsignature (record { type_of = t; signature = d }))
unfolding from_accountsignature from_ed25519 from_abstractionsignature
account-RolesUsable AccountSignatureType.unspecified d = tt
account-RolesUsable AccountSignatureType.ed25519 none = tt
account-RolesUsable AccountSignatureType.ed25519 (some (AccountSignatureData.ed25519 x)) =
    ((refl, refl, refl), tt)
account-RolesUsable AccountSignatureType.ed25519 (some _) = tt
account-RolesUsable AccountSignatureType.multi_ed25519 none = tt
account-RolesUsable AccountSignatureType.multi_ed25519
      (some (AccountSignatureData.multi_ed25519 x)) =
    Gives-roles _ (from_multied25519-Usable x)
account-RolesUsable AccountSignatureType.multi_ed25519 (some _) = tt
account-RolesUsable AccountSignatureType.multi_key none = tt
account-RolesUsable AccountSignatureType.multi_key
      (some (AccountSignatureData.multi_key_signature x)) =
    from_multikeysignature-RolesUsable x
account-RolesUsable AccountSignatureType.multi_key (some _) = tt
account-RolesUsable AccountSignatureType.single_key none = tt
account-RolesUsable AccountSignatureType.single_key
      (some (AccountSignatureData.single_key_signature x)) =
    one-All _ (from_singlekeysignature-RolesUsable x.public_key x.signature)
account-RolesUsable AccountSignatureType.single_key (some _) = tt
account-RolesUsable AccountSignatureType.abstraction none = tt
account-RolesUsable AccountSignatureType.abstraction (some (AccountSignatureData.abstraction x)) =
    ((refl, refl, refl), tt)
account-RolesUsable AccountSignatureType.abstraction (some _) = tt

pub from_accountsignature-RolesUsable :
    (s : AccountSignature) → Gives (All RolesUsable) (from_accountsignature s)
from_accountsignature-RolesUsable s = account-RolesUsable s.type_of s.signature

pub account_records-RolesUsable :
    (e : SignatureError) (s : Option AccountSignature)
    → Gives (All RolesUsable) (account_records e s)
account_records-RolesUsable e none = tt
account_records-RolesUsable e (some s) = from_accountsignature-RolesUsable s
