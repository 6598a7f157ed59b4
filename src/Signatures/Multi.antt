-- ===== src/Signatures/Multi.antt =====
-- The signatures of an Ed25519 multi-signature, key by key.
use aptos_etl.Prelude.{
  ℕ, suc, ◌^◌, ◌%◌, ◌≤◌, ◌≡◌, ◌≢◌, refl, ◌∙◌, sym, subst, true, false, Option, none, some, List, [],
  ◌∷◌, Result, ok, All, length, ◌==◌, if◌then◌else◌, arith, Bool-cases, inl, inr,
}
use aptos_etl.Deferred.{deferred_fallback}
use aptos_etl.Signatures.Input.{Bytes, MultiEd25519Signature}
use aptos_etl.Signatures.Values.{
  PublicKeyType, SigType, public_key_type_name, sig_type_name, SigValue, encoded_bytes,
}
use aptos_etl.Signatures.IndexMap.{get, delete, get-delete}
use aptos_etl.Signatures.{
  SignatureError, multi_ed25519_multiple_pubkey_index_match, SignatureBuildType, SignatureSubRecord,
  of_key, from_multied25519, insert_all, take_all, zip, ed25519_value, ed25519_key,
}

-- The value of a signature with the index of its key.
abbrev pub value_of : Bytes × ℕ → SigValue
value_of (sig, index) = record {
  type_of = sig_type_name SigType.ed25519;
  value = encoded_bytes sig;
  index = some index;
}

-- The signature that names a key.
abbrev pub signature_at : ℕ → List (Bytes × ℕ) → Option SigValue
signature_at i [] = none
signature_at i (p ∷ ps) =
    let later = signature_at i ps in if i == p.1 then some (value_of p) else later

-- The records of the keys in their order, each with the signature that names it, if one does.
abbrev pub key_records : ℕ → ℕ → List Bytes → List (Bytes × ℕ) → List SignatureSubRecord
key_records threshold i [] ps = []
key_records threshold i (k ∷ ks) ps =
    of_key (deferred_fallback SignatureBuildType.multi_ed25519)
      (record {
        type_of = public_key_type_name PublicKeyType.ed25519;
        value = encoded_bytes k;
        index = some (i % 2 ^ 32);
      })
      (signature_at i ps) (some threshold)
    ∷ key_records threshold (suc i) ks ps

-- No two signatures name one key.
abbrev pub DistinctKeys : List (Bytes × ℕ) → Type 0
DistinctKeys [] = Unit
DistinctKeys (p ∷ ps) = All (λ q. q.1 ≢ p.1) ps × DistinctKeys ps

abbrev pub or_else : Option SigValue → Option SigValue → Option SigValue
or_else none v = v
or_else (some u) v = some u

inserted : List (Bytes × ℕ) → List (ℕ × SigValue) → Result SignatureError (List (ℕ × SigValue))
inserted ps m = insert_all (λ p. p.1) ed25519_value multi_ed25519_multiple_pubkey_index_match ps m

signature_at-other :
    (i : ℕ) (ps : List (Bytes × ℕ)) → All (λ q. q.1 ≢ i) ps → signature_at i ps ≡ none
signature_at-other i [] h = refl
signature_at-other i (p ∷ ps) h =
    let differ : (i == p.1) ≡ false = ground (arith, h.0) in
    rw (differ, signature_at-other i ps h.1) refl

still_none :
    (k : ℕ) (v : SigValue) (m : List (ℕ × SigValue)) (ps : List (Bytes × ℕ))
    → All (λ q. q.1 ≢ k) ps
    → All (λ q. get q.1 m ≡ none) ps
    → All (λ q. get q.1 ((k, v) ∷ m) ≡ none) ps
still_none k v m [] h none_yet = tt
still_none k v m (p ∷ ps) h none_yet =
    let differ : (p.1 == k) ≡ false = ground (arith, h.0) in
    (rw (differ, none_yet.0) refl, still_none k v m ps h.1 none_yet.1)

inserted-cons :
    (p : Bytes × ℕ) (ps : List (Bytes × ℕ)) (m : List (ℕ × SigValue))
    → get p.1 m ≡ none
    → inserted (p ∷ ps) m ≡ inserted ps ((p.1, value_of p) ∷ m)
unfolding inserted
inserted-cons p ps m h = rw h refl

get-merged :
    (i : ℕ) (p : Bytes × ℕ) (ps : List (Bytes × ℕ)) (m : List (ℕ × SigValue))
    → All (λ q. q.1 ≢ p.1) ps
    → or_else (signature_at i ps) (get i ((p.1, value_of p) ∷ m))
      ≡ or_else (signature_at i (p ∷ ps)) (get i m)
get-merged i p ps m distinct = elim (Bool-cases (i == p.1)) [
  | inl same ↦
      let eq : i ≡ p.1 = ground arith in
      let none_later : signature_at i ps ≡ none =
        subst (λ k. signature_at k ps ≡ none) (sym eq) (signature_at-other p.1 ps distinct) in
      rw (same, none_later) refl
  | inr other ↦ rw other refl
]

inserted_distinct :
    (ps : List (Bytes × ℕ)) (m : List (ℕ × SigValue))
    → All (λ q. get q.1 m ≡ none) ps
    → DistinctKeys ps
    → (sigs : List (ℕ × SigValue)) × (inserted ps m ≡ ok sigs)
      × ((i : ℕ) → get i sigs ≡ or_else (signature_at i ps) (get i m))
inserted_distinct [] m none_yet distinct = (m, unfold inserted in refl, λ i. refl)
inserted_distinct (p ∷ ps) m none_yet distinct =
    let (sigs, e, all) =
      inserted_distinct ps ((p.1, value_of p) ∷ m)
        (still_none p.1 (value_of p) m ps distinct.0 none_yet.1) distinct.1 in
    (sigs, inserted-cons p ps m none_yet.0 ∙ e, λ i. all i ∙ get-merged i p ps m distinct.0)

none_in_empty : (ps : List (Bytes × ℕ)) → All (λ q. get {V = SigValue} q.1 [] ≡ none) ps
none_in_empty [] = tt
none_in_empty (p ∷ ps) = (refl, none_in_empty ps)

or_else-none : (v : Option SigValue) → or_else v none ≡ v
or_else-none none = refl
or_else-none (some v) = refl

take_all-get :
    (threshold i : ℕ) (ks : List Bytes) (sigs : List (ℕ × SigValue)) (ps : List (Bytes × ℕ))
    → ((j : ℕ) → i ≤ j → get j sigs ≡ signature_at j ps)
    → take_all (ed25519_key threshold) i ks sigs ≡ ok (key_records threshold i ks ps)
take_all-get threshold i [] sigs ps h = refl
take_all-get threshold i (k ∷ ks) sigs ps h =
    rw
      (
        take_all-get threshold (suc i) ks (delete i sigs) ps
            (λ j lt. get-delete j i sigs (omega (arith, lt)) ∙ h j (omega (arith, lt))),
        h i (omega arith),
      )
      refl

-- A multi-signature with as many indices as signatures, no index twice, gives one record for each of
-- its keys, in their order, each with the signature whose index is the key's position, if there is one.
pub from_multied25519-key_records :
    (s : MultiEd25519Signature)
    → length s.signatures ≡ length s.public_key_indices
    → DistinctKeys (zip s.signatures s.public_key_indices)
    → from_multied25519 s
      ≡ ok (key_records s.threshold 0 s.public_keys (zip s.signatures s.public_key_indices))
unfolding from_multied25519
from_multied25519-key_records s same distinct =
    let ps = zip s.signatures s.public_key_indices in
    let (sigs, e, all) = inserted_distinct ps [] (none_in_empty ps) distinct in
    let equal : (length s.signatures == length s.public_key_indices) ≡ true = ground arith in
    let inserts : insert_all (λ p. p.1) ed25519_value multi_ed25519_multiple_pubkey_index_match ps
          []
        ≡ ok sigs =
      unfold inserted in e in
    rw (equal, inserts)
      (take_all-get s.threshold 0 s.public_keys sigs ps
        (λ j lt. all j ∙ or_else-none (signature_at j ps)))
