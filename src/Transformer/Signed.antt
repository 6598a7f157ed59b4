-- ===== src/Transformer/Signed.antt =====
-- A signature of which every signer can be printed has its records.
use aptos_etl.Prelude.{
  ◌≡◌, refl, true, false, ◌≢◌, some, List, [], ◌∷◌, ok, try_map, All, Yields, >>=-Yields,
  Yields-map_err, Any,
}
use aptos_etl.Prelude.Text.{Text}
use aptos_etl.Address.{Address, try_encode}
use aptos_etl.Deferred.{Deferred, present, deferred, deferred_fallback, extract, is_usable}
use aptos_etl.Timestamp.{Chrono}
use aptos_etl.Signatures.Input
use aptos_etl.Signatures.{SignatureSubRecord}
use aptos_etl.Signatures.Roles.{from_signature}
use aptos_etl.Signatures.Accounts.{Usable}
use aptos_etl.Signatures.Usable.{from_signature-Usable}
use aptos_etl.Signatures.Records.{
  Signature, address, required, signer_of, complete, of_found, get_signatures,
}
use aptos_etl.Transaction.Messages.{Protos}
use aptos_etl.Transaction.Data.{signature, encoded_sender}
use aptos_etl.Transaction.{TransactionExtraction, get_encoded_timestamp}

-- A signer of its own can be printed.
abbrev pub Signs : Deferred Address → Type 0
Signs (present a) = Yields Any (try_encode a)
Signs deferred = Unit
Signs (deferred_fallback a) = Yields Any (try_encode a)

module _ (p : Protos) where
  required-Yields : {A : Type 0} (d : Deferred A) → is_usable d ≡ true → Yields Any (required p d)
  unfolding extract
  required-Yields (present a) h = tt
  required-Yields deferred h = absurd (no_usable h)
    where
      no_usable : false ≢ true
      no_usable e = cc
  required-Yields (deferred_fallback a) h = tt

  signer_of-Yields :
      (default_signer : Text) (d : Deferred Address)
      → Signs d
      → Yields Any (signer_of p default_signer d)
  unfolding extract
  signer_of-Yields default_signer (present a) h = Yields-map_err Any address (try_encode a) h
  signer_of-Yields default_signer deferred h = tt
  signer_of-Yields default_signer (deferred_fallback a) h =
      Yields-map_err Any address (try_encode a) h

  complete-Yields :
      (tx : TransactionExtraction p) (time default_signer : Text) (r : SignatureSubRecord)
      → Usable r
      → Signs r.signer
      → Yields Any (complete p tx time default_signer r)
  unfolding complete
  complete-Yields tx time default_signer r h signs =
      >>=-Yields Any Any (required p r.is_secondary) _ (required-Yields r.is_secondary h.1.0)
        (λ a ea.
          >>=-Yields Any Any (required p r.is_feepayer) _ (required-Yields r.is_feepayer h.1.1)
            (λ b eb.
              >>=-Yields Any Any (required p r.is_sender) _ (required-Yields r.is_sender h.1.2)
                (λ c ec.
                  >>=-Yields Any Any (required p r.buildtype) _ (required-Yields r.buildtype h.0)
                    (λ d ed.
                      >>=-Yields Any Any (signer_of p default_signer r.signer) _
                        (signer_of-Yields default_signer r.signer signs) (λ e ee. tt)))))

  completes-Yields :
      (tx : TransactionExtraction p) (time default_signer : Text) (rs : List SignatureSubRecord)
      → All Usable rs
      → All (λ r. Signs r.signer) rs
      → Yields Any (try_map (complete p tx time default_signer) rs)
  completes-Yields tx time default_signer [] h signs = tt
  completes-Yields tx time default_signer (r ∷ rs) h signs =
      >>=-Yields Any Any (complete p tx time default_signer r) _
        (complete-Yields tx time default_signer r h.0 signs.0)
        (λ y ey.
          >>=-Yields Any Any (try_map (complete p tx time default_signer) rs) _
            (completes-Yields tx time default_signer rs h.1 signs.1) (λ ys eys. tt))

  pub get_signatures-Yields :
      (c : Chrono) (tx : TransactionExtraction p) (s : Input.Signature)
      (rs : List SignatureSubRecord) (time sent_by : Text)
      → signature p tx.tx_data ≡ ok (some s)
      → from_signature s ≡ ok rs
      → get_encoded_timestamp p c tx ≡ ok time
      → encoded_sender p tx.tx_data ≡ ok (some sent_by)
      → All (λ r. Signs r.signer) rs
      → Yields (λ found. (sigs : List Signature) × (found ≡ some sigs)) (get_signatures p c tx)
  unfolding get_signatures of_found
  get_signatures-Yields c tx s rs time sent_by signed made timed sent signs =
      rw (signed, made, timed, sent)
        (>>=-Yields Any (λ found. (sigs : List Signature) × (found ≡ some sigs))
          (try_map (complete p tx time sent_by) rs) _
          (completes-Yields tx time sent_by rs (from_signature-Usable s rs made) signs)
          (λ sigs _. (sigs, refl)))
