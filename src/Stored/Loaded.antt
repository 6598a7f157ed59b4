-- ===== src/Stored/Loaded.antt =====
-- What `extract_txs` has saved can be loaded.
use aptos_etl.Prelude.{
  ℕ, ◌≡◌, ◌≢◌, refl, ap, ◌∙◌, inl, inr, none, some, List, [], ◌∷◌, ◌++◌, map, Result, ok, All,
  Bool-cases,
}
use aptos_etl.Prelude.Text.{Text, text_eq, text_eq→≡, text_eq_refl}
use aptos_etl.Signatures.Input.{Bytes}
use aptos_etl.Extract.Interface.{Tables, StreamCreationError}
use aptos_etl.Extract.Loop.{Pull, response, status}
use aptos_etl.Extract.Spec.{delivered, broken_by}
use aptos_etl.Stored.{
  Answers, Disk, Codec, has_dir, lookup, file_of, with_tx, each_tx, each_response, extract_txs,
  load_tx, Extracted,
}

-- Every operation succeeds.
pub record Succeeding (w : Answers) : Type 0 where
  pub made : (path : Text) → w.create_dir_all path ≡ none
  pub created : (path : Text) → w.create path ≡ none
  pub written : (path : Text) → w.write_all path ≡ none
  pub opened : (path : Text) → w.opening path ≡ none
  pub read : (path : Text) → w.read_to_end path ≡ none

abbrev pub Distinct : List Text → Type 0
Distinct [] = Unit
Distinct (p ∷ ps) = All (λ q. q ≢ p) ps × Distinct ps

lookup_other :
    (p q : Text) (bytes : Bytes) (disk : Disk)
    → q ≢ p
    → lookup p ((q, bytes) ∷ disk) ≡ lookup p disk
lookup_other p q bytes disk other = elim (Bool-cases (text_eq q p)) [
  | inl e ↦ absurd (other (text_eq→≡ q p e))
  | inr e ↦ rw e refl
]

lookup_newest : (p : Text) (bytes : Bytes) (disk : Disk) → lookup p ((p, bytes) ∷ disk) ≡ some bytes
lookup_newest p bytes disk = rw (text_eq_refl p) refl

module _ (t : Tables) (c : Codec t) (w : Answers) (outdir : Text) where
  abbrev pub path_of : t.Tx → Text
  path_of tx = file_of outdir (t.version tx)

  -- The files with those of transactions added.
  abbrev pub saved_all : List t.Tx → Disk → Disk
  saved_all [] disk = disk
  saved_all (tx ∷ txs) disk = saved_all txs ((path_of tx, c.encode_tx tx) ∷ disk)

  lookup_untouched :
      (p : Text) (txs : List t.Tx) (disk : Disk)
      → All (λ q. q ≢ p) (map path_of txs)
      → lookup p (saved_all txs disk) ≡ lookup p disk
  lookup_untouched p [] disk others = refl
  lookup_untouched p (tx ∷ txs) disk (other, others) =
      lookup_untouched p txs ((path_of tx, c.encode_tx tx) ∷ disk) others
      ∙ lookup_other p (path_of tx) (c.encode_tx tx) disk other

  lookup_saved :
      (txs : List t.Tx) (disk : Disk)
      → Distinct (map path_of txs)
      → All (λ tx. lookup (path_of tx) (saved_all txs disk) ≡ some (c.encode_tx tx)) txs
  lookup_saved [] disk distinct = tt
  lookup_saved (tx ∷ txs) disk (others, distinct) = (
    lookup_untouched (path_of tx) txs ((path_of tx, c.encode_tx tx) ∷ disk) others
        ∙ lookup_newest (path_of tx) (c.encode_tx tx) disk,
    lookup_saved txs ((path_of tx, c.encode_tx tx) ∷ disk) distinct,
  )

  module _ (good : Succeeding w) where
    each_tx-saved :
        (cur : ℕ) (txs ys : List t.Tx) (next : ℕ → Disk → Extracted t c w) (disk : Disk)
        → ((v : ℕ) (d : Disk) → next v d ≡ (ok ys, saved_all ys d))
        → each_tx t c w (some outdir) cur txs next disk
          ≡ (ok (txs ++ ys), saved_all (txs ++ ys) disk)
    unfolding each_tx
    each_tx-saved cur [] ys next disk rest = rest cur disk
    each_tx-saved cur (tx ∷ txs) ys next disk rest =
        rw (good.created (path_of tx), good.written (path_of tx))
          (ap (with_tx t c w tx)
            (each_tx-saved (t.version tx) txs ys next ((path_of tx, c.encode_tx tx) ∷ disk) rest))

    each_response-saved :
        (pulls : List (Pull t)) (cur : ℕ) (disk : Disk)
        → broken_by t pulls ≡ none
        → each_response t c w (some outdir) pulls cur disk
          ≡ (ok (delivered t pulls), saved_all (delivered t pulls) disk)
    unfolding each_response
    each_response-saved [] cur disk whole = refl
    each_response-saved (status s ∷ pulls) cur disk whole = cc
    each_response-saved (response txs ∷ pulls) cur disk whole =
        each_tx-saved cur txs (delivered t pulls) (each_response t c w (some outdir) pulls) disk
          (λ v d. each_response-saved pulls v d whole)

    loaded :
        (tx : t.Tx) (disk : Disk)
        → c.decode_tx (c.encode_tx tx) ≡ ok tx
        → lookup (path_of tx) disk ≡ some (c.encode_tx tx)
        → load_tx t c w (path_of tx) disk ≡ ok tx
    unfolding load_tx
    loaded tx disk decodes found =
        rw (good.opened (path_of tx), good.read (path_of tx), found) (rw decodes refl)

    loaded_all :
        ((tx : t.Tx) → c.decode_tx (c.encode_tx tx) ≡ ok tx)
        → (txs : List t.Tx) (disk : Disk)
        → All (λ tx. lookup (path_of tx) disk ≡ some (c.encode_tx tx)) txs
        → All (λ tx. load_tx t c w (path_of tx) disk ≡ ok tx) txs
    loaded_all decodes [] disk found = tt
    loaded_all decodes (tx ∷ txs) disk found =
        (loaded tx disk (decodes tx) found.0, loaded_all decodes txs disk found.1)

    -- If the decoder reads what the encoder writes and no operation on files fails, the extraction of a
    -- stream that does not break gives every transaction of it, and from the files that it leaves each
    -- one can be loaded by its name, provided that the names differ. Files of other names are as before.
    pub extract_txs-load_tx :
        (connect : ℕ → ℕ → Result StreamCreationError (List (Pull t))) (start end : ℕ)
        (pulls : List (Pull t)) (disk : Disk)
        → ((tx : t.Tx) → c.decode_tx (c.encode_tx tx) ≡ ok tx)
        → connect start end ≡ ok pulls
        → broken_by t pulls ≡ none
        → Distinct (map path_of (delivered t pulls))
        → (files : Disk) × (extract_txs t c w connect start end (some outdir) disk
            ≡ (ok (delivered t pulls), files))
          × All (λ tx. load_tx t c w (path_of tx) files ≡ ok tx) (delivered t pulls)
          × ((p : Text)
              → All (λ q. q ≢ p) (map path_of (delivered t pulls))
              → lookup p files ≡ lookup p disk)
    unfolding extract_txs
    extract_txs-load_tx connect start end pulls disk decodes connected whole distinct = (
      saved_all (delivered t pulls) disk,
      rw (good.made outdir, connected, has_dir) (each_response-saved pulls start disk whole),
      loaded_all decodes (delivered t pulls) _ (lookup_saved (delivered t pulls) disk distinct),
      λ p others. lookup_untouched p (delivered t pulls) disk others,
    )
