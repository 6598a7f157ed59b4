-- ===== src/Stored/Tests.antt =====
-- Toy transactions in files, and the publication of their records.
use aptos_etl.Prelude.{
  ℕ, ◌≡◌, ◌≢◌, refl, none, some, List, [], ◌∷◌, Result, ok, err, map, All, true, false, subst,
  Option,
}
use aptos_etl.Prelude.Text.{Text, codes, text_eq, text_eq_refl}
use aptos_etl.Extract.Toy.{toy, two_responses, serve}
use aptos_etl.Records.{Records}
use aptos_etl.Stored.{Publishers, without_names, Answers, Codec, Disk, extract_txs, load_tx, lookup}
use aptos_etl.Stored.Loaded.{Succeeding, Distinct, path_of, extract_txs-load_tx}
use aptos_etl.Stored.Published.{Published}

abbrev answers : Answers
answers = record {
  IoError = ℕ;
  not_found = 2;
  create_dir_all = λ path. none;
  create = λ path. none;
  write_all = λ path. none;
  left_over = λ path. [];
  opening = λ path. none;
  read_to_end = λ path. none;
}

abbrev succeeding : Succeeding answers
succeeding = record {
  made = λ path. refl;
  created = λ path. refl;
  written = λ path. refl;
  opened = λ path. refl;
  read = λ path. refl;
}

abbrev no_records : Records toy
no_records = record {
  transactions = [];
  blocks = [];
  table_items = [];
  resources = [];
  modules = [];
  changes = [];
  events = [];
  signatures = [];
}

abbrev decode_one : List ℕ → Result ℕ ℕ
decode_one [] = err 0
decode_one (n ∷ ns) = ok n

abbrev codec : Codec toy
codec = record {
  DecodeError = ℕ;
  encode_tx = λ tx. tx ∷ [];
  decode_tx = decode_one;
  encode_records = λ r. r.transactions;
  decode_records = λ bytes. ok (record no_records { transactions = bytes });
  tx_version = λ row. row;
}

differ : (q p : Text) → text_eq q p ≡ false → q ≢ p
differ q p h e =
    let same : text_eq p p ≡ false = subst (λ s. text_eq s p ≡ false) e h in
    let eq = text_eq_refl p in cc

names_differ : Distinct (map (path_of toy codec answers (codes "out")) (5 ∷ 6 ∷ 7 ∷ []))
names_differ = ((differ _ _ refl, (differ _ _ refl, tt)), ((differ _ _ refl, tt), (tt, tt)))

extract_txs-load_tx_example :
    (files : Disk) × (extract_txs toy codec answers
        (serve two_responses).connect
        5
        7
        (some (codes "out"))
        []
      ≡ (ok (5 ∷ 6 ∷ 7 ∷ []), files))
    × All
        (λ tx. load_tx toy codec answers (path_of toy codec answers (codes "out") tx) files ≡ ok tx)
        (5 ∷ 6 ∷ 7 ∷ [])
    × ((p : Text)
        → All (λ q. q ≢ p) (map (path_of toy codec answers (codes "out")) (5 ∷ 6 ∷ 7 ∷ []))
        → lookup p files ≡ none)
extract_txs-load_tx_example =
    extract_txs-load_tx toy codec answers (codes "out") succeeding (serve two_responses).connect 5 7
      two_responses [] (λ tx. refl) refl refl names_differ

-- Publishers in a build without names; they take every batch.
abbrev publishers : Option (Publishers toy)
publishers = some (record { build = without_names; takes = λ p. true })
