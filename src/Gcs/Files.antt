-- ===== src/Gcs/Files.antt =====
-- The files of a publication, and where its records belong.
use aptos_etl.Prelude.{ℕ, suc, ◌≡◌, ◌≢◌, ◌⊎◌, refl, ap, some, List, [], ◌∷◌, ◌++◌, map, length}
use aptos_etl.Prelude.Text.{Text}
use aptos_etl.Timestamp.{UnixTimestamp}
use aptos_etl.Gcs.{
  Crates, Event, uploaded, concatenated, file_destination, file_name, directory_destination,
}

-- A file: the directory, the index in its name, and the records in it.
pub record File : Type 0 where
  pub dir : Text
  pub index : ℕ
  pub records : List Text

-- The upload of a file.
abbrev pub upload : Text → File → Event
upload name f = uploaded (file_destination f.dir (file_name name f.index)) (concatenated f.records)

-- The records of some files, each with its directory.
abbrev pub placed : List File → List (Text × Text)
placed [] = []
placed (f ∷ fs) = map (λ r. (f.dir, r)) f.records ++ placed fs

-- No file has the directory and the index of the first.
abbrev pub Differ : File → List File → Type 0
Differ f [] = Unit
Differ f (g ∷ gs) = ((f.index ≢ g.index) ⊎ (f.dir ≢ g.dir)) × Differ f gs

-- No two files have the same directory and index.
abbrev pub Distinct : List File → Type 0
Distinct [] = Unit
Distinct (f ∷ fs) = Differ f fs × Distinct fs

abbrev pub zip : List Text → List Text → List (Text × Text)
zip (d ∷ ds) (r ∷ rs) = (d, r) ∷ zip ds rs
zip [] rs = []
zip (d ∷ ds) [] = []

-- The timestamps' directories.
abbrev pub InDirectories : Crates → List UnixTimestamp → List Text → Type 0
InDirectories c [] [] = Unit
InDirectories c (ts ∷ tss) (d ∷ ds) = (directory_destination c ts ≡ some d) × InDirectories c tss ds
InDirectories c [] (d ∷ ds) = ⊥
InDirectories c (ts ∷ tss) [] = ⊥

pub length-InDirectories :
    (c : Crates) (tss : List UnixTimestamp) (ds : List Text)
    → InDirectories c tss ds
    → length tss ≡ length ds
length-InDirectories c [] [] h = refl
length-InDirectories c (ts ∷ tss) (d ∷ ds) h = ap suc (length-InDirectories c tss ds h.1)
length-InDirectories c [] (d ∷ ds) h = elim h [ ]
length-InDirectories c (ts ∷ tss) [] h = elim h [ ]
