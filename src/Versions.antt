-- ===== src/Versions.antt =====
-- The extraction of a list of versions: `extract` of aptos_config/mod.rs, for the builds without a
-- subscription.
mod Tests
use aptos_etl.Prelude.{
  ℕ, ◌≤◌, ◌≡◌, refl, ap, ◌∙◌, Bool, true, false, Option, none, some, List, [], ◌∷◌, Result, ok, err,
  panic, leb, ◌==◌, if◌then◌else◌, arith, All, Bool-cases, inl, inr, ◌⊎◌,
}
use aptos_etl.Options.{TableOptions}
use aptos_etl.Extract.{Server, Metrics, Run, extract_range}
use aptos_etl.Extract.Interface.{Tables, StreamCreationError}
use aptos_etl.Extract.Loop.{Pull}

-- `sort_unstable`, on numbers, where all sorts agree
abbrev insert : ℕ → List ℕ → List ℕ
insert x [] = x ∷ []
insert x (y ∷ ys) = if leb x y then x ∷ y ∷ ys else y ∷ insert x ys

abbrev sort : List ℕ → List ℕ
sort [] = []
sort (x ∷ xs) = insert x (sort xs)

-- `Vec::dedup`: of neighbours that are equal, the first is kept.
abbrev dedup_after : ℕ → List ℕ → List ℕ
dedup_after x [] = []
dedup_after x (y ∷ ys) = if x == y then dedup_after x ys else y ∷ dedup_after y ys

abbrev dedup : List ℕ → List ℕ
dedup [] = []
dedup (x ∷ xs) = x ∷ dedup_after x xs

abbrev first : List ℕ → Option ℕ
first [] = none
first (x ∷ xs) = some x

module _ (t : Tables) (server : Server t) where
  -- The rest of `extract`, on its list of versions: both ends of the range are the first of the list.
  abbrev of_list : List ℕ → Option Metrics → Option TableOptions → Run t
  of_list [] metrics tables = record { metrics = metrics; published = []; result = ok tt }
  of_list (x ∷ xs) metrics tables = elim (first (x ∷ xs)) [
    | none ↦ record { metrics = metrics; published = []; result = panic }
    | some first_version ↦ elim (first (x ∷ xs)) [
      | none ↦ record { metrics = metrics; published = []; result = panic }
      | some last_version ↦ extract_range t server first_version last_version metrics tables
    ]
  ]

  unfoldable pub extract : List ℕ → Option Metrics → Option TableOptions → Run t
  extract indexing_iter metrics tables = of_list (dedup (sort indexing_iter)) metrics tables

abbrev least : ℕ → List ℕ → ℕ
least x [] = x
least x (y ∷ ys) = if leb x (least y ys) then x else least y ys

insert-least :
    (x : ℕ) (s : List ℕ) (m : ℕ)
    → first s ≡ some m
    → first (insert x s) ≡ some (if leb x m then x else m)
insert-least x [] m h = cc
insert-least x (y ∷ ys) m h = ground arith

sort-least : (x : ℕ) (xs : List ℕ) → first (sort (x ∷ xs)) ≡ some (least x xs)
sort-least x [] = refl
sort-least x (y ∷ ys) = insert-least x (sort (y ∷ ys)) (least y ys) (sort-least y ys)

first-dedup : (s : List ℕ) → first (dedup s) ≡ first s
first-dedup [] = refl
first-dedup (x ∷ xs) = refl

extract-first :
    (t : Tables) (server : Server t) (vs : List ℕ) (v : ℕ) (metrics : Option Metrics)
    (tables : Option TableOptions)
    → first (dedup (sort vs)) ≡ some v
    → extract t server vs metrics tables ≡ extract_range t server v v metrics tables
unfolding extract
extract-first t server vs v metrics tables h = of_list-first (dedup (sort vs)) h
  where
    of_list-first :
        (s : List ℕ)
        → first s ≡ some v
        → of_list t server s metrics tables ≡ extract_range t server v v metrics tables
    of_list-first [] h = cc
    of_list-first (x ∷ xs) h = cc

-- Of a list of versions that is not empty, whatever its order and repetitions, only the least is
-- extracted: the call is that for the range of this one version.
pub extract-least :
    (t : Tables) (server : Server t) (x : ℕ) (xs : List ℕ) (metrics : Option Metrics)
    (tables : Option TableOptions)
    → extract t server (x ∷ xs) metrics tables
      ≡ extract_range t server (least x xs) (least x xs) metrics tables
extract-least t server x xs metrics tables =
    extract-first t server (x ∷ xs) (least x xs) metrics tables
      (first-dedup (sort (x ∷ xs)) ∙ sort-least x xs)
