-- ===== src/Signatures/IndexMap.antt =====
-- A `HashMap` with numbers as keys, as the insertions that made it, and what is left of it.
use aptos_etl.Prelude.{
  ℕ, ◌≡◌, ◌≢◌, refl, Option, none, some, List, [], ◌∷◌, ◌==◌, if◌then◌else◌, arith,
}

module _ {V : Type 0} where
  abbrev pub get : ℕ → List (ℕ × V) → Option V
  get k [] = none
  get k ((k', v) ∷ m) = let rest = get k m in if k == k' then some v else rest

  -- `HashMap::insert`, which returns the value that was there
  abbrev pub insert : ℕ → V → List (ℕ × V) → Option V × List (ℕ × V)
  insert k v m = (get k m, (k, v) ∷ m)

  abbrev pub delete : ℕ → List (ℕ × V) → List (ℕ × V)
  delete k [] = []
  delete k ((k', v) ∷ m) = let rest = delete k m in if k == k' then rest else (k', v) ∷ rest

  -- `HashMap::remove`, which returns the value that was there
  abbrev pub remove : ℕ → List (ℕ × V) → Option V × List (ℕ × V)
  remove k m = (get k m, delete k m)

  pub get-delete : (k k' : ℕ) (m : List (ℕ × V)) → k ≢ k' → get k (delete k' m) ≡ get k m
  get-delete k k' [] ne = refl
  get-delete k k' ((j, v) ∷ m) ne = ground (arith, ne, get-delete k k' m ne)
