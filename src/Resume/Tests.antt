-- ===== src/Resume/Tests.antt =====
-- Directories of indexed blocks.
use aptos_etl.Prelude.{
  ◌≡◌, refl, ◌⊎◌, true, false, none, some, List, [], ◌∷◌, ok, panic, All, Yields, arith,
}
use aptos_etl.Prelude.Text.{Text, codes}
use aptos_etl.Resume.{AnyOr, parse_u64, forward, backward, pick_up_from_previous_range}
use aptos_etl.Resume.Forward.{Resumes, Below, Indexed, pick_up-Resumes}
use aptos_etl.Resume.Backward.{GoesBack, pick_up-GoesBack}

abbrev files : List Text
files = codes "30" ∷ codes "+20" ∷ []

too_great : parse_u64 (codes "18446744073709551616") ≡ none
too_great = refl

not_a_number : parse_u64 (codes "+") ≡ none
not_a_number = refl

resumed : pick_up_from_previous_range (some files) true 10 (some 40) false ≡ ok (31, some 40)
unfolding pick_up_from_previous_range forward
resumed = refl

indexed_already : pick_up_from_previous_range (some files) true 10 (some 30) false ≡ panic
unfolding pick_up_from_previous_range forward
indexed_already = refl

resumed_backwards :
    pick_up_from_previous_range (some files) true 10 (some 40) true ≡ ok (10, some 19)
unfolding pick_up_from_previous_range backward
resumed_backwards = refl

created_now : pick_up_from_previous_range none true 10 none false ≡ ok (10, none)
unfolding pick_up_from_previous_range
created_now = refl

pick_up-Resumes_example :
    (All (Below (some 40)) (30 ∷ 20 ∷ [])
      × Yields
          (λ r. Resumes (30 ∷ 20 ∷ []) 10 (r.0) × (r.1 ≡ some 40))
          (pick_up_from_previous_range (some files) true 10 (some 40) false))
    ⊎ (AnyOr (Indexed (some 40)) ⊥ (30 ∷ 20 ∷ [])
        × (pick_up_from_previous_range (some files) true 10 (some 40) false ≡ panic))
pick_up-Resumes_example =
    pick_up-Resumes files (30 ∷ 20 ∷ []) true 10 (some 40) (refl, (refl, tt))
      (omega arith, (omega arith, tt))

pick_up-GoesBack_example :
    Yields
      (GoesBack (30 ∷ 20 ∷ []) (10, some 40))
      (pick_up_from_previous_range (some files) true 10 (some 40) true)
pick_up-GoesBack_example =
    pick_up-GoesBack files (30 ∷ 20 ∷ []) true 10 (some 40) (refl, (refl, tt))
      ((omega arith, omega arith), ((omega arith, omega arith), tt))
