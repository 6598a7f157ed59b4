-- ===== src/Resume/Forward.antt =====
-- The forward direction: the range starts behind all that has been indexed.
use aptos_etl.Prelude.{
  ℕ, suc, ◌<◌, ◌≤◌, ◌^◌, ◌≡◌, refl, ◌⊎◌, inl, inr, Bool, false, Option, none, some, List, [], ◌∷◌,
  ok, panic, ◌>>=◌, All, Yields, Yields-mono, >>=-Yields, ◌∙◌, subst, arith,
}
use aptos_etl.Prelude.Text.{Text}
use aptos_etl.Resume.{
  Picked, Range, Names, AnyOr, AnyOr-elim, next_start, within, forward, started,
  pick_up_from_previous_range,
}

-- The least start, from the given one on, behind all indexed numbers.
abbrev pub Resumes : List ℕ → ℕ → ℕ → Type 0
Resumes ns start s = (start ≤ s) × All (λ n. n < s) ns × AnyOr (λ n. s ≡ suc n) (s ≡ start) ns

abbrev pub Below : Option ℕ → ℕ → Type 0
Below none n = Unit
Below (some e) n = n < e

abbrev pub Indexed : Option ℕ → ℕ → Type 0
Indexed none n = ⊥
Indexed (some e) n = e ≤ n

within-cases :
    (end : Option ℕ) (n s : ℕ)
    → (Below end n × (within end n s ≡ ok s)) ⊎ (Indexed end n × (within end n s ≡ panic))
within-cases none n s = inl (tt, refl)
within-cases (some e) n s = ground arith

Resumes-next :
    (ns : List ℕ) (start n s next : ℕ)
    → ((start ≤ n) × (next ≡ suc n)) ⊎ ((n < start) × (next ≡ start))
    → Resumes ns next s
    → Resumes (n ∷ ns) start s
Resumes-next ns start n s next (inl (le, q)) (lo, all, any) =
    (omega arith, (omega arith, all), AnyOr-elim _ _ (s ≡ start) _ ns (λ c. inl (c ∙ q)) inr any)
Resumes-next ns start n s next (inr (lt, q)) (lo, all, any) =
    (omega arith, (omega arith, all), inr (subst (λ x. AnyOr (λ n. s ≡ suc n) (s ≡ x) ns) q any))

next_start-cases :
    (start n : ℕ)
    → suc n < 2 ^ 64
    → ((start ≤ n) × (next_start start n ≡ suc n)) ⊎ ((n < start) × (next_start start n ≡ start))
next_start-cases start n small = ground arith

Outcomes : Option ℕ → List ℕ → ℕ → Picked ℕ → Type 0
Outcomes end ns start r =
    (All (Below end) ns × Yields (Resumes ns start) r) ⊎ (AnyOr (Indexed end) ⊥ ns × (r ≡ panic))

Outcomes-cons :
    (end : Option ℕ) (ns : List ℕ) (n start : ℕ) (r : Picked ℕ)
    → suc n < 2 ^ 64
    → Below end n
    → Outcomes end ns (next_start start n) r
    → Outcomes end (n ∷ ns) start r
unfolding Outcomes
Outcomes-cons end ns n start r lt below (inl (all, y)) = inl (
  (below, all),
  Yields-mono _ _ r (λ s h. Resumes-next ns start n s _ (next_start-cases start n lt) h) y,
)
Outcomes-cons end ns n start r lt below (inr (any, p)) = inr (inr any, p)

forward-Outcomes :
    (end : Option ℕ) (files : List Text) (ns : List ℕ) (start : ℕ)
    → Names files ns
    → All (λ n. suc n < 2 ^ 64) ns
    → Outcomes end ns start (forward end files start)
unfolding forward Outcomes
forward-Outcomes end [] [] start names small = inl (tt, (omega arith, tt, refl))
forward-Outcomes end [] (n ∷ ns) start names small = elim names [ ]
forward-Outcomes end (f ∷ fs) [] start names small = elim names [ ]
forward-Outcomes end (f ∷ fs) (n ∷ ns) start (e, names) (lt, small) =
    elim (within-cases end n (next_start start n)) [
      | inl (below, w) ↦
          rw (e, w)
            (Outcomes-cons end ns n start _ lt below
              (forward-Outcomes end fs ns (next_start start n) names small))
      | inr (indexed, w) ↦ inr (inl indexed, rw (e, w) refl)
    ]

with_end :
    (end : Option ℕ) (ns : List ℕ) (start : ℕ) (r : Picked ℕ)
    → Outcomes end ns start r
    → (All (Below end) ns
        × Yields (λ (x : Range). Resumes ns start (x.0) × (x.1 ≡ end)) (r >>= started end))
      ⊎ (AnyOr (Indexed end) ⊥ ns × ((r >>= started end) ≡ panic))
unfolding Outcomes
with_end end ns start r (inl (all, y)) =
    inl (all, >>=-Yields _ _ r (started end) y (λ s h. (h, refl)))
with_end end ns start r (inr (any, p)) = inr (any, rw p refl)

-- Forwards, from files whose names are numbers below the greatest u64: if all numbers are below the
-- end, or there is none, the start that is picked up is the least one from the given start on that
-- is greater than every number, and the end is kept; otherwise the call panics. The order of the
-- files does not matter.
pub pick_up-Resumes :
    (files : List Text) (ns : List ℕ) (writable : Bool) (start : ℕ) (end : Option ℕ)
    → Names files ns
    → All (λ n. suc n < 2 ^ 64) ns
    → (All (Below end) ns
        × Yields
            (λ r. Resumes ns start (r.0) × (r.1 ≡ end))
            (pick_up_from_previous_range (some files) writable start end false))
      ⊎ (AnyOr (Indexed end) ⊥ ns
          × (pick_up_from_previous_range (some files) writable start end false ≡ panic))
unfolding pick_up_from_previous_range
pick_up-Resumes files ns writable start end names small =
    with_end end ns start _ (forward-Outcomes end files ns start names small)
