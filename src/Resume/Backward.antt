-- ===== src/Resume/Backward.antt =====
-- The reverse direction: the range ends before all that has been indexed.
use aptos_etl.Prelude.{
  ℕ, suc, ◌<◌, ◌≤◌, ◌^◌, ◌∙◌, ◌≡◌, refl, ap, subst, ◌⊎◌, inl, inr, Bool, true, Option, none, some,
  List, [], ◌∷◌, All, Yields, Yields-mono, arith,
}
use aptos_etl.Prelude.Text.{Text}
use aptos_etl.Resume.{
  Range, Names, AnyOr, AnyOr-elim, moved, reversed, backward, pick_up_from_previous_range,
}

-- The greatest bound, up to the given one, below all indexed numbers.
abbrev pub Precedes : List ℕ → ℕ → ℕ → Type 0
Precedes ns bound b = (b ≤ bound) × All (λ n. b < n) ns × AnyOr (λ n. suc b ≡ n) (b ≡ bound) ns

-- The end goes back, or, without one, the start.
abbrev pub GoesBack : List ℕ → Range → Range → Type 0
GoesBack ns (start, some e) (s, some b) = (s ≡ start) × Precedes ns e b
GoesBack ns (start, some e) (s, none) = ⊥
GoesBack ns (start, none) (s, some b) = ⊥
GoesBack ns (start, none) (s, none) = Precedes ns start s

Precedes-next :
    (ns : List ℕ) (bound n b next : ℕ)
    → 0 < n
    → ((n ≤ bound) × (suc next ≡ n)) ⊎ ((bound < n) × (next ≡ bound))
    → Precedes ns next b
    → Precedes (n ∷ ns) bound b
Precedes-next ns bound n b next pos (inl (le, q)) (lo, all, any) = (
  omega arith,
  (omega arith, all),
  AnyOr-elim _ _ (b ≡ bound) _ ns (λ c. inl (ap suc c ∙ q)) inr any,
)
Precedes-next ns bound n b next pos (inr (lt, q)) (lo, all, any) =
    (omega arith, (omega arith, all), inr (subst (λ x. AnyOr (λ n. suc b ≡ n) (b ≡ x) ns) q any))

moved-cases :
    (bound n : ℕ)
    → 0 < n
    → n < 2 ^ 64
    → ((n ≤ bound) × (suc (moved n bound) ≡ n)) ⊎ ((bound < n) × (moved n bound ≡ bound))
moved-cases bound n pos small = ground arith

GoesBack-cons :
    (n : ℕ) (ns : List ℕ) (range picked : Range)
    → 0 < n
    → n < 2 ^ 64
    → GoesBack ns (reversed n range) picked
    → GoesBack (n ∷ ns) range picked
GoesBack-cons n ns (start, some e) (s, some b) pos small (q, h) =
    (q, Precedes-next ns e n b _ pos (moved-cases e n pos small) h)
GoesBack-cons n ns (start, some e) (s, none) pos small h = elim h [ ]
GoesBack-cons n ns (start, none) (s, some b) pos small h = elim h [ ]
GoesBack-cons n ns (start, none) (s, none) pos small h =
    Precedes-next ns start n s _ pos (moved-cases start n pos small) h

GoesBack-refl : (range : Range) → GoesBack [] range range
GoesBack-refl (start, some e) = (refl, (omega arith, tt, refl))
GoesBack-refl (start, none) = (omega arith, tt, refl)

backward-GoesBack :
    (files : List Text) (ns : List ℕ) (range : Range)
    → Names files ns
    → All (λ n. (0 < n) × (n < 2 ^ 64)) ns
    → Yields (GoesBack ns range) (backward files range)
unfolding backward
backward-GoesBack [] [] range names small = GoesBack-refl range
backward-GoesBack [] (n ∷ ns) range names small = elim names [ ]
backward-GoesBack (f ∷ fs) [] range names small = elim names [ ]
backward-GoesBack (f ∷ fs) (n ∷ ns) range (e, names) ((pos, lt), small) = rw e (
    Yields-mono _ _ (backward fs (reversed n range))
      (λ picked h. GoesBack-cons n ns range picked pos lt h)
      (backward-GoesBack fs ns (reversed n range) names small))

-- Backwards, from files whose names are positive u64 numbers: the end that is picked up is the
-- greatest one up to the given end that is less than every number, and the start is kept; without an
-- end, the same holds of the start. The order of the files does not matter.
pub pick_up-GoesBack :
    (files : List Text) (ns : List ℕ) (writable : Bool) (start : ℕ) (end : Option ℕ)
    → Names files ns
    → All (λ n. (0 < n) × (n < 2 ^ 64)) ns
    → Yields
        (GoesBack ns (start, end))
        (pick_up_from_previous_range (some files) writable start end true)
unfolding pick_up_from_previous_range
pick_up-GoesBack files ns writable start end names small =
    backward-GoesBack files ns (start, end) names small
