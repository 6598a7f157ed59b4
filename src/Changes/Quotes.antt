-- ===== src/Changes/Quotes.antt =====
-- Which quotation marks `strip_quotes` of processing/reps/changes.rs takes away.
use aptos_etl.Prelude.{
  ℕ, ◌≡◌, ◌≢◌, refl, false, sym, ap, ◌⊎◌, inl, inr, none, some, [], ◌∷◌, ◌++◌, ◌==◌, ==_iff,
  ==_refl, Bool-cases, Option-cases, arith,
}
use aptos_etl.Prelude.Text.{Text, strip_prefix?}
use aptos_etl.Changes.{quote, strip_suffix?, strip_quotes}

strip_suffix?-append : (q : ℕ) (t : Text) → strip_suffix? q (t ++ q ∷ []) ≡ some t
strip_suffix?-append q [] = rw (==_refl q) refl
strip_suffix?-append q (c ∷ []) = rw (==_refl q) refl
strip_suffix?-append q (c ∷ d ∷ t) = rw (strip_suffix?-append q (d ∷ t)) refl

strip_suffix?-some : (q : ℕ) (s t : Text) → strip_suffix? q s ≡ some t → s ≡ t ++ q ∷ []
strip_suffix?-some q [] t h = cc
strip_suffix?-some q (c ∷ []) t h = ground arith
strip_suffix?-some q (c ∷ d ∷ s) t h = elim (Option-cases (strip_suffix? q (d ∷ s))) [
  | inl e ↦ cc
  | inr (r, e) ↦ ground (arith, strip_suffix?-some q (d ∷ s) r e)
]

-- What is left of a text.
pub data Stripped (s : Text) : Text → Type 0 where
  both : {t : Text} → s ≡ quote ∷ (t ++ quote ∷ []) → Stripped s t
  back : {t : Text} → s ≡ t ++ quote ∷ [] → ((u : Text) → s ≢ quote ∷ u) → Stripped s t
  kept : ((t : Text) → s ≢ t ++ quote ∷ []) ⊎ (s ≡ quote ∷ []) → Stripped s s

no_suffix : (s : Text) → strip_suffix? quote s ≡ none → (t : Text) → s ≢ t ++ quote ∷ []
no_suffix s h t e = cc (strip_suffix?-append quote t)

front_kept :
    (d : ℕ) (ds : Text)
    → strip_suffix? quote (d ∷ ds) ≡ none
    → (t : Text) → quote ∷ d ∷ ds ≢ t ++ quote ∷ []
front_kept d ds h [] e = cc
front_kept d ds h (x ∷ t) e =
    let tails : d ∷ ds ≡ t ++ quote ∷ [] = cc in no_suffix (d ∷ ds) h t tails

other_front : (c : ℕ) (cs : Text) → (quote == c) ≡ false → (u : Text) → c ∷ cs ≢ quote ∷ u
other_front c cs e u h = ground arith

only_front :
    (cs : Text)
    → strip_suffix? quote cs ≡ none
    → ((t : Text) → quote ∷ cs ≢ t ++ quote ∷ []) ⊎ (quote ∷ cs ≡ quote ∷ [])
only_front [] h = inr refl
only_front (d ∷ ds) h = inl (front_kept d ds h)

strip_front : (cs : Text) → Stripped (quote ∷ cs) (strip_quotes (quote ∷ cs))
unfolding strip_quotes
strip_front cs = elim (Option-cases (strip_suffix? quote cs)) [
  | inl h ↦ rw h (kept (only_front cs h))
  | inr (t, h) ↦ rw h (both (ap (λ r. quote ∷ r) (strip_suffix?-some quote cs t h)))
]

strip_other :
    (s : Text)
    → strip_prefix? (quote ∷ []) s ≡ none
    → ((u : Text) → s ≢ quote ∷ u)
    → Stripped s (strip_quotes s)
unfolding strip_quotes
strip_other s h ne = elim (Option-cases (strip_suffix? quote s)) [
  | inl e ↦ rw (h, e) (kept (inl (no_suffix s e)))
  | inr (t, e) ↦ rw (h, e) (back (strip_suffix?-some quote s t e) ne)
]

-- A quotation mark at the end of a text is taken away, and with it one at the front. A mark at the
-- front alone stays, as does a text that is a single mark.
pub strip_quotes-Stripped : (s : Text) → Stripped s (strip_quotes s)
strip_quotes-Stripped [] = strip_other [] refl (λ u e. cc)
strip_quotes-Stripped (c ∷ cs) = elim (Bool-cases (quote == c)) [
  | inl e ↦ let same : c ≡ quote = sym ((==_iff quote c).0 e) in rw same (strip_front cs)
  | inr e ↦ strip_other (c ∷ cs) (rw e refl) (other_front c cs e)
]
