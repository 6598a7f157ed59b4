-- ===== src/Deferred/Tests.antt =====
-- Deferred values at concrete inputs.
use aptos_etl.Prelude.{ℕ, ◌≡◌, refl, none, some, List, [], ◌∷◌}
use aptos_etl.Deferred.{deferred, into_option}
use aptos_etl.Deferred.Laws.{
  Update, fallback, make, update, updates, settles, last_fallback, prefer, into_option-updates,
}

abbrev history : List (Update ℕ)
history = fallback 1 ∷ make 2 ∷ fallback 3 ∷ make 4 ∷ []

settled_first : into_option (updates deferred history) ≡ some 2
unfolding updates update into_option
settled_first = refl

into_option-updates_example :
    into_option (updates deferred history)
    ≡ prefer (settles none history) (last_fallback none history)
into_option-updates_example = into_option-updates history
