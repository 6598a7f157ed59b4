-- ===== src/Deferred/Laws.antt =====
-- How the accessors of a deferred value agree, and what a history of updates leaves in it.
use aptos_etl.Prelude.{◌≡◌, refl, Option, none, some, List, [], ◌∷◌, Result, ok, err, panic}
use aptos_etl.Deferred.{
  Deferred, DeferredError, present, deferred, deferred_fallback, currently_deferred,
  already_present, set_fallback, make_present, overwrite, unwrap, unwrap_present, unwrap_or,
  unwrap_present_or, extract, extract_present, into_option,
}

-- What an option has to say under each accessor.
abbrev pub required {ℓ} : {A : Type ℓ} → Option A → Result (DeferredError A) A
required none = err currently_deferred
required (some a) = ok a

abbrev pub wanted {ℓ} : {A : Type ℓ} → Option A → Result ⊥ A
wanted none = panic
wanted (some a) = ok a

abbrev pub or_else {ℓ} : {A : Type ℓ} → Option A → A → A
or_else none a = a
or_else (some b) a = b

-- The value that was set for good, if any.
abbrev pub settled {ℓ} : {A : Type ℓ} → Deferred A → Option A
settled (present a) = some a
settled deferred = none
settled (deferred_fallback _) = none

-- Six ways to read a deferred value rest on two views: the usable value, which counts a fallback,
-- for `extract`, `unwrap`, `unwrap_or`; and the settled one, which does not, for the others.
pub accessors_agree {ℓ} :
    {A : Type ℓ} (d : Deferred A) (a : A)
    → (extract d ≡ required (into_option d))
      × (unwrap d ≡ wanted (into_option d))
      × (unwrap_or d a ≡ or_else (into_option d) a)
      × (extract_present d ≡ required (settled d))
      × (unwrap_present d ≡ wanted (settled d))
      × (unwrap_present_or d a ≡ or_else (settled d) a)
unfolding extract unwrap unwrap_or extract_present unwrap_present unwrap_present_or into_option
accessors_agree (present v) a = (refl, refl, refl, refl, refl, refl)
accessors_agree deferred a = (refl, refl, refl, refl, refl, refl)
accessors_agree (deferred_fallback v) a = (refl, refl, refl, refl, refl, refl)

pub data Update {ℓ} (A : Type ℓ) : Type ℓ where
  fallback make over : A → Update A

-- One update; a refused `make_present` leaves the value that it reports as present.
unfoldable pub update {ℓ} : {A : Type ℓ} → Deferred A → Update A → Deferred A
unfolding set_fallback make_present overwrite
update d (fallback a) = set_fallback d a
update d (make a) = elim (make_present d a) [
  | ok d' ↦ d'
  | err (already_present old _) ↦ present old
  | err currently_deferred ↦ d
  | panic ↦ d
]
update d (over a) = overwrite d a

unfoldable pub updates {ℓ} : {A : Type ℓ} → Deferred A → List (Update A) → Deferred A
updates d [] = d
updates d (u ∷ us) = updates (update d u) us

-- The value that a history settles, given the one settled before: an overwrite replaces it, a first
-- `make_present` sets it, a later one and a fallback do not change it.
abbrev pub settles {ℓ} : {A : Type ℓ} → Option A → List (Update A) → Option A
settles o [] = o
settles o (fallback a ∷ us) = settles o us
settles o (over a ∷ us) = settles (some a) us
settles none (make a ∷ us) = settles (some a) us
settles (some b) (make a ∷ us) = settles (some b) us

-- The last fallback of a history, given the one before.
abbrev pub last_fallback {ℓ} : {A : Type ℓ} → Option A → List (Update A) → Option A
last_fallback o [] = o
last_fallback o (fallback a ∷ us) = last_fallback (some a) us
last_fallback o (make a ∷ us) = last_fallback o us
last_fallback o (over a ∷ us) = last_fallback o us

-- The settled value, and where there is none the fallback.
abbrev pub prefer {ℓ} : {A : Type ℓ} → Option A → Option A → Option A
prefer none f = f
prefer (some a) f = some a

updates-present {ℓ} :
    {A : Type ℓ} (b : A) (f : Option A) (us : List (Update A))
    → into_option (updates (present b) us) ≡ prefer (settles (some b) us) f
unfolding updates update into_option
updates-present b f [] = refl
updates-present b f (fallback a ∷ us) = updates-present b f us
updates-present b f (make a ∷ us) = updates-present b f us
updates-present b f (over a ∷ us) = updates-present a f us

updates-fallback {ℓ} :
    {A : Type ℓ} (f : A) (us : List (Update A))
    → into_option (updates (deferred_fallback f) us)
      ≡ prefer (settles none us) (last_fallback (some f) us)
unfolding updates update into_option
updates-fallback f [] = refl
updates-fallback f (fallback a ∷ us) = updates-fallback a us
updates-fallback f (make a ∷ us) = updates-present a (last_fallback (some f) us) us
updates-fallback f (over a ∷ us) = updates-present a (last_fallback (some f) us) us

-- After any history of updates of a fresh deferred value, its usable value is the settled one, that
-- is the last overwrite or, after none, the first `make_present`; with neither, the last fallback.
pub into_option-updates {ℓ} :
    {A : Type ℓ} (us : List (Update A))
    → into_option (updates deferred us) ≡ prefer (settles none us) (last_fallback none us)
unfolding updates update into_option
into_option-updates [] = refl
into_option-updates (fallback a ∷ us) = updates-fallback a us
into_option-updates (make a ∷ us) = updates-present a (last_fallback none us) us
into_option-updates (over a ∷ us) = updates-present a (last_fallback none us) us
