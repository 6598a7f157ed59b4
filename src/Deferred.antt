-- ===== src/Deferred.antt =====
-- A value that may be set later: processing/deferred.rs.
pub mod Laws
mod Tests
use aptos_etl.Prelude.{Bool, true, false, Option, none, some, Result, ok, err, panic}

pub data DeferredError {ℓ} (A : Type ℓ) : Type ℓ where
  currently_deferred : DeferredError A
  already_present : A → A → DeferredError A

pub data Deferred {ℓ} (A : Type ℓ) : Type ℓ where
  present : A → Deferred A
  deferred : Deferred A
  deferred_fallback : A → Deferred A

module _ {ℓ} {A : Type ℓ} where
  abbrev pub is_deferred : Deferred A → Bool
  is_deferred (present _) = false
  is_deferred deferred = true
  is_deferred (deferred_fallback _) = true

  abbrev pub is_deferred_with_fallback : Deferred A → Bool
  is_deferred_with_fallback (present _) = false
  is_deferred_with_fallback deferred = false
  is_deferred_with_fallback (deferred_fallback _) = true

  abbrev pub is_present : Deferred A → Bool
  is_present (present _) = true
  is_present deferred = false
  is_present (deferred_fallback _) = false

  abbrev pub is_usable : Deferred A → Bool
  is_usable (present _) = true
  is_usable deferred = false
  is_usable (deferred_fallback _) = true

  unfoldable pub set_fallback : Deferred A → A → Deferred A
  set_fallback (present old) value = present old
  set_fallback deferred value = deferred_fallback value
  set_fallback (deferred_fallback _) value = deferred_fallback value

  unfoldable pub make_present : Deferred A → A → Result (DeferredError A) (Deferred A)
  make_present (present old) value = err (already_present old value)
  make_present deferred value = ok (present value)
  make_present (deferred_fallback _) value = ok (present value)

  unfoldable pub overwrite : Deferred A → A → Deferred A
  overwrite d value = present value

  -- `unwrap` panics on `Deferred`
  unfoldable pub unwrap : Deferred A → Result ⊥ A
  unwrap (present value) = ok value
  unwrap deferred = panic
  unwrap (deferred_fallback value) = ok value

  unfoldable pub unwrap_present : Deferred A → Result ⊥ A
  unwrap_present (present value) = ok value
  unwrap_present deferred = panic
  unwrap_present (deferred_fallback _) = panic

  unfoldable pub unwrap_or : Deferred A → A → A
  unwrap_or (present inner) value = inner
  unwrap_or deferred value = value
  unwrap_or (deferred_fallback inner) value = inner

  unfoldable pub unwrap_present_or : Deferred A → A → A
  unwrap_present_or (present inner) value = inner
  unwrap_present_or deferred value = value
  unwrap_present_or (deferred_fallback _) value = value

  unfoldable pub extract : Deferred A → Result (DeferredError A) A
  extract (present value) = ok value
  extract deferred = err currently_deferred
  extract (deferred_fallback value) = ok value

  unfoldable pub extract_present : Deferred A → Result (DeferredError A) A
  extract_present (present value) = ok value
  extract_present deferred = err currently_deferred
  extract_present (deferred_fallback _) = err currently_deferred

  -- `Into<Option<T>>`
  unfoldable pub into_option : Deferred A → Option A
  into_option (present inner) = some inner
  into_option deferred = none
  into_option (deferred_fallback inner) = some inner
