-- ===== src/Timestamp/Format.antt =====
-- The cell of the timestamp format is filled once.
use aptos_etl.Prelude.{◌≡◌, refl, Option, none, some, List, [], ◌∷◌, All, Result, ok, err, panic}
use aptos_etl.Prelude.Text.{Text}
use aptos_etl.Timestamp.{
  DotenvError, TimestampError, env_var, other, not_present, not_unicode, get_timestamp_format,
  timestamp_format_default,
}

-- The results of successive calls, each with what the environment holds by then.
abbrev pub format_calls :
    List (Result DotenvError Text) → Option Text → List (Result TimestampError Text)
format_calls [] cell = []
format_calls (v ∷ vs) cell =
    (get_timestamp_format v cell).0 ∷ format_calls vs (get_timestamp_format v cell).1

format_calls-some :
    (f : Text) (vs : List (Result DotenvError Text))
    → All (λ r. r ≡ ok f) (format_calls vs (some f))
unfolding get_timestamp_format
format_calls-some f [] = tt
format_calls-some f (v ∷ vs) = (refl, format_calls-some f vs)

format_calls-some_eq :
    (g f : Text) (vs : List (Result DotenvError Text))
    → ◌≡◌ {A = Result TimestampError Text} (ok g) (ok f)
    → All (λ r. r ≡ ok f) (format_calls vs (some g))
format_calls-some_eq g f vs h = let e : g ≡ f = cc in rw e (format_calls-some f vs)

-- Once a call has returned a format, every later call returns the same, whatever the environment
-- has become.
pub format_calls-All :
    (v : Result DotenvError Text) (vs : List (Result DotenvError Text)) (cell : Option Text)
    (f : Text)
    → (get_timestamp_format v cell).0 ≡ ok f
    → All (λ r. r ≡ ok f) (format_calls (v ∷ vs) cell)
unfolding get_timestamp_format
format_calls-All (ok g) vs none f h = (h, format_calls-some_eq g f vs h)
format_calls-All (err (env_var not_present)) vs none f h =
    (h, format_calls-some_eq timestamp_format_default f vs h)
format_calls-All (err (env_var (not_unicode s))) vs none f h = cc
format_calls-All (err other) vs none f h = cc
format_calls-All panic vs none f h = cc
format_calls-All v vs (some g) f h = (h, format_calls-some_eq g f vs h)
