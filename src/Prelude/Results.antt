-- ===== src/Prelude/Results.antt =====
-- Rust's `Result`, with one more outcome for the panic of an `unwrap`, an `expect`, an
-- `unreachable!` or a failed assertion. `?` is `>>=`, its conversion by `From` is `map_err`.
use mathlib.Core.Path.{◌≡◌, refl}
use mathlib.Core.Option.{Option, none, some}
use mathlib.Core.List.{List, [], ◌∷◌}

pub data Result {ℓ κ} (E : Type ℓ) (A : Type κ) : Type (ℓ ⊔ κ) where
  ok : A → Result E A
  err : E → Result E A
  panic : Result E A

infixl 5 ◌>>=◌ ◌>>◌
abbrev pub ◌>>=◌ {ℓ κ μ} :
    {E : Type ℓ} {A : Type κ} {B : Type μ} → Result E A → (A → Result E B) → Result E B
ok a >>= f = f a
err e >>= f = err e
panic >>= f = panic

abbrev pub ◌>>◌ {ℓ κ μ} :
    {E : Type ℓ} {A : Type κ} {B : Type μ} → Result E A → Result E B → Result E B
m >> k = m >>= λ _. k

abbrev pub map_err {ℓ κ μ} :
    {E : Type ℓ} {F : Type κ} {A : Type μ} → (E → F) → Result E A → Result F A
map_err f (ok a) = ok a
map_err f (err e) = err (f e)
map_err f panic = panic

abbrev pub map_ok {ℓ κ μ} :
    {E : Type ℓ} {A : Type κ} {B : Type μ} → (A → B) → Result E A → Result E B
map_ok f (ok a) = ok (f a)
map_ok f (err e) = err e
map_ok f panic = panic

-- `Option::expect` and `Option::unwrap`
abbrev pub expect {ℓ κ} : {E : Type ℓ} {A : Type κ} → Option A → Result E A
expect none = panic
expect (some a) = ok a

-- `Option::ok_or`
abbrev pub ok_or {ℓ κ} : {E : Type ℓ} {A : Type κ} → Option A → E → Result E A
ok_or none e = err e
ok_or (some a) e = ok a

-- The loop that pushes `f(item)?` for each item.
abbrev pub try_map {ℓ κ μ} :
    {E : Type ℓ} {A : Type κ} {B : Type μ} → (A → Result E B) → List A → Result E (List B)
try_map f [] = ok []
try_map f (x ∷ xs) = f x >>= λ y. try_map f xs >>= λ ys. ok (y ∷ ys)

pub map_err-eq-ok {ℓ κ μ} :
    {E : Type ℓ} {F : Type κ} {A : Type μ} (f : E → F) (m : Result E A) {a : A}
    → map_err f m ≡ ok a
    → m ≡ ok a
map_err-eq-ok f (ok a) h = cc
map_err-eq-ok f (err e) h = cc
map_err-eq-ok f panic h = cc

-- To split on a computed result and keep the equation.
pub data Outcome {ℓ κ} {E : Type ℓ} {A : Type κ} (r : Result E A) : Type (ℓ ⊔ κ) where
  returned : (a : A) → r ≡ ok a → Outcome r
  failed : (e : E) → r ≡ err e → Outcome r
  stopped : r ≡ panic → Outcome r

pub Result-cases {ℓ κ} : {E : Type ℓ} {A : Type κ} (r : Result E A) → Outcome r
Result-cases (ok a) = returned a refl
Result-cases (err e) = failed e refl
Result-cases panic = stopped refl

-- The inversion of a bind in the form of a continuation, which binds its parts as variables.
pub >>=-ok-elim {ℓ κ μ ν} :
    {E : Type ℓ} {A : Type κ} {B : Type μ} {C : Type ν} (m : Result E A) (f : A → Result E B)
    {b : B}
    → (m >>= f) ≡ ok b
    → ((a : A) → m ≡ ok a → f a ≡ ok b → C)
    → C
>>=-ok-elim (ok a) f h k = k a refl h
>>=-ok-elim (err e) f h k = cc
>>=-ok-elim panic f h k = cc

-- What holds of the value of a result, if it has one.
abbrev pub Gives {ℓ κ μ} : {E : Type ℓ} {A : Type κ} → (A → Type μ) → Result E A → Type μ
Gives P (ok a) = P a
Gives P (err e) = Unit
Gives P panic = Unit

pub >>=-Gives {ℓ κ μ ν ρ} :
    {E : Type ℓ} {A : Type κ} {B : Type μ} (P : A → Type ν) (Q : B → Type ρ) (m : Result E A)
    (f : A → Result E B)
    → Gives P m
    → ((a : A) → P a → Gives Q (f a))
    → Gives Q (m >>= f)
>>=-Gives P Q (ok a) f given next = next a given
>>=-Gives P Q (err e) f given next = tt
>>=-Gives P Q panic f given next = tt

pub Gives-any {ℓ κ} : {E : Type ℓ} {A : Type κ} (m : Result E A) → Gives (λ _. Unit {0}) m
Gives-any (ok a) = tt
Gives-any (err e) = tt
Gives-any panic = tt
