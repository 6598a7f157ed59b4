-- ===== src/Prelude/Related.antt =====
-- Results that have a value, and results of which the second follows the first.
use mathlib.Core.Path.{◌≡◌, refl, sym, subst}
use mathlib.Core.Bool.{Bool, true, false}
use aptos_etl.Prelude.Tests.{if◌then◌else◌}
use aptos_etl.Prelude.Results.{Result, ok, err, panic, ◌>>=◌, map_err}

-- There is a value, and it has the property.
abbrev pub Yields {ℓ κ} : {E : Type ℓ} {A : Type κ} → (A → Type 0) → Result E A → Type 0
Yields P (ok a) = P a
Yields P (err e) = ⊥
Yields P panic = ⊥

pub >>=-Yields {ℓ κ μ} :
    {E : Type ℓ} {A : Type κ} {B : Type μ} (P : A → Type 0) (Q : B → Type 0) (m : Result E A)
    (f : A → Result E B)
    → Yields P m
    → ((a : A) → P a → Yields Q (f a))
    → Yields Q (m >>= f)
>>=-Yields P Q (ok a) f yielded next = next a yielded
>>=-Yields P Q (err e) f yielded next = elim yielded [ ]
>>=-Yields P Q panic f yielded next = elim yielded [ ]

pub Yields-map_err {ℓ κ μ} :
    {E : Type ℓ} {F : Type κ} {A : Type μ} (P : A → Type 0) (f : E → F) (m : Result E A)
    → Yields P m
    → Yields P (map_err f m)
Yields-map_err P f (ok a) yielded = yielded
Yields-map_err P f (err e) yielded = yielded
Yields-map_err P f panic yielded = yielded

pub ok-Yields {ℓ κ} :
    {E : Type ℓ} {A : Type κ} (P : A → Type 0) (m : Result E A) {a : A}
    → m ≡ ok a
    → P a
    → Yields P m
ok-Yields P m e h = subst (Yields P) (sym e) h

-- Where the first result has a value, the second has one that is related to it.
abbrev pub Follows {ℓ κ μ} :
    {E : Type ℓ} {F : Type κ} {A : Type μ} {B : Type μ}
    → (A → B → Type 0)
    → Result E A
    → Result F B
    → Type 0
Follows R (ok a) m' = Yields (R a) m'
Follows R (err e) m' = Unit
Follows R panic m' = Unit

module _ {ℓ} {E : Type ℓ} {A B C D : Type 0} where
  -- Two steps with related values.
  pub >>=-Follows :
      (R : A → B → Type 0) (S : C → D → Type 0) (m : Result E A) (m' : Result E B)
      (f : A → Result E C) (g : B → Result E D)
      → Follows R m m'
      → ((a : A) (b : B) → R a b → Follows S (f a) (g b))
      → Follows S (m >>= f) (m' >>= g)
  >>=-Follows R S (ok a) (ok b) f g r next = next a b r
  >>=-Follows R S (ok a) (err e) f g r next = elim r [ ]
  >>=-Follows R S (ok a) panic f g r next = elim r [ ]
  >>=-Follows R S (err e) m' f g r next = tt
  >>=-Follows R S panic m' f g r next = tt

module _ {ℓ} {E : Type ℓ} {A C D : Type 0} where
  -- A step that the second does not make.
  pub extra-Follows :
      (S : C → D → Type 0) (m : Result E A) (m' : Result E D) (f : A → Result E C)
      → ((a : A) → Follows S (f a) m')
      → Follows S (m >>= f) m'
  extra-Follows S (ok a) m' f next = next a
  extra-Follows S (err e) m' f next = tt
  extra-Follows S panic m' f next = tt

  -- The same step, or one that agrees where it has a value.
  pub same-Follows :
      (S : C → D → Type 0) (m : Result E A) (f : A → Result E C) (g : A → Result E D)
      → ((a : A) → Follows S (f a) (g a))
      → Follows S (m >>= f) (m >>= g)
  same-Follows S (ok a) f g next = next a
  same-Follows S (err e) f g next = tt
  same-Follows S panic f g next = tt

  pub agree-Follows :
      (S : C → D → Type 0) (m m' : Result E A) (f : A → Result E C) (g : A → Result E D)
      → ((a : A) → m ≡ ok a → m' ≡ ok a)
      → ((a : A) → Follows S (f a) (g a))
      → Follows S (m >>= f) (m' >>= g)
  agree-Follows S (ok a) m' f g agree next = rw (agree a refl) (next a)
  agree-Follows S (err e) m' f g agree next = tt
  agree-Follows S panic m' f g agree next = tt

  -- Two steps in place of one.
  pub agree_twice-Follows :
      {B : Type 0} (S : C → D → Type 0) (m : Result E B) (h : B → Result E A) (m' : Result E A)
      (f : A → Result E C) (g : A → Result E D)
      → ((a : A) → (m >>= h) ≡ ok a → m' ≡ ok a)
      → ((a : A) → Follows S (f a) (g a))
      → Follows S (m >>= λ b. h b >>= f) (m' >>= g)
  agree_twice-Follows S (ok b) h m' f g agree next = agree-Follows S (h b) m' f g agree next
  agree_twice-Follows S (err e) h m' f g agree next = tt
  agree_twice-Follows S panic h m' f g agree next = tt

pub Yields-mono {ℓ κ} :
    {E : Type ℓ} {A : Type κ} (P Q : A → Type 0) (m : Result E A)
    → ((a : A) → P a → Q a)
    → Yields P m
    → Yields Q m
Yields-mono P Q (ok a) f h = f a h
Yields-mono P Q (err e) f h = h
Yields-mono P Q panic f h = h

-- No condition on a value.
abbrev pub Any {ℓ} : {A : Type ℓ} → A → Type 0
Any a = Unit

module _ {ℓ κ} {E : Type ℓ} {A : Type κ} where
  pub Yields-value : (P : A → Type 0) (m : Result E A) → Yields P m → (a : A) × (m ≡ ok a) × P a
  Yields-value P (ok a) h = (a, refl, h)
  Yields-value P (err e) h = elim h [ ]
  Yields-value P panic h = elim h [ ]

-- What follows a result that has a value has one.
pub Follows-Yields {ℓ κ μ} :
    {E : Type ℓ} {F : Type κ} {A B : Type μ} (R : A → B → Type 0) (m : Result E A) (m' : Result F B)
    → Follows R m m'
    → Yields Any m
    → Yields Any m'
Follows-Yields R (ok a) m' f y = Yields-mono (R a) Any m' (λ b h. tt) f
Follows-Yields R (err e) m' f y = elim y [ ]
Follows-Yields R panic m' f y = elim y [ ]

pub if-Yields {ℓ κ} :
    {E : Type ℓ} {A : Type κ} (P : A → Type 0) (b : Bool) (x y : Result E A)
    → Yields P x
    → Yields P y
    → Yields P (if b then x else y)
if-Yields P true x y left right = left
if-Yields P false x y left right = right
