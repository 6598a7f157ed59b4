-- ===== src/Types/Printable.antt =====
-- The types that have a printed form.
use aptos_etl.Prelude.{
  ◌≤◌, ◌≡◌, refl, subst, ◌↔◌, true, false, none, some, [], ◌∷◌, ◌++◌, length, ok, err, panic, ok_or,
  Result, map_err, map_ok, ◌>>=◌, ◌==◌, Bool-cases, inl, inr, Result-cases, returned, failed,
  stopped, arith,
}
use aptos_etl.Prelude.Text.{Text, codes, strip_prefix?, text_eq, text_eq→≡, text_eq_refl}
use aptos_etl.Address as Address
use aptos_etl.Address.Fix.{IsHex, try_fix_string_iff}
use aptos_etl.Types.{
  move_type, absent, vector, struct, generic_type_param, generic_type_param_index, reference,
  unparsable, other, missing, to, nil, cons, MoveTypes, MoveTypeError, Enumeration, MoveType,
  Content, Target, Params, try_from, try_from_vec, encode_plain, encode_unparsable, in_tag,
  try_encode, encode_all, encode_message, movetype_prefix,
}

abbrev pub Succeeds {ℓ κ} : {E : Type ℓ} {A : Type κ} → Result E A → Type 0
Succeeds (ok a) = Unit
Succeeds (err e) = ⊥
Succeeds panic = ⊥

pub Succeeds-bind {ℓ κ μ} :
    {E : Type ℓ} {A : Type κ} {B : Type μ} (m : Result E A) (f : A → Result E B)
    → Succeeds m
    → ((a : A) → Succeeds (f a))
    → Succeeds (m >>= f)
Succeeds-bind (ok a) f h next = next a
Succeeds-bind (err e) f h next = elim h [ ]
Succeeds-bind panic f h next = elim h [ ]

pub Succeeds-first {ℓ κ μ} :
    {E : Type ℓ} {A : Type κ} {B : Type μ} (m : Result E A) (f : A → Result E B)
    → Succeeds (m >>= f)
    → Succeeds m × ((a : A) × Succeeds (f a))
Succeeds-first (ok a) f h = (tt, (a, h))
Succeeds-first (err e) f h = elim h [ ]
Succeeds-first panic f h = elim h [ ]

pub Succeeds-map_ok {ℓ κ μ} :
    {E : Type ℓ} {A : Type κ} {B : Type μ} (f : A → B) (m : Result E A)
    → Succeeds (map_ok f m) ↔ Succeeds m
Succeeds-map_ok f (ok a) = (λ h. h, λ h. h)
Succeeds-map_ok f (err e) = (λ h. h, λ h. h)
Succeeds-map_ok f panic = (λ h. h, λ h. h)

pub Succeeds-map_err {ℓ κ μ} :
    {E : Type ℓ} {F : Type κ} {A : Type μ} (f : E → F) (m : Result E A)
    → Succeeds (map_err f m) ↔ Succeeds m
Succeeds-map_err f (ok a) = (λ h. h, λ h. h)
Succeeds-map_err f (err e) = (λ h. h, λ h. h)
Succeeds-map_err f panic = (λ h. h, λ h. h)

-- The prefix of the enumeration's names, then anything.
abbrev pub HasPrefix : Text → Type 0
HasPrefix name = (rest : Text) × (name ≡ movetype_prefix ++ rest)

-- At most 64 digits behind an optional `0x`.
abbrev pub IsAddress : Text → Type 0
IsAddress a = IsHex (Address.strip_prefix a) × (length (Address.strip_prefix a) ≤ 64)

-- A type of which each part has the content that its kind wants, and nothing else.
unfoldable mutual
  pub Printable : Enumeration → MoveType → Type 0
  Printable E (move_type n c) = elim (E.decode n) [ none ↦ ⊥ | some kind ↦ Fits E kind c ]

  pub Fits : Enumeration → MoveTypes → Content → Type 0
  Fits E unparsable absent = HasPrefix (E.as_str_name unparsable)
  Fits E (other n) absent = HasPrefix (E.as_str_name (other n))
  Fits E vector (vector t) = Printable E t
  Fits E struct (struct a m s ps) = IsAddress a × AllPrintable E ps
  Fits E generic_type_param (generic_type_param_index i) = Unit
  Fits E reference (reference mutable t) = PrintableTarget E t
  Fits E unparsable (unparsable s) = s ≡ codes "function"
  Fits E kind c = ⊥

  pub PrintableTarget : Enumeration → Target → Type 0
  PrintableTarget E missing = ⊥
  PrintableTarget E (to t) = Printable E t

  pub AllPrintable : Enumeration → Params → Type 0
  AllPrintable E nil = Unit
  AllPrintable E (cons t ps) = Printable E t × AllPrintable E ps

strip_prefix_iff :
    (p s : Text) (e : MoveTypeError)
    → ((rest : Text) × (s ≡ p ++ rest)) ↔ Succeeds (ok_or (strip_prefix? p s) e)
strip_prefix_iff [] s e = (λ h. tt, λ h. (s, refl))
strip_prefix_iff (c ∷ p) [] e = (λ (rest, h). absurd cc, λ h. elim h [ ])
strip_prefix_iff (c ∷ p) (d ∷ s) e = elim (Bool-cases (c == d)) [
  | inl same ↦ rw same (
    λ (rest, h). (strip_prefix_iff p s e).0 (rest, cc),
    λ h.
        let (rest, h') = (strip_prefix_iff p s e).1 h in
        let at : c ≡ d = ground arith in (rest, cc),
  )
  | inr differ ↦
      rw differ (λ (rest, h). (let at : c ≡ d = cc in absurd (ground arith)), λ h. elim h [ ])
]

pub accepted-ok :
    (a : Text)
    → IsAddress a
    → Address.try_fix_string a ≡ ok (Address.format_address (Address.strip_prefix a))
accepted-ok a (hex, short) = (try_fix_string_iff a _).1 (hex, short, refl)

try_encode-IsAddress : (a : Text) → IsAddress a ↔ Succeeds (Address.try_encode (Address.string a))
unfolding Address.try_encode
try_encode-IsAddress a = elim (Result-cases (Address.try_fix_string a)) [
  | returned r e ↦
      let (hex, short, at) = (try_fix_string_iff a r).0 e in rw e (λ h. tt, λ h. (hex, short))
  | failed x e ↦ rw e (λ accepted. (let h = accepted-ok a accepted in cc), λ h. elim h [ ])
  | stopped e ↦ rw e (λ accepted. (let h = accepted-ok a accepted in cc), λ h. elim h [ ])
]

unequal : {s r : Text} → s ≡ r → text_eq s r ≡ false → ⊥
unequal {s} {r} same differ =
    let at : text_eq s r ≡ true = subst (λ l. text_eq s l ≡ true) same (text_eq_refl s) in cc

pub unparsable_iff : (s : Text) → (s ≡ codes "function") ↔ Succeeds (encode_unparsable s)
unparsable_iff s = elim (Bool-cases (text_eq s (codes "function"))) [
  | inl same ↦ rw same (λ h. tt, λ h. text_eq→≡ s (codes "function") same)
  | inr differ ↦ rw differ (λ h. absurd (unequal h differ), λ h. elim h [ ])
]

pub encode_plain_iff :
    (E : Enumeration) (kind : MoveTypes) → Fits E kind absent ↔ Succeeds (encode_plain E kind)
unfolding Printable
encode_plain_iff E reference = (λ h. h, λ h. h)
encode_plain_iff E generic_type_param = (λ h. h, λ h. h)
encode_plain_iff E struct = (λ h. h, λ h. h)
encode_plain_iff E vector = (λ h. h, λ h. h)
encode_plain_iff E unparsable = strip_prefix_iff movetype_prefix (E.as_str_name unparsable) _
encode_plain_iff E (other n) = strip_prefix_iff movetype_prefix (E.as_str_name (other n)) _

-- The conversion of the parameters fails only where the printing of one would.
try_from_vec-encode_all :
    (E : Enumeration) (ps : Params) → Succeeds (encode_all E ps) → Succeeds (try_from_vec E ps)
unfolding try_encode
try_from_vec-encode_all E nil h = tt
try_from_vec-encode_all E (cons (move_type n c) ps) h =
    let (first, (s, rest)) = Succeeds-first (encode_message E (move_type n c)) _ h in
    Succeeds-bind (try_from E n) _ (Succeeds-first (try_from E n) _ first).0 (λ kind.
      Succeeds-bind (try_from_vec E ps) _
        (try_from_vec-encode_all E ps (Succeeds-first (encode_all E ps) _ rest).0) (λ kinds. tt))

pub struct_iff :
    (E : Enumeration) (a m s : Text) (ps : Params)
    → (IsAddress a × Succeeds (encode_all E ps)) ↔ Succeeds (try_encode E struct (struct a m s ps))
unfolding try_encode
struct_iff E a m s ps = (
  λ (at, all_ok).
      Succeeds-bind (map_err in_tag (try_from_vec E ps)) _
        ((Succeeds-map_err in_tag (try_from_vec E ps)).1 (try_from_vec-encode_all E ps all_ok))
        (λ kinds.
          Succeeds-bind _ _
            ((Succeeds-map_err _ (Address.try_encode (Address.string a))).1
              ((try_encode-IsAddress a).0 at))
            (λ printed.
              Succeeds-bind (map_err in_tag (encode_all E ps)) _
                ((Succeeds-map_err in_tag (encode_all E ps)).1 all_ok) (λ strings. tt))),
  λ h.
      let (_, (kinds, h2)) = Succeeds-first (map_err in_tag (try_from_vec E ps)) _ h in
      let (at, (printed, h3)) = Succeeds-first _ _ h2 in
      let (all_ok, _) = Succeeds-first (map_err in_tag (encode_all E ps)) _ h3 in
      (
        (try_encode-IsAddress a).1
            ((Succeeds-map_err _ (Address.try_encode (Address.string a))).0 at),
        (Succeeds-map_err in_tag (encode_all E ps)).0 all_ok,
      ),
)
