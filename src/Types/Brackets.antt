-- ===== src/Types/Brackets.antt =====
-- Texts whose angle brackets match: addresses, numbers, names, and what is made of them.
use aptos_etl.Prelude.{
  ℕ, zero, suc, ◌+◌, ◌/◌, ◌%◌, ◌<◌, ◌≡◌, refl, ap, ◌∙◌, Bool, true, false, Option, none, some, List,
  [], ◌∷◌, ◌++◌, append_assoc, All, ok, err, panic, ok_or, Result, map_err, map_ok, Gives, arith,
  ltb, ◌==◌, if◌then◌else◌, Bool-cases, inl, inr, replicate, Result-cases, returned, failed,
  stopped,
}
use aptos_etl.Prelude.Text.{Text, codes, is_ascii_hexdigit, strip_prefix?, decimal, join}
use aptos_etl.Address as Address
use aptos_etl.Address.Fix.{IsHex, try_fix_string_iff}
use aptos_etl.Types.{MoveTypeError}

-- How many brackets are open after a text, with some open before it; or a bracket closes none.
abbrev pub nest : ℕ → Text → Option ℕ
nest open_ [] = some open_
nest open_ (c ∷ s) =
    if c == 60
    then nest (suc open_) s
    else if c == 62
    then elim open_ [ zero ↦ none | suc rest ↦ nest rest s ]
    else nest open_ s

-- A text that can stand before any other without a change of what is open.
abbrev pub Balanced : Text → Type 0
Balanced s = (depth : ℕ) (t : Text) → nest depth (s ++ t) ≡ nest depth t

abbrev pub is_bracket : ℕ → Bool
is_bracket c = if c == 60 then true else c == 62

-- A name without a bracket.
abbrev pub IsName : Text → Type 0
IsName s = All (λ c. is_bracket c ≡ false) s

pub IsName-Balanced : (s : Text) → IsName s → Balanced s
IsName-Balanced [] h depth t = refl
IsName-Balanced (c ∷ s) (plain, h) depth t = ground (arith, IsName-Balanced s h depth t)

pub Balanced-append : (s r : Text) → Balanced s → Balanced r → Balanced (s ++ r)
Balanced-append s r hs hr depth t =
    ap (λ l. nest depth l) (append_assoc s r t) ∙ hs depth (r ++ t) ∙ hr depth t

-- `<s>`
pub Balanced-enclosed : (s : Text) → Balanced s → Balanced (codes "<" ++ s ++ codes ">")
Balanced-enclosed s h depth t =
    ap (λ l. nest (suc depth) l) (append_assoc s (codes ">") t) ∙ h (suc depth) (codes ">" ++ t)

pub Balanced-join : (ss : List Text) → All Balanced ss → Balanced (join (codes ",") ss)
Balanced-join [] h = λ depth t. refl
Balanced-join (s ∷ []) (hs, h) = hs
Balanced-join (s ∷ r ∷ ss) (hs, h) =
    Balanced-append (s ++ codes ",") (join (codes ",") (r ∷ ss))
      (Balanced-append s (codes ",") hs (λ depth t. refl)) (Balanced-join (r ∷ ss) h)

pub IsName-append : (s r : Text) → IsName s → IsName r → IsName (s ++ r)
IsName-append [] r h hr = hr
IsName-append (c ∷ s) r (plain, h) hr = (plain, IsName-append s r h hr)

pub digit_plain : (d : ℕ) → d < 10 → is_bracket (48 + d) ≡ false
digit_plain d h = ground arith

pub decimal-IsName : (fuel n : ℕ) → IsName (decimal fuel n)
decimal-IsName zero n = tt
decimal-IsName (suc fuel) n = elim (Bool-cases (ltb n 10)) [
  | inl small ↦ rw (small, decimal) (digit_plain n (ground arith), tt)
  | inr big ↦
      rw (big, decimal)
        (IsName-append (decimal fuel (n / 10)) ((48 + n % 10) ∷ []) (decimal-IsName fuel (n / 10))
          (digit_plain (n % 10) (omega arith), tt))
]

pub hex_plain : (c : ℕ) → is_ascii_hexdigit c ≡ true → is_bracket c ≡ false
hex_plain c h = ground arith

pub hex-IsName : (s : Text) → IsHex s → IsName s
hex-IsName [] h = tt
hex-IsName (c ∷ s) h = (hex_plain c (ground arith), hex-IsName s (ground arith))

pub zeros-IsName : (n : ℕ) (s : Text) → IsName s → IsName (replicate n 48 ++ s)
zeros-IsName zero s h = h
zeros-IsName (suc n) s h = (refl, zeros-IsName n s h)

pub address-IsName : (s : Text) → Gives IsName (Address.try_encode (Address.string s))
unfolding Address.try_encode
address-IsName s = elim (Result-cases (Address.try_fix_string s)) [
  | returned a e ↦
      let (hex, short, at) = (try_fix_string_iff s a).0 e in
      rw (e, at) (refl, (refl, zeros-IsName _ _ (hex-IsName (Address.strip_prefix s) hex)))
  | failed x e ↦ rw e tt
  | stopped e ↦ rw e tt
]

pub strip_prefix-IsName :
    (p s : Text) (e : MoveTypeError) → IsName s → Gives IsName (ok_or (strip_prefix? p s) e)
strip_prefix-IsName [] s e h = h
strip_prefix-IsName (c ∷ p) [] e h = tt
strip_prefix-IsName (c ∷ p) (d ∷ s) e (plain, h) = elim (Bool-cases (c == d)) [
  | inl same ↦ rw same (strip_prefix-IsName p s e h)
  | inr other_one ↦ rw other_one tt
]

pub Gives-Balanced : (m : Result MoveTypeError Text) → Gives IsName m → Gives Balanced m
Gives-Balanced (ok s) h = IsName-Balanced s h
Gives-Balanced (err e) h = tt
Gives-Balanced panic h = tt

pub Gives-map_ok :
    (f : Text → Text) (m : Result MoveTypeError Text)
    → Gives Balanced m
    → ((s : Text) → Balanced s → Balanced (f s))
    → Gives Balanced (map_ok f m)
Gives-map_ok f (ok s) h step = step s h
Gives-map_ok f (err e) h step = tt
Gives-map_ok f panic h step = tt

pub Gives-map_err {ℓ κ μ ν} :
    {E : Type ℓ} {F : Type κ} {A : Type μ} (P : A → Type ν) (f : E → F) (m : Result E A)
    → Gives P m
    → Gives P (map_err f m)
Gives-map_err P f (ok a) h = h
Gives-map_err P f (err e) h = tt
Gives-map_err P f panic h = tt
