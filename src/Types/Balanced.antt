-- ===== src/Types/Balanced.antt =====
-- The angle brackets of a printed type match, so its parameters can be told apart.
use aptos_etl.Prelude.{
  ℕ, ◌≡◌, refl, sym, ap, ◌∙◌, Bool, true, false, some, List, [], ◌∷◌, ◌++◌, append-nil, All, ok,
  err, panic, Result, map_err, ◌>>=◌, Gives, >>=-Gives, Gives-any, Bool-cases, inl, inr,
}
use aptos_etl.Prelude.Text.{Text, codes, to_string, join, text_eq}
use aptos_etl.Address as Address
use aptos_etl.Types.{
  address, struct_tag, move_type, absent, vector, struct, generic_type_param,
  generic_type_param_index, reference, unparsable, other, missing, to, nil, cons, MoveTypes,
  MoveTypeError, Enumeration, MoveType, Content, Target, Params, try_from, try_from_vec,
  encode_plain, reference_prefix, encode_unparsable, encode_params, tagged, in_tag, try_encode,
  encode_target, encode_all, encode_message, movetype_prefix,
}
use aptos_etl.Types.Brackets.{
  nest, Balanced, IsName, IsName-Balanced, Balanced-append, Balanced-enclosed, Balanced-join,
  IsName-append, decimal-IsName, address-IsName, strip_prefix-IsName, Gives-Balanced, Gives-map_ok,
  Gives-map_err,
}

-- No member of the enumeration has a bracket in its name.
abbrev pub PlainNames : Enumeration → Type 0
PlainNames E = (kind : MoveTypes) → IsName (E.as_str_name kind)

-- The names of modules and of structs in a message have no brackets.
unfoldable mutual
  pub HasNames : MoveType → Type 0
  HasNames (move_type n c) = ContentHasNames c

  pub ContentHasNames : Content → Type 0
  ContentHasNames absent = Unit
  ContentHasNames (vector t) = HasNames t
  ContentHasNames (struct a m s ps) = IsName m × (IsName s × ParamsHaveNames ps)
  ContentHasNames (generic_type_param_index i) = Unit
  ContentHasNames (reference mutable t) = TargetHasNames t
  ContentHasNames (unparsable s) = Unit

  pub TargetHasNames : Target → Type 0
  TargetHasNames missing = Unit
  TargetHasNames (to t) = HasNames t

  pub ParamsHaveNames : Params → Type 0
  ParamsHaveNames nil = Unit
  ParamsHaveNames (cons t ps) = HasNames t × ParamsHaveNames ps

encode_plain-Balanced :
    (E : Enumeration) (kind : MoveTypes) → PlainNames E → Gives Balanced (encode_plain E kind)
encode_plain-Balanced E reference h = tt
encode_plain-Balanced E generic_type_param h = tt
encode_plain-Balanced E struct h = tt
encode_plain-Balanced E vector h = tt
encode_plain-Balanced E unparsable h =
    Gives-Balanced _
      (strip_prefix-IsName movetype_prefix (E.as_str_name unparsable) _ (h unparsable))
encode_plain-Balanced E (other n) h =
    Gives-Balanced _ (strip_prefix-IsName movetype_prefix (E.as_str_name (other n)) _ (h (other n)))

encode_unparsable-Balanced : (s : Text) → Gives Balanced (encode_unparsable s)
encode_unparsable-Balanced s = elim (Bool-cases (text_eq s (codes "function"))) [
  | inl same ↦ rw same (λ depth t. refl)
  | inr different ↦ rw different tt
]

encode_params-Balanced : (ss : List Text) → All Balanced ss → Balanced (encode_params ss)
encode_params-Balanced [] h = λ depth t. refl
encode_params-Balanced (s ∷ ss) h =
    Balanced-enclosed (join (codes ",") (s ∷ ss)) (Balanced-join (s ∷ ss) h)

tagged-Balanced :
    (a m s : Text) (ss : List Text)
    → IsName a
    → IsName m
    → IsName s
    → All Balanced ss
    → Balanced (tagged a m s ss)
tagged-Balanced a m s ss ha hm hs h =
    Balanced-append (a ++ codes "::" ++ m ++ codes "::" ++ s) (encode_params ss)
      (IsName-Balanced _ (
        IsName-append (a ++ codes "::" ++ m ++ codes "::") s
          (IsName-append (a ++ codes "::" ++ m) (codes "::")
            (IsName-append (a ++ codes "::") m (IsName-append a (codes "::") ha (refl, (refl, tt)))
              hm)
            (refl, (refl, tt)))
          hs))
      (encode_params-Balanced ss h)

reference_prefix-Balanced :
    (mutable : Bool) (s : Text) → Balanced s → Balanced (reference_prefix mutable ++ s)
reference_prefix-Balanced true s h = h
reference_prefix-Balanced false s h = h

struct-Balanced :
    (a m s : Text) (kinds : Result MoveTypeError (List MoveTypes))
    (strings : Result MoveTypeError (List Text))
    → IsName m
    → IsName s
    → Gives (All Balanced) strings
    → Gives Balanced (
        kinds >>= λ _.
        map_err (λ e. struct_tag (address e)) (Address.try_encode (Address.string a)) >>= λ printed.
        map_err in_tag strings >>= λ ss. ok (tagged printed m s ss))
struct-Balanced a m s kinds strings hm hs n =
    >>=-Gives (λ _. Unit {0}) Balanced kinds _ (Gives-any kinds)
      (λ _ _.
        >>=-Gives IsName Balanced
          (map_err (λ e. struct_tag (address e)) (Address.try_encode (Address.string a))) _
          (Gives-map_err IsName _ (Address.try_encode (Address.string a)) (address-IsName a))
          (λ printed hp.
            >>=-Gives (All Balanced) Balanced (map_err in_tag strings) _
              (Gives-map_err (All Balanced) in_tag strings n)
              (λ ss hss. tagged-Balanced printed m s ss hp hm hs hss)))

mutual
  unfolding try_encode HasNames

  try_encode-Balanced :
      (E : Enumeration) (kind : MoveTypes) (c : Content)
      → PlainNames E
      → ContentHasNames c
      → Gives Balanced (try_encode E kind c)
  try_encode-Balanced E kind absent h n = encode_plain-Balanced E kind h
  try_encode-Balanced E vector (vector t) h n =
      Gives-map_ok (λ s. codes "Vector<" ++ s ++ codes ">") (encode_message E t)
        (encode_message-Balanced E t h n) (λ s balanced. Balanced-enclosed s balanced)
  try_encode-Balanced E struct (struct a m s ps) h (hm, (hs, n)) =
      struct-Balanced a m s (map_err in_tag (try_from_vec E ps)) (encode_all E ps) hm hs
        (encode_all-Balanced E ps h n)
  try_encode-Balanced E generic_type_param (generic_type_param_index i) h n =
      IsName-Balanced (codes "T" ++ to_string i) (refl, decimal-IsName 20 i)
  try_encode-Balanced E reference (reference mutable t) h n =
      Gives-map_ok (λ s. reference_prefix mutable ++ s) (encode_target E t)
        (encode_target-Balanced E t h n) (reference_prefix-Balanced mutable)
  try_encode-Balanced E unparsable (unparsable s) h n = encode_unparsable-Balanced s
  try_encode-Balanced E kind c h n = tt

  encode_target-Balanced :
      (E : Enumeration) (t : Target)
      → PlainNames E
      → TargetHasNames t
      → Gives Balanced (encode_target E t)
  encode_target-Balanced E missing h n = tt
  encode_target-Balanced E (to t) h n =
      Gives-map_err Balanced _ (encode_message E t) (encode_message-Balanced E t h n)

  encode_all-Balanced :
      (E : Enumeration) (ps : Params)
      → PlainNames E
      → ParamsHaveNames ps
      → Gives (All Balanced) (encode_all E ps)
  encode_all-Balanced E nil h n = tt
  encode_all-Balanced E (cons t ps) h (nt, n) =
      >>=-Gives Balanced (All Balanced) (encode_message E t) _ (encode_message-Balanced E t h nt)
        (λ s hs.
          >>=-Gives (All Balanced) (All Balanced) (encode_all E ps) _ (encode_all-Balanced E ps h n)
            (λ ss hss. (hs, hss)))

  encode_message-Balanced :
      (E : Enumeration) (t : MoveType)
      → PlainNames E
      → HasNames t
      → Gives Balanced (encode_message E t)
  encode_message-Balanced E (move_type n c) h hc =
      >>=-Gives (λ _. Unit {0}) Balanced (try_from E n) _ (Gives-any (try_from E n))
        (λ kind _. try_encode-Balanced E kind c h hc)

-- If no name of the enumeration and no name of a module or a struct has an angle bracket, then those
-- of a printed type match: read from any depth, the text closes nothing that it has not opened, and
-- ends at that depth.
pub nest-encode_message :
    (E : Enumeration) (t : MoveType)
    → PlainNames E
    → HasNames t
    → Gives (λ s. (depth : ℕ) → nest depth s ≡ some depth) (encode_message E t)
nest-encode_message E t h n = closed (encode_message E t) (encode_message-Balanced E t h n)
  where
    closed :
        (m : Result MoveTypeError Text)
        → Gives Balanced m
        → Gives (λ s. (depth : ℕ) → nest depth s ≡ some depth) m
    closed (ok s) balanced =
        λ depth. ap (λ r. nest depth r) (sym (append-nil s)) ∙ balanced depth []
    closed (err e) balanced = tt
    closed panic balanced = tt
