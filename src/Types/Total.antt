-- ===== src/Types/Total.antt =====
-- A type is printed exactly if each of its parts fits its kind.
use aptos_etl.Prelude.{ℕ, ◌↔◌, Option, none, some, ◌++◌, ◌>>=◌, ok_or}
use aptos_etl.Prelude.Text.{codes}
use aptos_etl.Types.{
  move_type, absent, vector, struct, generic_type_param, generic_type_param_index, reference,
  unparsable, missing, to, nil, cons, reference_type_error, MoveTypes, Enumeration, MoveType,
  Content, Target, Params, try_encode, encode_target, encode_all, encode_message, reference_prefix,
  move_type_decode_error,
}
use aptos_etl.Types.Printable.{
  Succeeds, Succeeds-bind, Succeeds-first, Succeeds-map_ok, Succeeds-map_err, Printable, Fits,
  PrintableTarget, AllPrintable, unparsable_iff, encode_plain_iff, struct_iff,
}

↔-then : {A B C : Type 0} → A ↔ B → C ↔ B → A ↔ C
↔-then (f, g) (h, k) = (λ a. k (f a), λ c. g (h c))

-- The conversion finds a kind, and then its content decides.
known :
    (E : Enumeration) (n : ℕ) (c : Content) (found : Option MoveTypes)
    → ((kind : MoveTypes) → Fits E kind c ↔ Succeeds (try_encode E kind c))
    → (elim found [ none ↦ ⊥ | some kind ↦ Fits E kind c ])
      ↔ Succeeds (ok_or found (move_type_decode_error n) >>= λ kind. try_encode E kind c)
known E n c none each = (λ h. h, λ h. h)
known E n c (some kind) each = each kind

mutual
  unfolding try_encode Printable

  try_encode_iff :
      (E : Enumeration) (kind : MoveTypes) (c : Content)
      → Fits E kind c ↔ Succeeds (try_encode E kind c)
  try_encode_iff E kind absent = encode_plain_iff E kind
  try_encode_iff E vector (vector t) =
      ↔-then (encode_message_iff E t)
        (Succeeds-map_ok (λ s. codes "Vector<" ++ s ++ codes ">") (encode_message E t))
  try_encode_iff E struct (struct a m s ps) = (
    λ (at, all_fit). (struct_iff E a m s ps).0 (at, (encode_all_iff E ps).0 all_fit),
    λ h. let (at, all_ok) = (struct_iff E a m s ps).1 h in (at, (encode_all_iff E ps).1 all_ok),
  )
  try_encode_iff E generic_type_param (generic_type_param_index i) = (λ h. h, λ h. h)
  try_encode_iff E reference (reference mutable t) =
      ↔-then (encode_target_iff E t)
        (Succeeds-map_ok (λ s. reference_prefix mutable ++ s) (encode_target E t))
  try_encode_iff E unparsable (unparsable s) = unparsable_iff s
  try_encode_iff E kind c = (λ h. h, λ h. h)

  encode_target_iff :
      (E : Enumeration) (t : Target) → PrintableTarget E t ↔ Succeeds (encode_target E t)
  encode_target_iff E missing = (λ h. h, λ h. h)
  encode_target_iff E (to t) =
      ↔-then (encode_message_iff E t) (Succeeds-map_err reference_type_error (encode_message E t))

  encode_all_iff : (E : Enumeration) (ps : Params) → AllPrintable E ps ↔ Succeeds (encode_all E ps)
  encode_all_iff E nil = (λ h. h, λ h. h)
  encode_all_iff E (cons t ps) = (
    λ (fits, all_fit).
        Succeeds-bind (encode_message E t) _ ((encode_message_iff E t).0 fits)
          (λ s. Succeeds-bind (encode_all E ps) _ ((encode_all_iff E ps).0 all_fit) (λ ss. tt)),
    λ h.
        let (first, (s, rest)) = Succeeds-first (encode_message E t) _ h in
        (
          (encode_message_iff E t).1 first,
          (encode_all_iff E ps).1 (Succeeds-first (encode_all E ps) _ rest).0,
        ),
  )

  encode_message_iff :
      (E : Enumeration) (t : MoveType) → Printable E t ↔ Succeeds (encode_message E t)
  encode_message_iff E (move_type n c) = known E n c (E.decode n) (λ kind. try_encode_iff E kind c)

-- A type has a printed form exactly if every number in it is known, every kind that wants a content
-- has that content and no other kind has one, every reference points to a type, every address has at
-- most 64 digits, all hexadecimal, the name of every kind without content has the prefix, and an unparsable type is the function.
pub encode_message-Printable :
    (E : Enumeration) (t : MoveType) → Printable E t ↔ Succeeds (encode_message E t)
encode_message-Printable E t = encode_message_iff E t
