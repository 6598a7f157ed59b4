-- ===== src/Payload/Fields.antt =====
-- The fields of a printed payload are those of its kind.
use aptos_etl.Prelude.{
  ◌≡◌, refl, sym, ap, ◌∙◌, try_map, Option, none, some, List, [], ◌++◌, Result, ok, err, panic,
  ◌>>=◌, map_err, Gives, >>=-Gives, Gives-any, subst,
}
use aptos_etl.Prelude.Text.{Text, codes}
use aptos_etl.Address.{string}
use aptos_etl.Address as Address
use aptos_etl.Modules.Functions.{ExposedFunction}
use aptos_etl.Types.{MoveType, Enumeration}
use aptos_etl.Types.Tags.{convert, encode}
use aptos_etl.Signatures.Input.{Bytes}
use aptos_etl.Modules.Messages.{MoveModuleId}
use aptos_etl.Modules.Ids.{from}
use aptos_etl.Modules.Ids as Ids
use aptos_etl.Payload.Messages.{
  TxPayloadType, TxPayloadData, TransactionPayload, EntryFunctionId, ScriptPayload,
  EntryFunctionPayload, MoveScriptBytecode, entry_function_payload, script_payload,
  write_set_payload, multisig_payload, encrypted_transaction_payload, script_write_set,
  direct_write_set,
}
use aptos_etl.Payload.{
  TxPayloadError, TxPayloadExtract, PayloadType, no_script_payload_in_write_set_payload,
  missing_writeset_data, not_write_set, entry_function, script, multisig, writeset,
  encrypted_transaction, payload_type_name, Payload, Code, encode_functionid, encode_payload_type,
  extract_writesetpayload, extract_writesetpayload_scriptpayload, type_arguments, arguments,
  entry_function_id_str, multisig_address, execute_as, code, try_encode, encode_code,
  encode_arguments, encode_abi, in_module, required_code, module_id, move_type, print_function_id,
  typed, try_from,
}

abbrev pub kind_of : TxPayloadData → PayloadType
kind_of (entry_function_payload d) = entry_function
kind_of (script_payload d) = script
kind_of (write_set_payload d) = writeset
kind_of (multisig_payload d) = multisig
kind_of encrypted_transaction_payload = encrypted_transaction

abbrev pub no_fields : Payload
no_fields = record {
  function = none;
  type_arguments = [];
  arguments = [];
  entry_function_id_str = none;
  code = none;
  multisig_address = none;
  execute_as = none;
}

-- The text of an entry function: the address and the name of its module, and its own name.
abbrev pub Named : Option EntryFunctionId → Text → Type 0
Named o text =
    (f : EntryFunctionId) × (mid : MoveModuleId) × (printed : Text) × (o ≡ some f)
    × (f.module_id ≡ some mid)
    × (Address.try_encode (string mid.address) ≡ ok printed)
    × (text ≡ printed ++ (codes "::" ++ mid.name) ++ (codes "::" ++ f.name))

module _ (E : Enumeration) (bytes_to_base64 : Bytes → Text) where
  -- The printed code of a script: its own bytes, and the function that it has.
  abbrev pub Coded : Option MoveScriptBytecode → Code → Type 0
  Coded o c =
      (b : MoveScriptBytecode) × (abi : Option ExposedFunction) × (o ≡ some b)
      × (encode_abi E bytes_to_base64 b.abi ≡ ok abi)
      × (c ≡ record { bytecode = bytes_to_base64 b.bytecode; abi = abi })

  abbrev pub HasTypes : List MoveType → List Text → Type 0
  HasTypes types texts = encode_arguments E (some types) ≡ ok (some texts)

  -- The fields of a script, with the address to execute as.
  abbrev pub Scripted : ScriptPayload → Option Text → Payload → Type 0
  Scripted s execute_as p =
      (c : Code) × (types : List Text) × Coded s.code c
      × HasTypes s.type_arguments types
      × (p ≡ record no_fields {
        type_arguments = types;
        arguments = s.arguments;
        code = some c;
        execute_as = execute_as;
      })

  abbrev pub Entered : EntryFunctionPayload → Payload → Type 0
  Entered d p =
      (text : Text) × (types : List Text) × Named d.function text
      × HasTypes d.type_arguments types
      × (p ≡ record no_fields {
        function = some text;
        type_arguments = types;
        arguments = d.arguments;
        entry_function_id_str = some d.entry_function_id_str;
      })

  -- How a payload is printed, by its kind: which fields have a value, and which value; or which error
  -- there is in any case.
  abbrev pub Prints : TxPayloadData → Result TxPayloadError Payload → Type 0
  Prints (entry_function_payload d) m = Gives (Entered d) m
  Prints (script_payload d) m = Gives (Scripted d none) m
  Prints (write_set_payload (some (some (script_write_set w)))) m =
      Gives (λ p. (s : ScriptPayload) × (w.script ≡ some s) × Scripted s (some w.execute_as) p) m
  Prints (write_set_payload (some (some direct_write_set))) m =
      m ≡ err no_script_payload_in_write_set_payload
  Prints (write_set_payload (some none)) m = m ≡ err missing_writeset_data
  Prints (write_set_payload none) m = m ≡ err not_write_set
  Prints (multisig_payload a) m = m ≡ ok (record no_fields { multisig_address = some a })
  Prints encrypted_transaction_payload m = m ≡ ok no_fields

-- What is extracted of a payload that is accepted.
abbrev extract_of : TxPayloadType → TxPayloadData → TxPayloadExtract
extract_of k d = record { payload_type = some k; payload_data = some d; genesis_payload = none }

abbrev Accepted : TxPayloadType → Option TxPayloadData → TxPayloadExtract → Type 0
Accepted k o x =
    (d : TxPayloadData) × (o ≡ some d)
    × (x ≡ extract_of k d)
    × (encode_payload_type x ≡ ok (payload_type_name (kind_of d)))

typed-Accepted : (k : TxPayloadType) (o : Option TxPayloadData) → Gives (Accepted k o) (typed k o)
unfolding encode_payload_type
typed-Accepted TxPayloadType.unspecified o = tt
typed-Accepted TxPayloadType.entry_function_payload (some (entry_function_payload d)) =
    (_, refl, refl, refl)
typed-Accepted TxPayloadType.multisig_payload (some (multisig_payload d)) = (_, refl, refl, refl)
typed-Accepted TxPayloadType.script_payload (some (script_payload d)) = (_, refl, refl, refl)
typed-Accepted TxPayloadType.write_set_payload (some (write_set_payload d)) = (_, refl, refl, refl)
typed-Accepted TxPayloadType.encrypted_transaction_payload (some encrypted_transaction_payload) =
    (_, refl, refl, refl)
typed-Accepted k none = tt
typed-Accepted k (some d) = tt

module _ (E : Enumeration) (bytes_to_base64 : Bytes → Text) where
  abbrev HasName : Option EntryFunctionId → Option Text → Type 0
  HasName o found = (text : Text) × (found ≡ some text) × Named o text

  functionid-Named : (o : Option EntryFunctionId) → Gives (HasName o) (print_function_id o)
  unfolding Ids.try_encode
  functionid-Named none = tt
  functionid-Named (some f) = printed f.module_id refl
    where
      with_address :
          (mid : MoveModuleId)
          → f.module_id ≡ some mid
          → (a : Result Address.AddressError Text) → Address.try_encode (string mid.address) ≡ a
          → Gives (HasName (some f)) (
              (map_err module_id
                (map_err Ids.address a >>= λ t. ok (t ++ (codes "::" ++ mid.name))))
              >>= λ t. ok (some (t ++ (codes "::" ++ f.name))))
      with_address mid has (ok t) h = (_, refl, (f, mid, t, refl, has, h, refl))
      with_address mid has (err e) h = tt
      with_address mid has panic h = tt

      printed :
          (m : Option MoveModuleId)
          → f.module_id ≡ m
          → Gives (HasName (some f)) (in_module f.name m)
      printed none has = tt
      printed (some mid) has = with_address mid has (Address.try_encode (string mid.address)) refl

  Gives-self : {A : Type 0} (m : Result TxPayloadError A) → Gives (λ a. m ≡ ok a) m
  Gives-self (ok a) = refl
  Gives-self (err e) = tt
  Gives-self panic = tt

  abbrev HasCode : Option MoveScriptBytecode → Option Code → Type 0
  HasCode o found = (c : Code) × (found ≡ some c) × Coded E bytes_to_base64 o c

  code-Coded :
      (o : Option MoveScriptBytecode)
      → Gives (HasCode o) (required_code o >>= encode_code E bytes_to_base64)
  code-Coded none = tt
  code-Coded (some b) =
      >>=-Gives (λ abi. encode_abi E bytes_to_base64 b.abi ≡ ok abi) (HasCode (some b))
        (encode_abi E bytes_to_base64 b.abi) _ (Gives-self (encode_abi E bytes_to_base64 b.abi))
        (λ abi h. (_, refl, (b, abi, refl, h, refl)))

  abbrev Typed : List MoveType → Option (List Text) → Type 0
  Typed types o = (texts : List Text) × (o ≡ some texts) × HasTypes E bytes_to_base64 types texts

  types-some :
      (types : List MoveType)
      → Gives (λ o. (texts : List Text) × (o ≡ some texts)) (encode_arguments E (some types))
  types-some types =
      >>=-Gives (λ _. Unit {0}) _ (map_err move_type (try_map (convert E) types)) _ (Gives-any _)
        (λ movetypes _.
          >>=-Gives (λ _. Unit {0}) _ (map_err move_type (try_map (encode E) movetypes)) _
            (Gives-any _) (λ texts _. (texts, refl)))

  -- The type arguments that are there are printed.
  types-Typed : (types : List MoveType) → Gives (Typed types) (encode_arguments E (some types))
  types-Typed types = both (encode_arguments E (some types)) refl (types-some types)
    where
      both :
          (m : Result TxPayloadError (Option (List Text)))
          → encode_arguments E (some types) ≡ m
          → Gives (λ o. (texts : List Text) × (o ≡ some texts)) m
          → Gives (Typed types) m
      both (ok o) h (texts, e) = (texts, e, h ∙ ap ok e)
      both (err e) h given = tt
      both panic h given = tt

  entry-Prints :
      (k : TxPayloadType) (d : EntryFunctionPayload)
      → Prints E bytes_to_base64
          (entry_function_payload d)
          (try_encode E bytes_to_base64 (extract_of k (entry_function_payload d)))
  unfolding try_encode encode_functionid type_arguments arguments code execute_as
      entry_function_id_str multisig_address
  entry-Prints k d =
      >>=-Gives (HasName d.function) (Entered E bytes_to_base64 d) _ _ (functionid-Named d.function)
        (λ o (text, found, name).
          >>=-Gives (Typed d.type_arguments) (Entered E bytes_to_base64 d)
            (encode_arguments E (some d.type_arguments)) _ (types-Typed d.type_arguments)
            (λ o' (types, found', has). rw (found, found') (text, types, name, has, refl)))

  script-Prints :
      (k : TxPayloadType) (d : ScriptPayload)
      → Prints E bytes_to_base64
          (script_payload d)
          (try_encode E bytes_to_base64 (extract_of k (script_payload d)))
  unfolding try_encode encode_functionid type_arguments arguments code execute_as
      entry_function_id_str multisig_address
  script-Prints k d =
      >>=-Gives (Typed d.type_arguments) (Scripted E bytes_to_base64 d none)
        (encode_arguments E (some d.type_arguments)) _ (types-Typed d.type_arguments)
        (λ o' (types, found', has).
          >>=-Gives (HasCode d.code) (Scripted E bytes_to_base64 d none) _ _ (code-Coded d.code)
            (λ o (c, found, is). rw (found, found') (c, types, is, has, refl)))

  -- A write set with a script, of which the two fields are given.
  writeset-Prints :
      (k : TxPayloadType) (t : Text) (o : Option ScriptPayload)
      → let w : TxPayloadData =
          write_set_payload
            (some (some (script_write_set (record { execute_as = t; script = o })))) in
        Prints E bytes_to_base64 w (try_encode E bytes_to_base64 (extract_of k w))
  unfolding try_encode encode_functionid type_arguments arguments code execute_as
      entry_function_id_str multisig_address extract_writesetpayload
      extract_writesetpayload_scriptpayload
  writeset-Prints k t none = tt
  writeset-Prints k t (some s) =
      >>=-Gives (Typed s.type_arguments) _ (encode_arguments E (some s.type_arguments)) _
        (types-Typed s.type_arguments)
        (λ o' (types, found', has).
          >>=-Gives (HasCode s.code) _ _ _ (code-Coded s.code)
            (λ o (c, found, is). (s, refl, rw (found, found') (c, types, is, has, refl))))

  try_encode-Prints :
      (k : TxPayloadType) (d : TxPayloadData)
      → Prints E bytes_to_base64 d (try_encode E bytes_to_base64 (extract_of k d))
  unfolding try_encode encode_functionid type_arguments arguments code execute_as
      entry_function_id_str multisig_address extract_writesetpayload
      extract_writesetpayload_scriptpayload
  try_encode-Prints k (entry_function_payload d) = entry-Prints k d
  try_encode-Prints k (script_payload d) = script-Prints k d
  try_encode-Prints k (write_set_payload (some (some (script_write_set w)))) =
      writeset-Prints k w.execute_as w.script
  try_encode-Prints k (write_set_payload (some (some direct_write_set))) = refl
  try_encode-Prints k (write_set_payload (some none)) = refl
  try_encode-Prints k (write_set_payload none) = refl
  try_encode-Prints k (multisig_payload a) = refl
  try_encode-Prints k encrypted_transaction_payload = refl

  pub try_from-Prints :
      (v : TransactionPayload) (x : TxPayloadExtract)
      → try_from v ≡ ok x
      → (d : TxPayloadData) × (v.payload ≡ some d)
        × (encode_payload_type x ≡ ok (payload_type_name (kind_of d)))
        × Prints E bytes_to_base64 d (try_encode E bytes_to_base64 x)
  unfolding try_from
  try_from-Prints v x h =
      let (d, has, is, named) =
        subst (Gives (Accepted v.type_of v.payload)) h (typed-Accepted v.type_of v.payload) in
      (
        d,
        has,
        named,
        subst (λ y. Prints E bytes_to_base64 d (try_encode E bytes_to_base64 y)) (sym is)
            (try_encode-Prints v.type_of d),
      )
