-- ===== src/Events/Listed.antt =====
-- The rows of a transaction's events.
use aptos_etl.Prelude.{
  ℕ, suc, ◌≡◌, refl, sym, ap, subst, Bool, true, Option, none, some, ◌<◌, ◌≤◌, ◌^◌, arith, List, [],
  ◌∷◌, ok, map_err, All, Yields, >>=-Yields, Yields-map_err, ok-Yields,
}
use aptos_etl.Prelude.Text.{Text, to_string}
use aptos_etl.Address.{Address, string, try_encode, try_fix_string}
use aptos_etl.Timestamp.{Chrono}
use aptos_etl.Types.{MoveType, move_type, MoveTypes, Content, Enumeration}
use aptos_etl.Types.Printable.{IsAddress, accepted-ok}
use aptos_etl.Transaction.Messages.{Protos, InputEvent, EventKey}
use aptos_etl.Transaction.Data.{sequence_number}
use aptos_etl.Transaction.Data as Data
use aptos_etl.Transaction.{TransactionExtraction, get_encoded_timestamp}
use aptos_etl.Events.{
  event_key, event_type, json_or_panic, of_events, json_try_from, EventExtraction, Event, try_from,
  small_number, number_text, event_extraction, tx_data_extract, address_error, timestamp, get_event,
  records_from, get_events,
}

-- What an event needs to become a row: a key with an address, a type of a known number, JSON.
abbrev pub IsEvent : Enumeration → (Text → Bool) → InputEvent → Type 0
IsEvent E is_json e =
    ((k : EventKey) × (e.key ≡ some k) × IsAddress k.account_address)
    × ((n : ℕ) × (c : Content) × (kind : MoveTypes) × (e.type_of ≡ some (move_type n c))
        × (E.decode n ≡ some kind))
    × (is_json e.contents ≡ true)

-- The row of an event: its place, and what it says, the address in its standard form.
abbrev pub RowOf : ℕ → InputEvent → Event → Type 0
RowOf index e r =
    (r.event_index ≡ index)
    × ((k : EventKey) × (e.key ≡ some k)
        × (r.creation_num ≡ k.creation_number)
        × (try_fix_string k.account_address ≡ ok r.address))
    × (r.sequence_number ≡ e.sequence_number)
    × (r.event_type ≡ e.type_str)
    × (r.contents ≡ e.contents)

-- One row for each event, in order, numbered from an index on.
abbrev pub Listed : ℕ → List InputEvent → List Event → Type 0
Listed index [] [] = Unit
Listed index (e ∷ es) (r ∷ rs) = RowOf index e r × Listed (suc index) es rs
Listed index [] (r ∷ rs) = ⊥
Listed index (e ∷ es) [] = ⊥

-- A sequence number as a row has it: as a number if it is less than 2 ^ 63, and as a text.
abbrev pub Numbered : Option ℕ → Option ℕ → Option Text → Type 0
Numbered none small big = (small ≡ none) × (big ≡ none)
Numbered (some n) small big =
    (n < 2 ^ 63 → small ≡ some n) × (2 ^ 63 ≤ n → small ≡ none) × (big ≡ some (to_string n))

number-Numbered : (o : Option ℕ) → Numbered o (small_number o) (number_text o)
number-Numbered none = (refl, refl)
number-Numbered (some n) = (λ h. ground (arith, h), λ h. ground (arith, h), refl)

-- What a row says of its transaction.
abbrev pub RowFrom : (p : Protos) → TransactionExtraction p → Text → Option ℕ → Event → Type 0
RowFrom p tx time number r =
    (r.tx_version ≡ tx.version)
    × (r.block_height ≡ tx.blockheight)
    × (r.block_timestamp ≡ time)
    × Numbered number r.tx_sequence_number r.tx_sequence_number_big

abbrev Extracts : InputEvent → EventKey → EventExtraction → Type 0
Extracts e k x =
    (x.address ≡ string k.account_address)
    × (x.creation_number ≡ k.creation_number)
    × (x.sequence_number ≡ e.sequence_number)
    × (x.type_str ≡ e.type_str)
    × (x.contents ≡ e.contents)

event_type-Yields :
    (E : Enumeration) (t : Option MoveType) (n : ℕ) (c : Content) (kind : MoveTypes)
    → t ≡ some (move_type n c)
    → E.decode n ≡ some kind
    → Yields (λ _. Unit {0}) (event_type E t)
event_type-Yields E t n c kind e known = rw (e, known) tt

try_from-Yields :
    (E : Enumeration) (is_json : Text → Bool) (e : InputEvent) (valid : IsEvent E is_json e)
    → Yields (Extracts e valid.0.0) (try_from E is_json e)
unfolding try_from json_try_from
try_from-Yields E is_json e ((k, at, fine), (n, c, kind, typed, known), json) =
    >>=-Yields (λ k'. k' ≡ k) (Extracts e k) (event_key e.key) _ (rw at refl)
      (λ k' same.
        >>=-Yields (λ _. Unit {0}) (Extracts e k) (event_type E e.type_of) _
          (event_type-Yields E e.type_of n c kind typed known)
          (λ m _.
            >>=-Yields (λ s. s ≡ e.contents) (Extracts e k)
              (json_or_panic (json_try_from is_json e.contents)) _
              (let valid_json : json_try_from is_json e.contents ≡ ok e.contents = rw json refl in
                ok-Yields (λ s. s ≡ e.contents) (json_or_panic (json_try_from is_json e.contents))
                  (ap json_or_panic valid_json) refl)
              (λ s is. (
                ap (λ l. string l.account_address) same,
                ap (λ l. l.creation_number) same,
                refl,
                refl,
                is,
              ))))

try_encode-Yields :
    (a : Address) (s : Text)
    → a ≡ string s
    → IsAddress s
    → Yields (λ printed. try_fix_string s ≡ ok printed) (try_encode a)
unfolding try_encode
try_encode-Yields a s at fine = rw (at, accepted-ok s fine) refl

module _ (p : Protos) (E : Enumeration) (is_json : Text → Bool) where
  get_event-Yields :
      (tx : TransactionExtraction p) (time : Text) (number : Option ℕ) (index : ℕ) (e : InputEvent)
      → sequence_number p tx.tx_data ≡ ok number
      → IsEvent E is_json e
      → Yields
          (λ r. RowOf index e r × RowFrom p tx time number r)
          (get_event p E is_json tx time index e)
  unfolding get_event
  get_event-Yields tx time number index e numbered valid =
      let row : Event → Type 0 = λ r. RowOf index e r × RowFrom p tx time number r in
      let k = valid.0.0 in
      >>=-Yields (Extracts e k) row (map_err event_extraction (try_from E is_json e)) _
        (Yields-map_err (Extracts e k) _ (try_from E is_json e) (try_from-Yields E is_json e valid))
        (λ x (at, num, seq, ty, con).
          >>=-Yields (λ n. n ≡ number) row (map_err tx_data_extract (sequence_number p tx.tx_data))
            _
            (Yields-map_err (λ n. n ≡ number) _ (sequence_number p tx.tx_data)
              (ok-Yields (λ n. n ≡ number) (sequence_number p tx.tx_data) numbered refl))
            (λ n same.
              >>=-Yields (λ s. try_fix_string k.account_address ≡ ok s) row
                (map_err address_error (try_encode x.address)) _
                (Yields-map_err (λ s. try_fix_string k.account_address ≡ ok s) _
                  (try_encode x.address)
                  (try_encode-Yields x.address k.account_address at valid.0.2))
                (λ s fixed. (
                  (refl, (k, valid.0.1, num, fixed), seq, ty, con),
                  (
                    refl,
                    refl,
                    refl,
                    subst (λ o. Numbered o (small_number n) (number_text n)) same
                        (number-Numbered n),
                  ),
                ))))

  records_from-Yields :
      (tx : TransactionExtraction p) (time : Text) (number : Option ℕ) (index : ℕ)
      (es : List InputEvent)
      → sequence_number p tx.tx_data ≡ ok number
      → All (IsEvent E is_json) es
      → Yields
          (λ rs. Listed index es rs × All (RowFrom p tx time number) rs)
          (records_from p E is_json tx time index es)
  unfolding records_from
  records_from-Yields tx time number index [] numbered valid = (tt, tt)
  records_from-Yields tx time number index (e ∷ es) numbered (valid, rest) =
      >>=-Yields (λ r. RowOf index e r × RowFrom p tx time number r)
        (λ rs. Listed index (e ∷ es) rs × All (RowFrom p tx time number) rs)
        (get_event p E is_json tx time index e) _
        (get_event-Yields tx time number index e numbered valid)
        (λ r (row, from).
          >>=-Yields (λ rs. Listed (suc index) es rs × All (RowFrom p tx time number) rs)
            (λ rs. Listed index (e ∷ es) rs × All (RowFrom p tx time number) rs)
            (records_from p E is_json tx time (suc index) es) _
            (records_from-Yields tx time number (suc index) es numbered rest)
            (λ rs (rows, all_from). ((row, rows), (from, all_from))))

  -- A transaction of which the timestamp and the sequence number can be read, and of which each event
  -- has a key with an address, a type of a known number and JSON data, has a row for each event, in
  -- order and numbered from 0. A row has the event's key, its address in the standard form, its number,
  -- type and data, and the version, height, timestamp and sequence number of the transaction. The
  -- sequence number, if there is one, is there as a text, and as a number if it is less than 2 ^ 63.
  pub get_events-Listed :
      (c : Chrono) (tx : TransactionExtraction p) (es : List InputEvent) (time : Text)
      (number : Option ℕ)
      → Data.events p tx.tx_data ≡ some es
      → get_encoded_timestamp p c tx ≡ ok time
      → sequence_number p tx.tx_data ≡ ok number
      → All (IsEvent E is_json) es
      → Yields
          (λ found.
            (rs : List Event) × (found ≡ some rs)
            × Listed 0 es rs
            × All (RowFrom p tx time number) rs)
          (get_events p E is_json c tx)
  unfolding get_events
  get_events-Listed c tx es time number has timed numbered valid =
      let found : Option (List Event) → Type 0 = λ o.
        (rs : List Event) × (o ≡ some rs) × Listed 0 es rs × All (RowFrom p tx time number) rs in
      let listed : List Event → Type 0 = λ rs. Listed 0 es rs × All (RowFrom p tx time number) rs in
      let rows_of : Yields listed (records_from p E is_json tx time 0 es) =
        records_from-Yields tx time number 0 es numbered valid in
      subst (λ o. Yields found (of_events p E is_json c tx o)) (sym has)
        (>>=-Yields (λ s. s ≡ time) found (map_err timestamp (get_encoded_timestamp p c tx)) _
          (Yields-map_err (λ s. s ≡ time) _ (get_encoded_timestamp p c tx)
            (ok-Yields (λ s. s ≡ time) (get_encoded_timestamp p c tx) timed refl))
          (λ s same.
            >>=-Yields listed found (records_from p E is_json tx s 0 es) _
              (subst (λ l. Yields listed (records_from p E is_json tx l 0 es)) (sym same) rows_of)
              (λ rs (rows, all_from). (rs, refl, rows, all_from))))
