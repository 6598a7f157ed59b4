-- ===== src/Events/Tests.antt =====
-- The rows of a transaction with two events.
use aptos_etl.Prelude.{ℕ, ◌≡◌, refl, Bool, true, none, some, List, [], ◌∷◌, All, Yields, arith}
use aptos_etl.Prelude.Text.{Text, codes}
use aptos_etl.Address as Address
use aptos_etl.Timestamp as Timestamp
use aptos_etl.Types.{move_type, absent, Enumeration, other}
use aptos_etl.Transaction.Messages.{InputEvent, TxnData}
use aptos_etl.Transaction.Data as Data
use aptos_etl.Transaction.{TransactionExtraction, get_encoded_timestamp}
use aptos_etl.Transaction.Toy as Toy
use aptos_etl.Events.{Event, get_events}
use aptos_etl.Events.Listed.{IsEvent, Listed, RowFrom, get_events-Listed}

abbrev numbers : Enumeration
numbers = record { decode = λ n. some (other n); as_str_name = λ k. codes "MOVE_TYPES_U64" }

abbrev event : ℕ → InputEvent
event n = record {
  key = some (record { creation_number = n; account_address = codes "0xAb" });
  sequence_number = n;
  type_of = some (move_type 3 absent);
  type_str = codes "u64";
  contents = codes "1";
}

abbrev two_events : List InputEvent
two_events = event 5 ∷ event 6 ∷ []

abbrev data_of : TxnData Toy.protos
data_of = TxnData.user (record {
  request = some (record {
    sender = codes "0x1";
    sequence_number = 4;
    max_gas_amount = 100;
    gas_unit_price = 2;
    expiration_timestamp_secs = none;
    payload = none;
    signature = none;
  });
  events = two_events;
})

abbrev tx : TransactionExtraction Toy.protos
tx = Toy.extraction data_of

abbrev any_json : Text → Bool
any_json s = true

event-IsEvent : (n : ℕ) → IsEvent numbers any_json (event n)
unfolding Address.strip_prefix
event-IsEvent n = ((_, refl, (refl, omega arith)), (3, absent, other 3, refl, refl), refl)

get_events-Listed_example :
    Yields
      (λ found.
        (rs : List Event) × (found ≡ some rs)
        × Listed 0 two_events rs
        × All (RowFrom Toy.protos tx Timestamp.timestamp_format_default (some 4)) rs)
      (get_events Toy.protos numbers any_json Toy.calendar tx)
unfolding Data.events get_encoded_timestamp Data.sequence_number Data.user_request
    Timestamp.try_encode Timestamp.get_timestamp_format
get_events-Listed_example =
    get_events-Listed Toy.protos numbers any_json Toy.calendar tx two_events
      Timestamp.timestamp_format_default (some 4) refl refl refl
      (event-IsEvent 5, (event-IsEvent 6, tt))
