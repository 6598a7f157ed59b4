-- ===== src/Service/Toy.antt =====
-- A toy service and messages of it, for the tests.
use aptos_etl.Prelude.{true, none, some, List, [], ◌∷◌}
use aptos_etl.Prelude.Int.{pos}
use aptos_etl.Prelude.Text.{codes, hex_encode}
use aptos_etl.Types.{Enumeration, other}
use aptos_etl.Address as Address
use aptos_etl.Changes as Changes
use aptos_etl.Changes.Messages.{
  WriteSetChange, write_resource, write_table_item, delete_module, delete_resource,
}
use aptos_etl.Transaction.Messages.{TxnData, ChangeType, TransactionInfo}
use aptos_etl.Transaction.{TransactionType, Transaction, TransactionExtraction}
use aptos_etl.Transaction.Toy as Toy
use aptos_etl.Service.{Service, protos}

abbrev pub numbers : Enumeration
numbers = record { decode = λ n. some (other n); as_str_name = λ k. codes "MOVE_TYPES_U64" }

abbrev pub service : Service
service = record {
  types = numbers;
  ability_name = λ a. codes "MOVE_ABILITY_KEY";
  is_json = λ s. true;
  bytes_to_base64 = hex_encode;
  chrono = Toy.calendar;
}

abbrev pub resource_written : WriteSetChange
resource_written = record {
  type_of = ChangeType.write_resource;
  change = some (
      write_resource (record {
        address = codes "0x1";
        state_key_hash = 1 ∷ [];
        type_of = none;
        type_str = codes "0x1::coin::Coin";
        contents = codes "1";
      }));
}

abbrev pub item_written : WriteSetChange
item_written = record {
  type_of = ChangeType.write_table_item;
  change = some (
      write_table_item (record {
        state_key_hash = 2 ∷ [];
        handle = codes "0xAb";
        table_data = some (record {
          key = codes "k";
          key_type = codes "u64";
          value = codes "v";
          value_type = codes "u64";
        });
      }));
}

abbrev pub module_deleted : WriteSetChange
module_deleted = record {
  type_of = ChangeType.delete_module;
  change = some (
      delete_module (record {
        address = codes "0x1";
        state_key_hash = 3 ∷ [];
        module_id = some (record { address = codes "0x1"; name = codes "coin" });
      }));
}

-- The type of the change and its content do not agree.
abbrev pub mismatched : WriteSetChange
mismatched = record {
  type_of = ChangeType.write_module;
  change = some (
      delete_resource
        (record { address = codes "0x1"; state_key_hash = 4 ∷ []; type_of = none; type_str = [] }));
}

abbrev pub user_data : TxnData (protos service)
user_data = TxnData.user (record {
  request = some (record {
    sender = codes "0x1";
    sequence_number = 4;
    max_gas_amount = 100;
    gas_unit_price = 2;
    expiration_timestamp_secs = none;
    payload = none;
    signature = none;
  });
  events = [];
})

abbrev pub info : List WriteSetChange → TransactionInfo (protos service)
info changes = record {
  hash = 7 ∷ [];
  state_change_hash = [];
  event_root_hash = [];
  state_checkpoint_hash = none;
  gas_used = 3;
  success = true;
  vm_status = codes "ok";
  accumulator_root_hash = [];
  changes = changes;
}

abbrev pub message : List WriteSetChange → Transaction (protos service)
message changes = record {
  timestamp = some (record { seconds = pos 60; nanos = pos 0 });
  version = 12;
  info = some (info changes);
  epoch = 1;
  block_height = 5;
  type_of = TransactionType.user;
  txn_data = some user_data;
}

abbrev pub extracted_changes : List Changes.IncompleteChangeRecord
extracted_changes =
    Changes.resource (record {
      change_type = ChangeType.write_resource;
      address = Address.string (codes "0x1");
      state_key_hash = record { bytes = 1 ∷ [] };
      struct_tag = none;
      type_str = codes "0x1::coin::Coin";
      contents = some (codes "1");
    })
    ∷ Changes.table_item (record {
      change_type = ChangeType.write_table_item;
      state_key_hash = record { bytes = 2 ∷ [] };
      handle = Address.string (codes "0xAb");
      key = record { name = codes "k"; type_of = codes "u64" };
      value = some (record { content = codes "v"; type_of = codes "u64" });
    })
    ∷ Changes.module_record (record {
      change_type = ChangeType.delete_module;
      address = Address.string (codes "0x1");
      state_key_hash = record { bytes = 3 ∷ [] };
      module_id = some (record { address = Address.string (codes "0x1"); name = codes "coin" });
      module_data = none;
    })
    ∷ []

abbrev pub tx : TransactionExtraction (protos service)
tx = record {
  version = 12;
  epoch = 1;
  blockheight = pos 5;
  timestamp = record { seconds = pos 60; nanos = 0 };
  tx_type = TransactionType.user;
  tx_info = record {
    hash = record { bytes = 7 ∷ [] };
    state_change_hash = record { bytes = [] };
    event_root_hash = record { bytes = [] };
    state_checkpoint_hash = none;
    gas_used = 3;
    success = true;
    vm_status = codes "ok";
    accumulator_root_hash = record { bytes = [] };
    changes = extracted_changes;
  };
  tx_data = user_data;
}
