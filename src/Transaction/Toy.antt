-- ===== src/Transaction/Toy.antt =====
-- A toy transaction, for the tests.
use aptos_etl.Prelude.{ℕ, true, none, some, [], ◌∷◌, ok, err}
use aptos_etl.Prelude.Int.{ℤ, pos}
use aptos_etl.Prelude.Text.{codes}
use aptos_etl.Timestamp.{Chrono, env_var, not_present}
use aptos_etl.Signatures.Input.{Signature}
use aptos_etl.Transaction.{TransactionType, Transaction, TransactionExtraction}
use aptos_etl.Transaction.Messages.{Protos, TxnData, ChangeType, TransactionInfo}
use aptos_etl.Transaction.Info.{TransactionInfoExtraction}

abbrev pub protos : Protos
protos = record {
  TransactionPayload = ℕ;
  WriteSet = ℕ;
  WriteSetChange = ChangeType;
  TxPayloadExtract = ℕ;
  TxPayloadError = ℕ;
  try_from_payload = λ n. ok n;
  from_write_set = λ n. n;
  IncompleteChangeRecord = ChangeType;
  ChangeError = ℕ;
  try_from_change = λ k. ok k;
  get_type = λ k. k;
}

abbrev pub calendar : Chrono
calendar = record {
  DateTime = ℤ;
  from_timestamp = λ s n. some s;
  format = λ d f. some f;
  format_variable = err (env_var not_present);
}

abbrev pub user_data : Signature → TxnData protos
user_data s = TxnData.user (record {
  request = some (record {
    sender = codes "0x1";
    sequence_number = 4;
    max_gas_amount = 100;
    gas_unit_price = 2;
    expiration_timestamp_secs = none;
    payload = none;
    signature = some s;
  });
  events = [];
})

abbrev pub info : TransactionInfo protos
info = record {
  hash = 7 ∷ [];
  state_change_hash = [];
  event_root_hash = [];
  state_checkpoint_hash = none;
  gas_used = 3;
  success = true;
  vm_status = codes "ok";
  accumulator_root_hash = [];
  changes = ChangeType.write_module ∷ ChangeType.write_resource ∷ ChangeType.write_resource ∷ [];
}

abbrev pub info_extraction : TransactionInfoExtraction protos
info_extraction = record {
  hash = record { bytes = 7 ∷ [] };
  state_change_hash = record { bytes = [] };
  event_root_hash = record { bytes = [] };
  state_checkpoint_hash = none;
  gas_used = 3;
  success = true;
  vm_status = codes "ok";
  accumulator_root_hash = record { bytes = [] };
  changes = ChangeType.write_module ∷ ChangeType.write_resource ∷ ChangeType.write_resource ∷ [];
}

abbrev pub extraction : TxnData protos → TransactionExtraction protos
extraction d = record {
  version = 12;
  epoch = 1;
  blockheight = pos 5;
  timestamp = record { seconds = pos 60; nanos = 0 };
  tx_type = TransactionType.user;
  tx_info = info_extraction;
  tx_data = d;
}

abbrev pub message : TxnData protos → Transaction protos
message d = record {
  timestamp = some (record { seconds = pos 60; nanos = pos 0 });
  version = 12;
  info = some info;
  epoch = 1;
  block_height = 5;
  type_of = TransactionType.user;
  txn_data = some d;
}
