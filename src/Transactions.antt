-- ===== src/Transactions.antt =====
-- The table of transactions: processing/tables/transactions.rs.
pub mod Row
pub mod Successful
pub mod Failed
pub mod Agree
mod Tests
use aptos_etl.Prelude.{ℕ, Option, Result, if◌then◌else◌}
use aptos_etl.Service.{Service, protos}
use Row.{Transaction, TxError, Extraction}
use Successful.{get_successful_transaction}
use Failed.{get_failed_transaction}

module _ (s : Service) where
  unfoldable pub get_transactions : Extraction s → Option ℕ → Result (TxError s) Transaction
  get_transactions tx sig_cnt =
      if tx.tx_info.success
      then get_successful_transaction s tx sig_cnt
      else get_failed_transaction s tx sig_cnt
