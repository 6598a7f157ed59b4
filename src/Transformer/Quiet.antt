-- ===== src/Transformer/Quiet.antt =====
-- Transactions that no user has sent: they are converted at every table.
use aptos_etl.Prelude.{
  ℕ, ◌≡◌, ◌≢◌, refl, sym, ◌∙◌, subst, true, false, Option, none, some, List, ok, All, Yields, Any,
  >>=-Yields, Yields-mono, Yields-value,
}
use aptos_etl.Prelude.Text.{Text}
use aptos_etl.Types.Printable.{IsAddress}
use aptos_etl.Events.Listed.{IsEvent, get_events-Listed}
use aptos_etl.Events.{get_events}
use aptos_etl.Blocks.{get_block}
use aptos_etl.Blocks.Complete.{get_block-Yields}
use aptos_etl.Transaction.Messages.{TxnData}
use aptos_etl.Transaction.Messages as Messages
use aptos_etl.Transaction.Data.{
  user_request, sequence_number, max_gas_amount, gas_unit_price, sender, signature,
  expiration_timestamp_secs, payload, blockmetadata,
}
use aptos_etl.Transaction.Data as Data
use aptos_etl.Transaction.Info.{ChangesAggregate, calculate_changes_aggregate}
use aptos_etl.Transaction.{
  TransactionType, TxType, is_usertx, get_txtype, get_encoded_timestamp, convert_txtype, of_type,
}
use aptos_etl.Transaction.Kinds.{try_from-Extracted}
use aptos_etl.Transaction as Transaction
use aptos_etl.ChangeRecords.Made.{Shows}
use aptos_etl.Extract.Converting.{Converts}
use aptos_etl.Transformer.{tables}
use aptos_etl.Transformer.Changed.{changes_counted, changes_found}
use aptos_etl.Transformer.Rows.{get_transactions-Yields}
use aptos_etl.Service.{Service, protos}
use aptos_etl.Signatures.Records.{get_signatures, of_found}
use aptos_etl.Transactions.Row.{Extraction}
use aptos_etl.Transactions.Successful.{get_successful_transaction, signature_part}

module _ (s : Service) where
  -- Data without a request and without a payload; a block's proposer is an address.
  abbrev pub Quiet : TxnData (protos s) → Type 0
  Quiet (TxnData.block_metadata b) = IsAddress b.proposer
  Quiet (TxnData.validator es) = Unit
  Quiet TxnData.state_checkpoint = Unit
  Quiet TxnData.block_epilogue = Unit
  Quiet (TxnData.genesis g) = ⊥
  Quiet (TxnData.user u) = ⊥

  abbrev pub EventsRead : Option (List Messages.InputEvent) → Type 0
  EventsRead none = Unit
  EventsRead (some es) = All (IsEvent s.types s.is_json) es

  asks_nothing : (d : TxnData (protos s)) → Quiet d → user_request (protos s) d ≡ ok none
  unfolding user_request
  asks_nothing (TxnData.block_metadata b) h = refl
  asks_nothing (TxnData.validator es) h = refl
  asks_nothing TxnData.state_checkpoint h = refl
  asks_nothing TxnData.block_epilogue h = refl
  asks_nothing (TxnData.genesis g) h = elim h [ ]
  asks_nothing (TxnData.user u) h = elim h [ ]

  pays_nothing : (d : TxnData (protos s)) → Quiet d → payload (protos s) d ≡ ok none
  unfolding payload
  pays_nothing (TxnData.block_metadata b) h = refl
  pays_nothing (TxnData.validator es) h = refl
  pays_nothing TxnData.state_checkpoint h = refl
  pays_nothing TxnData.block_epilogue h = refl
  pays_nothing (TxnData.genesis g) h = elim h [ ]
  pays_nothing (TxnData.user u) h = elim h [ ]

  not_user :
      (t : TransactionType) (d : TxnData (protos s))
      → Quiet d
      → of_type (protos s) t d ≡ true
      → t ≢ TransactionType.user
  not_user TransactionType.user (TxnData.block_metadata b) q h e = cc
  not_user TransactionType.user (TxnData.validator es) q h e = cc
  not_user TransactionType.user TxnData.state_checkpoint q h e = cc
  not_user TransactionType.user TxnData.block_epilogue q h e = cc
  not_user TransactionType.user (TxnData.genesis g) q h e = elim q [ ]
  not_user TransactionType.user (TxnData.user u) q h e = elim q [ ]
  not_user TransactionType.unspecified d q h e = cc
  not_user TransactionType.genesis d q h e = cc
  not_user TransactionType.block_metadata d q h e = cc
  not_user TransactionType.state_checkpoint d q h e = cc
  not_user TransactionType.validator d q h e = cc
  not_user TransactionType.block_epilogue d q h e = cc

  counts_no_signature :
      (t : TransactionType) (k : TxType)
      → t ≢ TransactionType.user
      → convert_txtype (protos s) t ≡ ok k
      → Yields Any (signature_part s none (ok k))
  unfolding convert_txtype
  counts_no_signature TransactionType.user k other h = absurd (other refl)
  counts_no_signature TransactionType.unspecified k other h = cc
  counts_no_signature TransactionType.genesis k other h =
      subst (λ r. Yields Any (signature_part s none r)) h tt
  counts_no_signature TransactionType.block_metadata k other h =
      subst (λ r. Yields Any (signature_part s none r)) h tt
  counts_no_signature TransactionType.state_checkpoint k other h =
      subst (λ r. Yields Any (signature_part s none r)) h tt
  counts_no_signature TransactionType.validator k other h =
      subst (λ r. Yields Any (signature_part s none r)) h tt
  counts_no_signature TransactionType.block_epilogue k other h =
      subst (λ r. Yields Any (signature_part s none r)) h tt

  stranger :
      (tx : Extraction s) (t : TransactionType)
      → t ≢ TransactionType.user
      → is_usertx (protos s) (record tx { tx_type = t }) ≡ false
  stranger tx TransactionType.user other = absurd (other refl)
  stranger tx TransactionType.unspecified other = refl
  stranger tx TransactionType.genesis other = refl
  stranger tx TransactionType.block_metadata other = refl
  stranger tx TransactionType.state_checkpoint other = refl
  stranger tx TransactionType.validator other = refl
  stranger tx TransactionType.block_epilogue other = refl

  module _ (tx : Extraction s) (k : TxType) (time : Text) (changes : ChangesAggregate)
      (quiet : Quiet tx.tx_data) (other : tx.tx_type ≢ TransactionType.user)
      (of_kind : get_txtype (protos s) tx ≡ ok k)
      (timed : get_encoded_timestamp (protos s) s.chrono tx ≡ ok time)
      (counted : calculate_changes_aggregate (protos s) tx.tx_info ≡ ok changes) where
    asked : user_request (protos s) tx.tx_data ≡ ok none
    asked = asks_nothing tx.tx_data quiet

    numbered : sequence_number (protos s) tx.tx_data ≡ ok none
    unfolding sequence_number
    numbered = rw asked refl

    gas : max_gas_amount (protos s) tx.tx_data ≡ ok none
    unfolding max_gas_amount
    gas = rw asked refl

    priced : gas_unit_price (protos s) tx.tx_data ≡ ok none
    unfolding gas_unit_price
    priced = rw asked refl

    sent : sender (protos s) tx.tx_data ≡ ok none
    unfolding sender
    sent = rw (asked, sender) refl

    expires : expiration_timestamp_secs (protos s) tx.tx_data ≡ ok none
    unfolding expiration_timestamp_secs
    expires = rw asked refl

    signed : get_signatures (protos s) s.chrono tx ≡ ok none
    unfolding get_signatures signature of_found
    signed = rw asked refl

    unsigned : Yields Any (signature_part s none (ok k))
    unfolding get_txtype
    unsigned = counts_no_signature tx.tx_type k other of_kind

    successful-Yields : Yields Any (get_successful_transaction s tx none)
    unfolding get_successful_transaction
    successful-Yields =
        rw
          (
            pays_nothing tx.tx_data quiet,
            numbered,
            timed,
            of_kind,
            gas,
            sent,
            stranger tx tx.tx_type other,
            counted,
            expires,
            priced,
          )
          (>>=-Yields Any Any (signature_part s none (ok k)) _ unsigned (λ n _. tt))

    pub block_found :
        (d : TxnData (protos s))
        → tx.tx_data ≡ d
        → Quiet d
        → Yields Any (get_block (protos s) s.bytes_to_base64 s.chrono tx)
    unfolding get_block
    block_found (TxnData.block_metadata b) e fine =
        Yields-mono _ Any (get_block (protos s) s.bytes_to_base64 s.chrono tx) (λ r h. tt)
          (get_block-Yields (protos s) s.bytes_to_base64 s.chrono tx b time (rw e refl) timed fine)
    block_found (TxnData.validator es) e fine = rw e tt
    block_found TxnData.state_checkpoint e fine = rw e tt
    block_found TxnData.block_epilogue e fine = rw e tt
    block_found (TxnData.genesis g) e fine = elim fine [ ]
    block_found (TxnData.user u) e fine = elim fine [ ]

    pub events_found :
        (o : Option (List Messages.InputEvent))
        → Data.events (protos s) tx.tx_data ≡ o
        → EventsRead o
        → Yields Any (get_events (protos s) s.types s.is_json s.chrono tx)
    unfolding get_events
    events_found none e fine = rw e tt
    events_found (some es) e fine =
        Yields-mono _ Any (get_events (protos s) s.types s.is_json s.chrono tx) (λ r h. tt)
          (get_events-Listed (protos s) s.types s.is_json s.chrono tx es time none e timed numbered
            fine)

-- A transaction without a request of which the timestamp can be read, and the events and changes
-- printed.
pub record ReadableQuiet (s : Service) (m : Transaction.Transaction (protos s)) : Type 0 where
  pub tx : Extraction s
  pub time : Text
  pub extracted : Transaction.try_from (protos s) m ≡ ok tx
  pub quiet : Quiet s tx.tx_data
  pub timed : get_encoded_timestamp (protos s) s.chrono tx ≡ ok time
  pub events : EventsRead s (Data.events (protos s) tx.tx_data)
  pub changes : All (Shows s) tx.tx_info.changes

module _ (s : Service) (m : Transaction.Transaction (protos s)) (q : ReadableQuiet s m) where
  pub quiet_Converts : (capacity : ℕ) → Converts (tables s capacity) m
  quiet_Converts capacity =
      let (kept, (k, of_kind)) = try_from-Extracted (protos s) m q.tx q.extracted in
      let other : q.tx.tx_type ≢ TransactionType.user =
        λ e. not_user s m.type_of q.tx.tx_data q.quiet kept.2 (sym kept.3 ∙ e) in
      let (counts, counted) = changes_counted s m q.tx q.extracted in
      let (row, transaction_found, _) = Yields-value Any _ (
        get_transactions-Yields s q.tx none
          (successful-Yields s q.tx k q.time counts q.quiet other of_kind q.timed counted)) in
      let (block, found_block, _) = Yields-value Any _ (
        block_found s q.tx k q.time counts q.quiet other of_kind q.timed counted q.tx.tx_data refl
          q.quiet) in
      let (events, found_events, _) = Yields-value Any _ (
        events_found s q.tx k q.time counts q.quiet other of_kind q.timed counted _ refl
          q.events) in
      let (changes, found_changes) =
        changes_found s m q.tx q.extracted q.time none q.timed
          (numbered s q.tx k q.time counts q.quiet other of_kind q.timed counted) q.changes in
      record {
        extraction = q.tx;
        signatures = none;
        block = block;
        transaction = row;
        events = events;
        changes = changes;
        extracted = q.extracted;
        signatures_found = signed s q.tx k q.time counts q.quiet other of_kind q.timed counted;
        block_found = found_block;
        transaction_found = transaction_found;
        events_found = found_events;
        changes_found = found_changes;
      }
