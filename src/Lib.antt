-- ===== src/Lib.antt =====
-- The extractor and transformer of the Aptos ETL, extractor_transformer/src: it takes ranges of
-- transaction versions from a subscription, streams the transactions from a gRPC service, turns
-- each into records of several tables, and publishes the records of each table.
--
-- How the parts interact: the subscription loop pulls a message, decodes the range in it, and calls
-- the extraction; the extraction connects to the service, converts each transaction it receives,
-- collects the rows of every table that is asked for, and publishes them when the range is
-- complete; a publisher sends them on, here to a bucket or to a topic. The message is acked or
-- nacked by the extraction's result. Addresses, hashes, timestamps and deferred values are what the
-- conversions are made of.
--
-- * Extract models `extract_range` of aptos_config/mod.rs. Its state, the vectors of records and
--   of timestamps, is Extract.Collect; the loops over the responses and over the transactions are
--   Extract.Loop; what is published is Extract.Publish, and Extract.Sent says, table by table, what
--   the publishers are sent. The conversions of one transaction, `TransactionExtraction::try_from`
--   and the functions of processing/tables, are the record Extract.Interface.Tables. A stream is the
--   list of the answers that `pull_from_stream` gives, and `get_stream` is a function from the range
--   to such a list or an error. It stands in the record Extract.Server, with the batches that the
--   publishers take: a publisher panics on one that it does not take, and what it may have sent of
--   that batch is left out.
-- * Subscribe models `subscribe_and_extract` of aptos_config/mod.rs, as a function of the rounds
--   of its loop: the flag that the signal handler sets, what the queue returns, and the service at
--   that time. `IndexingRange::decode` is generated code and a parameter.
-- * Json models the serialisation of events and of resources to JSON and back, in
--   processing/reps/events.rs and changes.rs, with json.rs: Json.Events and Json.Resources. What
--   `serde` and `serde_json` give is the record Json.Serde, and that they read what they write is
--   Json.IsLawful.
-- * Stored models `extract_txs`, `transform_txs`, `publish_record_struct` and `create_test_data`
--   of aptos_config/mod.rs, Stored.Files its saving and loading of files, and Stored.Sent what the
--   publishers are sent of a transaction's records. Whether the program is built with the feature
--   PUBLISH_WITH_NAME is the type Stored.Build, and the record Stored.Publishers has it with the
--   batches that are taken. The files are a list of paths and bytes; the answers of the operating
--   system are the record Stored.Files.Answers, the encoders of `prost` the record
--   Stored.Files.Codec.
-- * Stream models `get_stream` and `get_stream_response` of aptos_config/grpc/stream.rs. The
--   variables of grpc/environment.rs are a record, and the crate's function that asks for a stream
--   is a parameter, with the death of its task as an outcome; Stream.Fallback says when the fallback
--   is asked.
-- * Versions models `extract` of aptos_config/mod.rs.
-- * Gcs models `publish_batch` of output/gcs.rs, with the bucket's answers in the order of the
--   attempts. The calendar of `chrono` and the draws of `rand` are the record Gcs.Crates. Gcs.Single
--   has the connection and the publication of a single record.
-- * PubSub models `publish_batch` of output/google_pubsub.rs, with the service's results in the
--   order in which they are read; PubSub.Single has the connection and the publication of a single
--   message.
-- * Signatures models processing/reps/signatures.rs, sigvalue.rs and publickey.rs, and
--   processing/tables/signatures.rs (Signatures.Records). Signatures.Input has the messages of the
--   service that these read; Signatures.Roles has the signatures of several accounts.
-- * Transaction models processing/reps/transaction: tx.rs in Transaction itself, tx_data.rs in
--   Transaction.Data, tx_info.rs in Transaction.Info. What payloads and changes hold is the record
--   Transaction.Messages.Protos, which Service.protos fills.
-- * Types models processing/reps/movetype.rs and structtag.rs: the messages that describe a type
--   and their printed forms. The numbers and names of the service's enumeration of types are the
--   record Types.Enumeration. Types.Tags has the structs of a converted type and of a struct tag,
--   which keep their messages until they are printed.
-- * Events models processing/tables/events.rs with the extraction of an event of
--   processing/reps/events.rs; the parser of `serde_json` is a test on texts.
-- * Blocks models processing/tables/blocks.rs, with the encoder of `base64` as a parameter.
-- * Modules models processing/reps/module.rs, with moduleid.rs in Modules.Ids, function.rs and
--   visibility.rs in Modules.Functions, mvstruct.rs in Modules.Structs, and abilties.rs and
--   generictypeparam.rs in Modules.Abilities.
-- * Payload, with Payload.Parts, models processing/reps/payload.rs, and Changes
--   processing/reps/changes.rs, each with the service's messages in a module of its own.
-- * ChangeRecords, with ChangeRecords.Rows, models processing/tables/changes.rs. The relation
--   ChangeRecords.Made says which rows the changes of a transaction have.
-- * Transactions models processing/tables/transactions.rs: Transactions.Successful and
--   Transactions.Failed have the two kinds of rows, Transactions.Row what they share.
-- * Records models processing/tables/all.rs, over the interface of the extraction.
-- * Service is the record of what the program uses of other crates and of the generated code.
--   Transformer fills the interface Extract.Interface.Tables with the conversions of all tables. Its
--   modules follow a user's transaction (Transformer.Users) and one without a request
--   (Transformer.Quiet) through all of them, and Transformer.Range through a range.
-- * Resume models `pick_up_from_previous_range` of main.rs, which has no caller at this commit:
--   Resume.Forward and Resume.Backward have its two directions. The directory is the list of its
--   file names.
-- * Options models processing/tables/options.rs and the messages of proto_src/pubsub_range.proto.
-- * Address, HashValue and Timestamp model processing/reps/address.rs, hashval.rs and
--   timestamp.rs; Timestamp.Chrono stands for the calendar of `chrono`, which panics on a format
--   that is not valid, and the variable that `dotenvy` reads. Deferred models
--   processing/deferred.rs.
-- * Prelude has the shared names: results with one more outcome for a panic, lists and texts over
--   the native numbers, 64-bit integers.
--
-- Bounds and fuel: the ten attempts of `try_fix_string` are its own loop bound, with the panic
-- behind the loop as an outcome. Decimal numbers are written with twenty digits, which a u64 does
-- not exceed. The chunks of a batch are cut with the number of its messages as fuel, which is
-- enough as each chunk has a message. All other loops are recursion on the list that they consume:
-- the answers of the service, of the queue or of the bucket, so a loop that would wait for ever is
-- one that still runs when the answers end. A number of versions is the difference of two u64 with
-- its wrap-around.
--
-- Not modelled: the texts of errors and logs, the command line and the list of blocks of main.rs,
-- the clients of the services, the reading of the environment, the other publishers of output, and
-- the code that is generated from the protobuf files. Of the serialisation to JSON, the derived one
-- of the other records is generated, and the reading of any JSON value as its text, in json.rs, has
-- no caller.
pub mod Prelude
pub mod Address
pub mod HashValue
pub mod Json
pub mod Deferred
pub mod Timestamp
pub mod Options
pub mod Blocks
pub mod Events
pub mod Extract
pub mod Records
pub mod Resume
pub mod Stored
pub mod Stream
pub mod Subscribe
pub mod Versions
pub mod Signatures
pub mod Types
pub mod Modules
pub mod Payload
pub mod Changes
pub mod Transaction
pub mod Service
pub mod ChangeRecords
pub mod Transactions
pub mod Transformer
pub mod Gcs
pub mod PubSub
