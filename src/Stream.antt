-- ===== src/Stream.antt =====
-- The connection to the service: grpc/stream.rs, with the variables of grpc/environment.rs.
mod Fallback
mod Tests
use aptos_etl.Prelude.{
  ℕ, Bool, true, false, Option, none, some, List, [], ◌∷◌, Result, ok, err, panic,
}
use aptos_etl.Prelude.Text.{Text}
use aptos_etl.Extract.Interface.{Tables, StreamCreationError, bad_response}
use aptos_etl.Extract.Loop.{Pull}

-- The variables, when they have been read.
pub record Environment : Type 0 where
  pub service_address : Text
  pub auth_token : Text
  pub ping_interval : ℕ
  pub ping_timeout : ℕ
  pub project_name : Text
  pub service_address_fallback : Option Text
  pub auth_token_fallback : Option Text

pub record Endpoint : Type 0 where
  pub address : Text
  pub auth_token : Option Text
  pub is_primary : Bool

-- `TransactionStreamConfig`, without what is left at its default.
pub record StreamConfig : Type 0 where
  pub service_address : Text
  pub starting_version : Option ℕ
  pub request_ending_version : Option ℕ
  pub auth_token : Option Text
  pub ping_interval_secs : ℕ
  pub ping_timeout_secs : ℕ
  pub response_item_timeout_secs : ℕ
  pub reconnection_timeout_secs : ℕ
  pub max_retries : ℕ
  pub request_name_header : Text
  pub backup_endpoints : List Endpoint

abbrev pub backups : Option Text → Option Text → List Endpoint
backups none auth = []
backups (some fallback_addr) auth =
    record { address = fallback_addr; auth_token = auth; is_primary = false } ∷ []

abbrev pub config : Environment → Text → Text → List Endpoint → ℕ → ℕ → StreamConfig
config env addr auth endpoints start end = record {
  service_address = addr;
  starting_version = some start;
  request_ending_version = some end;
  auth_token = some auth;
  ping_interval_secs = env.ping_interval;
  ping_timeout_secs = env.ping_timeout;
  response_item_timeout_secs = env.ping_timeout;
  reconnection_timeout_secs = env.ping_timeout;
  max_retries = 5;
  request_name_header = env.project_name;
  backup_endpoints = endpoints;
}

abbrev pub stream_config : Environment → ℕ → ℕ → StreamConfig
stream_config env start end =
    config env env.service_address env.auth_token
      (backups env.service_address_fallback env.auth_token_fallback) start end

-- `Option::unwrap_or_default`
abbrev pub or_empty : Option Text → Text
or_empty none = []
or_empty (some s) = s

abbrev pub stream_config_fb : Environment → Text → ℕ → ℕ → StreamConfig
stream_config_fb env fallback_addr start end =
    config env fallback_addr (or_empty env.auth_token_fallback) [] start end

module _ (t : Tables) where
  -- How the task ends that asks for a stream: with an answer, or not at all, by a panic or a
  -- cancellation.
  pub data Joined : Type 0 where
    answered : List (Pull t) → Joined
    refused : Joined
    died : Joined

  abbrev pub of_fallback : Joined → Result StreamCreationError (List (Pull t))
  of_fallback (answered response) = ok response
  of_fallback refused = err bad_response
  of_fallback died = err bad_response

  -- The function of the crate that asks for a stream is a parameter.
  module _ (env : Environment) (get_aptos_stream : StreamConfig → Joined) (start end : ℕ) where
    abbrev pub try_fallback : Option Text → Result StreamCreationError (List (Pull t))
    try_fallback (some fallback_addr) =
        of_fallback (get_aptos_stream (stream_config_fb env fallback_addr start end))
    try_fallback none = err bad_response

    abbrev pub of_primary : Joined → Result StreamCreationError (List (Pull t))
    of_primary (answered response) = ok response
    of_primary refused = err bad_response
    of_primary died = try_fallback env.service_address_fallback

    unfoldable pub get_stream_response : Result StreamCreationError (List (Pull t))
    get_stream_response = of_primary (get_aptos_stream (stream_config env start end))

  unfoldable pub get_stream :
      Environment → (StreamConfig → Joined) → ℕ → ℕ → Result StreamCreationError (List (Pull t))
  get_stream env get_aptos_stream start end = get_stream_response env get_aptos_stream start end
