-- ===== src/Gcs/Single.antt =====
-- The connection to a bucket, and the publication of a single record: output/gcs.rs.
use aptos_etl.Prelude.{
  Bool, true, false, Option, none, some, List, [], ◌∷◌, ◌++◌, Result, ok, panic, ◌>>◌, expect,
}
use aptos_etl.Prelude.Text.{Text, codes}
use aptos_etl.Gcs.{Answer, accepted, refused, uploaded, failed, trying, done, panicked, Trace, stop}

-- What is found of the credentials: the variable with their path, if there is one, whether the file
-- is read, and whether the client takes it, or finds its own authentication without one.
pub record Credentials : Type 0 where
  pub key_path : Option Text
  pub new_from_file : Text → Bool
  pub with_credentials : Text → Bool
  pub with_auth : Bool

-- No outcome but success and a panic.
abbrev pub Connecting : Type 0 → Type 0
Connecting A = Result ⊥ A

abbrev pub succeeded : Bool → Connecting (Unit {0})
succeeded true = ok tt
succeeded false = panic

abbrev pub config_of : Credentials → Option Text → Connecting (Unit {0})
config_of c (some key_path) =
    succeeded (c.new_from_file key_path) >> succeeded (c.with_credentials key_path)
config_of c none = succeeded c.with_auth

abbrev pub gcp_config : Credentials → Connecting (Unit {0})
gcp_config c = config_of c c.key_path

-- The name of the bucket, from the variable that is named.
unfoldable pub connect : Credentials → (Text → Option Text) → Text → Connecting Text
connect c var queue_env = gcp_config c >> expect (var queue_env)

-- A record that cannot be written, or a refusal, is a panic: nothing is tried again.
abbrev pub upload_once : Text → Text → List Answer → Trace (List Answer)
upload_once filename record_string [] = stop trying
upload_once filename record_string (accepted ∷ answers) = record {
  events = uploaded filename record_string ∷ [];
  step = done answers;
}
upload_once filename record_string (refused source ∷ answers) = record {
  events = failed filename record_string ∷ [];
  step = panicked;
}

unfoldable pub publish : Text → Option Text → List Answer → Trace (List Answer)
publish name none answers = stop panicked
publish name (some record_string) answers =
    upload_once (name ++ codes ".json") record_string answers
