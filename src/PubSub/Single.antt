-- ===== src/PubSub/Single.antt =====
-- The connection to a topic, and the publication of a single message:
-- output/google_pubsub.rs.
use aptos_etl.Prelude.{Bool, Option, List, ok, ◌>>=◌, ◌>>◌, expect, map}
use aptos_etl.Prelude.Text.{Text}
use aptos_etl.Gcs.Single.{Credentials, Connecting, succeeded, gcp_config}
use aptos_etl.PubSub.{Message, Run, publish_with_backoff, publish_batch}

-- The name of the topic's variable, if the topic exists; `exists` is `none` where the question
-- fails.
abbrev pub connect_to_topic : (Text → Option Text) → (Text → Option Bool) → Text → Connecting Text
connect_to_topic var exists topic_name = do
  google_pubsub_topic ← expect (var topic_name)
  found ← expect (exists google_pubsub_topic)
  succeeded found
  ok topic_name

unfoldable pub connect :
    Credentials → Bool → (Text → Option Text) → (Text → Option Bool) → Text → Connecting Text
connect c client var exists queue_name =
    gcp_config c >> succeeded client >> connect_to_topic var exists queue_name

module _ {A : Type 0} (encode_to_vec : A → Message) where
  unfoldable pub publish : A → List Bool → Run
  publish msg answers = publish_with_backoff (encode_to_vec msg) answers

  unfoldable pub publish_messages : List A → List Bool → Run
  publish_messages msgs answers = publish_batch (map encode_to_vec msgs) answers
