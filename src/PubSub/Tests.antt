-- ===== src/PubSub/Tests.antt =====
-- The publication of three messages, the second of which fails twice.
use aptos_etl.Prelude.{
  ◌≡◌, refl, none, some, ok, panic, ◌≤◌, true, false, Bool, List, [], ◌∷◌, length, All, arith,
}
use aptos_etl.Gcs.Single.{Credentials}
use aptos_etl.PubSub.{Message, Run, waiting, done, publish_batch, publish_with_backoff, retry}
use aptos_etl.PubSub.Single.{connect, publish}
use aptos_etl.PubSub as PubSub
use aptos_etl.PubSub.Delivery.{Delivers, publish_batch-Delivers}

abbrev batch : List Message
batch = (1 ∷ []) ∷ (2 ∷ []) ∷ (3 ∷ []) ∷ []

abbrev results : List Bool
results = true ∷ false ∷ false ∷ true ∷ true ∷ []

publish_batch-Delivers_example :
    (bs : List (List Message)) × Delivers bs batch results (publish_batch batch results)
    × All (λ c. length c ≤ 900) bs
publish_batch-Delivers_example = publish_batch-Delivers batch results (omega arith)

-- A single message is handed over until it is published, each time a second later.
published_late :
    publish (λ m. m) (7 ∷ []) (false ∷ false ∷ true ∷ [])
    ≡ done
        (PubSub.publish (7 ∷ [])
          ∷ PubSub.failed (7 ∷ [])
          ∷ PubSub.slept 0
          ∷ PubSub.publish (7 ∷ [])
          ∷ PubSub.failed (7 ∷ [])
          ∷ PubSub.slept 1
          ∷ PubSub.publish (7 ∷ [])
          ∷ PubSub.published (7 ∷ [])
          ∷ [])
        []
unfolding publish publish_with_backoff retry
published_late = refl

abbrev own_account : Credentials
own_account = record {
  key_path = none;
  new_from_file = λ path. false;
  with_credentials = λ path. false;
  with_auth = true;
}

no_topic : connect own_account true (λ name. some name) (λ topic. some false) (7 ∷ []) ≡ panic
unfolding connect
no_topic = refl

connected : connect own_account true (λ name. some name) (λ topic. some true) (7 ∷ []) ≡ ok (7 ∷ [])
unfolding connect
connected = refl
