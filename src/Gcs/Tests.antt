-- ===== src/Gcs/Tests.antt =====
-- The publication of a batch to a bucket, at concrete answers.
use aptos_etl.Prelude.{
  ℕ, ◌/◌, ◌%◌, ◌≤◌, ◌≡◌, refl, List, [], ◌∷◌, ◌++◌, map, replicate, some, All, arith,
}
use aptos_etl.Prelude.Int.{ℤ, pos, negsuc}
use aptos_etl.Prelude.Text.{Text, codes, to_string}
use aptos_etl.Timestamp.{UnixTimestamp}
use aptos_etl.Gcs.{
  Crates, LocalResult, invalid, single, accepted, refused, done, publish_batch, upload_directory,
  upload_rest, directory_destination, directory_of, directories, enter_directory, finish,
}
use aptos_etl.Gcs as Gcs
use aptos_etl.Gcs.Single as Single
use aptos_etl.Gcs.Files.{InDirectories}
use aptos_etl.Gcs.Placed.{Placed, publish_batch-Placed}
use aptos_etl.Gcs.Retries.{
  Draws, uploads, sleeps, upload_directory-drains, directories-sleeps, finish-sleeps,
}

-- A calendar of the days' numbers, and a generator that halves its bound.
abbrev point : ℤ → LocalResult ℕ
point (pos s) = single s
point (negsuc s) = invalid

abbrev crates : Crates
crates = record {
  DateTime = ℕ;
  timestamp_opt = λ s n. point s;
  minute = λ s. s / 60 % 60;
  hour = λ s. s / 3600 % 24;
  date_naive = λ s. to_string (s / 86400);
  gen_range = λ source upper. upper / 2;
}

abbrev second : ℕ → UnixTimestamp
second s = record { seconds = pos s; nanos = 0 }

abbrev batch : List UnixTimestamp
batch = second 60 ∷ second 1700 ∷ second 1900 ∷ []

abbrev first_half : Text
first_half = codes "0/0/0"

abbrev second_half : Text
second_half = codes "0/0/30"

abbrev records : List Text
records = codes "a" ∷ codes "b" ∷ codes "c" ∷ []

batch-InDirectories : InDirectories crates batch (first_half ∷ first_half ∷ second_half ∷ [])
unfolding directory_destination directory_of
batch-InDirectories = (refl, (refl, (refl, tt)))

publish_batch-Placed_example :
    Placed
      (codes "1_3")
      (first_half ∷ first_half ∷ second_half ∷ [])
      records
      (publish_batch crates (codes "1_3") batch (map some records) (replicate 5 accepted))
publish_batch-Placed_example =
    publish_batch-Placed crates (codes "1_3") batch (first_half ∷ first_half ∷ second_half ∷ [])
      records 5 batch-InDirectories refl (omega arith)

-- One refusal: the second record is published in the first one's place.
upload_directory-drains_example :
    (uploads (upload_directory crates 1 (codes "d") 1 (refused 0 ∷ accepted ∷ []) records).events
      ≡ (codes "d", codes "b") ∷ [])
    × ((upload_directory crates 1 (codes "d") 1 (refused 0 ∷ accepted ∷ []) records).step
        ≡ done (codes "c" ∷ [], []))
upload_directory-drains_example =
    upload_directory-drains crates 1 (codes "d") 1 (0 ∷ []) [] records (omega arith)

draws : Draws crates
draws source upper = omega arith

-- The first directory is complete at the second timestamp; its file is refused once.
abbrev refused_once : Gcs.Progress
refused_once = Gcs.start_progress records (refused 0 ∷ accepted ∷ [])

directories-sleeps_example :
    All
      (λ n. n ≡ 1)
      (sleeps (directories crates (codes "1_3") (second 60 ∷ second 1900 ∷ []) refused_once).events)
directories-sleeps_example =
    directories-sleeps crates (codes "1_3") draws (second 60 ∷ second 1900 ∷ []) refused_once

some_sleep :
    sleeps (directories crates (codes "1_3") (second 60 ∷ second 1900 ∷ []) refused_once).events
    ≡ 1 ∷ []
unfolding directories directory_destination directory_of enter_directory upload_directory
some_sleep = refl

-- The last directory's file, refused five times.
abbrev refused_five : Gcs.Progress
refused_five = record refused_once {
  cur_dir = some (codes "d");
  filename = some (codes "f");
  answers = replicate 5 (refused 0) ++ accepted ∷ [];
}

finish-sleeps_example :
    All (λ n. (2 ≤ n) × (n ≤ 1350)) (sleeps (finish crates (codes "1_3") refused_five).events)
finish-sleeps_example = finish-sleeps crates (codes "1_3") draws refused_five

-- The fifth sleep is longer than fifteen minutes.
five_sleeps :
    sleeps (finish crates (codes "1_3") refused_five).events ≡ 2 ∷ 5 ∷ 20 ∷ 320 ∷ 1125 ∷ []
unfolding finish upload_rest
five_sleeps = refl

-- A single record is tried once.
single_refused :
    Single.publish (codes "a") (some (codes "{}")) (refused 5 ∷ accepted ∷ [])
    ≡ record { events = Gcs.failed (codes "a.json") (codes "{}") ∷ []; step = Gcs.panicked }
unfolding Single.publish
single_refused = refl

single_accepted :
    Single.publish (codes "a") (some (codes "{}")) (accepted ∷ [])
    ≡ record { events = Gcs.uploaded (codes "a.json") (codes "{}") ∷ []; step = done [] }
unfolding Single.publish
single_accepted = refl
