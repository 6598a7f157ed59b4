-- ===== src/Gcs.antt =====
-- The publication of a batch of records to a bucket: output/gcs.rs. The bucket's answers are given
-- in the order of the upload attempts; what the client has read of them is gone.
pub mod Files
pub mod Steps
pub mod Placed
pub mod Retries
pub mod Single
mod Tests
use aptos_etl.Prelude.{
  ℕ, suc, ◌+◌, ◌-◌, ◌/◌, ◌^◌, Bool, true, false, Option, none, some, List, [], ◌∷◌, ◌++◌, length,
  take, drop, ltb, ◌==◌, if◌then◌else◌,
}
use aptos_etl.Prelude.Text.{Text, codes, to_string, text_eq, join}
use aptos_etl.Prelude.Int.{ℤ}
use aptos_etl.Timestamp.{UnixTimestamp}

-- `chrono::LocalResult`
pub data LocalResult {ℓ} (A : Type ℓ) : Type ℓ where
  invalid : LocalResult A
  single : A → LocalResult A
  ambiguous : A → A → LocalResult A

-- The calls of `chrono` and of `rand`: a draw of `gen_range` is given with its random source.
pub record Crates : Type 1 where
  pub DateTime : Type 0
  pub timestamp_opt : ℤ → ℕ → LocalResult DateTime
  pub minute : DateTime → ℕ
  pub hour : DateTime → ℕ
  pub date_naive : DateTime → Text
  pub gen_range : ℕ → ℕ → ℕ

-- The bucket's answer to an upload; a refusal comes with the random source of the jitter.
pub data Answer : Type 0 where
  accepted : Answer
  refused : ℕ → Answer

pub data Event : Type 0 where
  uploaded : Text → Text → Event
  failed : Text → Text → Event
  slept : ℕ → Event

-- A step of the publication: it is done, with a value; it has panicked; or it still tries when the
-- answers end.
pub data Step {ℓ} (A : Type ℓ) : Type ℓ where
  done : A → Step A
  panicked : Step A
  trying : Step A

-- What has happened so far, with the step.
pub record Trace {ℓ} (A : Type ℓ) : Type ℓ where
  pub events : List Event
  pub step : Step A

abbrev pub after {ℓ} : {A : Type ℓ} → List Event → Trace A → Trace A
after events t = record { events = events ++ t.events; step = t.step }

abbrev pub stop {ℓ} : {A : Type ℓ} → Step A → Trace A
stop s = record { events = []; step = s }

infixl 5 ◌then◌
abbrev pub ◌then◌ {ℓ κ} : {A : Type ℓ} {B : Type κ} → Trace A → (A → Trace B) → Trace B
t then f = elim t.step [
  | done a ↦ after t.events (f a)
  | panicked ↦ record { events = t.events; step = panicked }
  | trying ↦ record { events = t.events; step = trying }
]

-- `sleep_counter.pow(2).min(900)`, below 900
abbrev pub next_sleep : ℕ → ℕ
next_sleep c = if ltb c 900 then (if ltb (c ^ 2) 900 then c ^ 2 else 900) else c

abbrev newline : Text
newline = codes "\n"

-- The records joined by line ends.
abbrev pub concatenated : List Text → Text
concatenated records = join newline records

-- `[dir, file].join("/")`
abbrev pub file_destination : Text → Text → Text
file_destination dir file = dir ++ codes "/" ++ file

abbrev pub file_name : Text → ℕ → Text
file_name name i = name ++ codes "_" ++ to_string i ++ codes ".jsonl"

abbrev pub all_written : List (Option Text) → Option (List Text)
all_written [] = some []
all_written (none ∷ rs) = none
all_written (some s ∷ rs) = elim (all_written rs) [ none ↦ none | some ss ↦ some (s ∷ ss) ]

-- The variables of the loop over the timestamps.
pub record Progress : Type 0 where
  pub i : ℕ
  pub prev_i : ℕ
  pub cur_dir : Option Text
  pub filename : Option Text
  pub record_strings : List Text
  pub answers : List Answer

abbrev pub start_progress : List Text → List Answer → Progress
start_progress records answers = record {
  i = 0;
  prev_i = 0;
  cur_dir = none;
  filename = none;
  record_strings = records;
  answers = answers;
}

module _ (c : Crates) where
  -- The directory of a half hour.
  unfoldable pub directory_of : c.DateTime → Text
  directory_of dt =
      let minute = if ltb (c.minute dt) 30 then codes "0" else codes "30" in
      c.date_naive dt ++ codes "/" ++ to_string (c.hour dt) ++ codes "/" ++ minute

  -- `none` is the panic on a timestamp that is not one point of time.
  unfoldable pub directory_destination : UnixTimestamp → Option Text
  directory_destination ts = elim (c.timestamp_opt ts.seconds ts.nanos) [
    | invalid ↦ none
    | single dt ↦ some (directory_of dt)
    | ambiguous a b ↦ none
  ]

  abbrev pub pause : ℕ → ℕ → ℕ
  pause sleep_counter source = sleep_counter + c.gen_range source (sleep_counter / 2)

  -- The retry loop for a directory that is complete: each attempt drains its records from the front.
  unfoldable pub upload_directory :
      ℕ → Text → ℕ → List Answer → List Text → Trace (List Text × List Answer)
  upload_directory num dest sleep_counter [] records =
      if ltb (length records) num then stop panicked else stop trying
  upload_directory num dest sleep_counter (accepted ∷ answers) records =
      if ltb (length records) num then stop panicked else record {
        events = uploaded dest (concatenated (take num records)) ∷ [];
        step = done (drop num records, answers);
      }
  upload_directory num dest sleep_counter (refused source ∷ answers) records =
      let rest = upload_directory num dest (next_sleep sleep_counter) answers (drop num records) in
      if ltb (length records) num
      then stop panicked
      else after
          (failed dest (concatenated (take num records)) ∷ slept (pause sleep_counter source) ∷ [])
          rest

  -- The retry loop for the last directory.
  unfoldable pub upload_rest : Text → Text → ℕ → List Answer → Trace (List Answer)
  upload_rest dest content sleep_counter [] = stop trying
  upload_rest dest content sleep_counter (accepted ∷ answers) = record {
    events = uploaded dest content ∷ [];
    step = done answers;
  }
  upload_rest dest content sleep_counter (refused source ∷ answers) =
      after (failed dest content ∷ slept (pause sleep_counter source) ∷ [])
        (upload_rest dest content (next_sleep sleep_counter) answers)

  module _ (name : Text) where
    -- The round for a timestamp in a directory.
    unfoldable pub enter_directory : Text → Progress → Trace Progress
    enter_directory dir p =
        let file = file_name name p.prev_i in
        let stay = record p { i = suc p.i; filename = some file; cur_dir = some dir } in
        elim p.cur_dir [
          | none ↦ stop (done stay)
          | some d ↦ elim (text_eq d dir) [
            | true ↦ stop (done (record p { i = suc p.i; filename = some file }))
            | false ↦
                (upload_directory (p.i - p.prev_i) (file_destination d file) 1 p.answers
                  p.record_strings)
                then λ r.
                    stop (done (record stay { prev_i = p.i; record_strings = r.0; answers = r.1 }))
          ]
        ]

    unfoldable pub directories : List UnixTimestamp → Progress → Trace Progress
    directories [] p = stop (done p)
    directories (ts ∷ timestamps) p = elim (directory_destination ts) [
      | none ↦ stop panicked
      | some dir ↦ enter_directory dir p then directories timestamps
    ]

    -- What follows the loop: `unwrap` of a directory and a name that are missing panics.
    unfoldable pub finish : Progress → Trace (List Answer)
    finish p = elim p.cur_dir [
      | none ↦ stop panicked
      | some dir ↦ elim p.filename [
        | none ↦ stop panicked
        | some file ↦
            upload_rest (file_destination dir file) (concatenated p.record_strings) 2 p.answers
      ]
    ]

    abbrev pub publish_strings : List UnixTimestamp → List Text → List Answer → Trace (List Answer)
    publish_strings timestamps records answers =
        directories timestamps (start_progress records answers) then finish

    -- The records are given as `serde_json` writes them, `none` for one that it cannot write.
    unfoldable pub publish_batch :
        List UnixTimestamp → List (Option Text) → List Answer → Trace (List Answer)
    publish_batch [] records answers =
        if 0 == length records then stop (done answers) else stop panicked
    publish_batch (ts ∷ timestamps) records answers =
        if length (ts ∷ timestamps) == length records
        then elim (all_written records) [
          | none ↦ stop panicked
          | some strings ↦ publish_strings (ts ∷ timestamps) strings answers
        ]
        else stop panicked
