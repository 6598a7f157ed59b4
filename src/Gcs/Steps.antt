-- ===== src/Gcs/Steps.antt =====
-- The rounds of the loop over the timestamps, when the bucket takes the files.
use aptos_etl.Prelude.{
  ℕ, suc, ◌-◌, ◌≡◌, take-append, drop-append, refl, true, false, some, List, [], ◌∷◌, ◌++◌, length,
  ltb, arith, if◌then◌else◌, append-nil, append_assoc, length-append,
}
use aptos_etl.Prelude.Text.{Text, text_eq}
use aptos_etl.Timestamp.{UnixTimestamp}
use aptos_etl.Gcs.{
  Crates, Answer, accepted, Event, uploaded, Step, done, panicked, trying, Trace, after, ◌then◌,
  concatenated, file_destination, file_name, directory_destination, upload_directory, upload_rest,
  Progress, enter_directory, directories, finish, start_progress,
}
use aptos_etl.Gcs.Files.{upload}

module _ {A B : Type 0} (es : List Event) (f : A → Trace B) where
  after-then-at :
      (more : List Event) (s : Step A)
      → (after es (record { events = more; step = s }) then f)
        ≡ after es (record { events = more; step = s } then f)
  after-then-at more (done a) =
      λ i. record { events = append_assoc es more (f a).events i; step = (f a).step }
  after-then-at more panicked = refl
  after-then-at more trying = refl

  after-then : (t : Trace A) → (after es t then f) ≡ after es (t then f)
  after-then t = after-then-at t.events t.step

module _ (c : Crates) (name : Text) where
  upload_directory-accepted :
      (num : ℕ) (dest : Text) (sleep_counter : ℕ) (answers : List Answer)
      (pending later : List Text)
      → length pending ≡ num
      → upload_directory c num dest sleep_counter (accepted ∷ answers) (pending ++ later) ≡ record {
        events = uploaded dest (concatenated pending) ∷ [];
        step = done (later, answers);
      }
  unfolding upload_directory
  upload_directory-accepted num dest sleep_counter answers pending later h =
      let enough : ltb (length (pending ++ later)) num ≡ false =
        ground (arith, length-append pending later) in
      rw (enough, take-append num pending later h, drop-append num pending later h) refl

  unfoldable pub rest : List UnixTimestamp → Progress → Trace (List Answer)
  rest timestamps p = directories c name timestamps p then finish c name

  pub rest-step :
      (ts : UnixTimestamp) (tss : List UnixTimestamp) (dir : Text) (p p' : Progress)
      (es : List Event)
      → directory_destination c ts ≡ some dir
      → enter_directory c name dir p ≡ record { events = es; step = done p' }
      → rest (ts ∷ tss) p ≡ after es (rest tss p')
  unfolding rest directories
  rest-step ts tss dir p p' es h e =
      rw (h, e, rest, directories) (after-then es (finish c name) (directories c name tss p'))

  pub enter-first :
      (dir : Text) (records : List Text) (answers : List Answer)
      → enter_directory c name dir (start_progress records answers) ≡ record {
        events = [];
        step = done (record {
          i = 1;
          prev_i = 0;
          cur_dir = some dir;
          filename = some (file_name name 0);
          record_strings = records;
          answers = answers;
        });
      }
  unfolding enter_directory
  enter-first dir records answers = refl

  -- The variables with a directory `d` entered, and its records `pending` up to now.
  abbrev pub within : ℕ → ℕ → Text → ℕ → List Text → List Text → List Answer → Progress
  within i prev d q pending later answers = record {
    i = i;
    prev_i = prev;
    cur_dir = some d;
    filename = some (file_name name q);
    record_strings = pending ++ later;
    answers = answers;
  }

  module _ (i prev q : ℕ) (d dir : Text) (pending later : List Text) (answers : List Answer) where
    pub enter-same :
        text_eq d dir ≡ true
        → enter_directory c name dir (within i prev d q pending later answers)
          ≡ record { events = []; step = done (within (suc i) prev d prev pending later answers) }
    unfolding enter_directory
    enter-same h = rw (h, enter_directory) refl

    pub enter-other :
        text_eq d dir ≡ false
        → length pending ≡ i - prev
        → enter_directory c name dir (within i prev d q pending later (accepted ∷ answers))
          ≡ record {
            events = upload name (record { dir = d; index = prev; records = pending }) ∷ [];
            step = done (within (suc i) i dir prev [] later answers);
          }
    unfolding enter_directory
    enter-other h len =
        rw
          (
            h,
            upload_directory-accepted (i - prev) (file_destination d (file_name name prev)) 1
                answers pending later len,
            enter_directory,
          )
          refl

  module _ (d : Text) (q : ℕ) (pending : List Text) (answers : List Answer) where
    pub rest-last :
        (i prev : ℕ)
        → rest [] (within i prev d q pending [] (accepted ∷ answers)) ≡ record {
          events = upload name (record { dir = d; index = q; records = pending }) ∷ [];
          step = done answers;
        }
    unfolding rest directories finish upload_rest
    rest-last i prev = rw (append-nil {A = Text} pending) refl
