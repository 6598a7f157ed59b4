-- ===== src/Gcs/Retries.antt =====
-- What the retry loops do when the bucket refuses files.
use native.Mathlib.Nat.{pow-le-pow_left}
use aptos_etl.Prelude.{
  ℕ, zero, suc, ◌-◌, ◌/◌, ◌^◌, ◌≤◌, ◌≡◌, refl, false, List, [], ◌∷◌, ◌++◌, map, length, take, drop,
  ltb, All, arith, Bool-cases, inl, inr, Option, none, some,
}
use aptos_etl.Prelude.Text.{Text, text_eq}
use aptos_etl.Timestamp.{UnixTimestamp}
use aptos_etl.Gcs.{
  Crates, Answer, accepted, refused, Event, uploaded, failed, slept, done, next_sleep, concatenated,
  pause, upload_directory, upload_rest, Step, panicked, trying, Trace, ◌then◌, Progress,
  enter_directory, directories, directory_destination, finish, file_destination, file_name,
}

-- The files that the bucket has taken, and the seconds slept.
abbrev pub uploads : List Event → List (Text × Text)
uploads [] = []
uploads (uploaded dest content ∷ es) = (dest, content) ∷ uploads es
uploads (failed dest content ∷ es) = uploads es
uploads (slept n ∷ es) = uploads es

abbrev pub sleeps : List Event → List ℕ
sleeps [] = []
sleeps (uploaded dest content ∷ es) = sleeps es
sleeps (failed dest content ∷ es) = sleeps es
sleeps (slept n ∷ es) = n ∷ sleeps es

-- What `gen_range(0..=n)` draws is in its range.
abbrev pub Draws : Crates → Type 0
Draws c = (source upper : ℕ) → c.gen_range source upper ≤ upper

-- The records that are left when some batches are drained.
abbrev pub drain : ℕ → ℕ → List Text → List Text
drain num zero records = records
drain num (suc m) records = drain num m (drop num records)

length-drop : {A : Type 0} (n : ℕ) (xs : List A) → length (drop n xs) ≡ length xs - n
length-drop zero xs = omega arith
length-drop (suc n) [] = omega arith
length-drop (suc n) (x ∷ xs) = omega (arith, length-drop n xs)

length-drain : (num m : ℕ) (records : List Text) → length (drain num m records) ≤ length records
length-drain num zero records = omega arith
length-drain num (suc m) records =
    omega (arith, length-drain num m (drop num records), length-drop num records)

module _ (c : Crates) where
  -- After some refusals the directory's file holds the records that come later by as many batches:
  -- each refused attempt has drained its batch, and no file has the records of the attempts refused.
  pub upload_directory-drains :
      (num : ℕ) (dest : Text) (sleep_counter : ℕ) (sources : List ℕ) (answers : List Answer)
      (records : List Text)
      → num ≤ length (drain num (length sources) records)
      → (uploads
            (upload_directory c num dest sleep_counter
              (map refused sources ++ accepted ∷ answers)
              records).events
          ≡ (dest, concatenated (take num (drain num (length sources) records))) ∷ [])
        × ((upload_directory c num dest sleep_counter
              (map refused sources ++ accepted ∷ answers)
              records).step
            ≡ done (drop num (drain num (length sources) records), answers))
  unfolding upload_directory
  upload_directory-drains num dest sleep_counter [] answers records enough =
      let fits : ltb (length records) num ≡ false = ground (arith, enough) in rw fits (refl, refl)
  upload_directory-drains num dest sleep_counter (source ∷ sources) answers records enough =
      let fits : ltb (length records) num ≡ false = ground (
        arith,
        enough,
        length-drain num (length sources) (drop num records),
        length-drop num records,
      ) in
      rw fits (
        upload_directory-drains num dest (next_sleep sleep_counter) sources answers
          (drop num records) enough)

  next_sleep-one : next_sleep 1 ≡ 1
  next_sleep-one = refl

  pause-one : Draws c → (source : ℕ) → pause c 1 source ≡ 1
  pause-one draws source = omega (arith, draws source 0)

  upload_directory-sleeps :
      Draws c
      → (num : ℕ) (dest : Text) (answers : List Answer) (records : List Text)
      → All (λ n. n ≡ 1) (sleeps (upload_directory c num dest 1 answers records).events)
  unfolding upload_directory
  upload_directory-sleeps draws num dest [] records = elim (Bool-cases (ltb (length records) num)) [
    | inl short ↦ rw short tt
    | inr fits ↦ rw fits tt
  ]
  upload_directory-sleeps draws num dest (accepted ∷ answers) records =
      elim (Bool-cases (ltb (length records) num)) [
        | inl short ↦ rw short tt
        | inr fits ↦ rw fits tt
      ]
  upload_directory-sleeps draws num dest (refused source ∷ answers) records =
      elim (Bool-cases (ltb (length records) num)) [
        | inl short ↦ rw short tt
        | inr fits ↦ rw fits (
          pause-one draws source,
          upload_directory-sleeps draws num dest answers (drop num records),
        )
      ]

  next_sleep-bounds : (n : ℕ) → 2 ≤ n → n ≤ 900 → (2 ≤ next_sleep n) × (next_sleep n ≤ 900)
  next_sleep-bounds n low high = let square : 2 ^ 2 ≤ n ^ 2 = pow-le-pow_left low 2 in ground arith

  upload_rest-sleeps :
      Draws c
      → (dest content : Text) (sleep_counter : ℕ) (answers : List Answer) → 2 ≤ sleep_counter
      → sleep_counter ≤ 900
      → All
          (λ n. (2 ≤ n) × (n ≤ 1350))
          (sleeps (upload_rest c dest content sleep_counter answers).events)
  unfolding upload_rest
  upload_rest-sleeps draws dest content n [] low high = tt
  upload_rest-sleeps draws dest content n (accepted ∷ answers) low high = tt
  upload_rest-sleeps draws dest content n (refused source ∷ answers) low high = (
    (omega (arith, low), omega (arith, high, draws source (n / 2))),
    upload_rest-sleeps draws dest content (next_sleep n) answers (next_sleep-bounds n low high).0
        (next_sleep-bounds n low high).1,
  )

  sleeps-append :
      (P : ℕ → Type 0) (es more : List Event)
      → All P (sleeps es)
      → All P (sleeps more)
      → All P (sleeps (es ++ more))
  sleeps-append P [] more h h' = h'
  sleeps-append P (uploaded dest content ∷ es) more h h' = sleeps-append P es more h h'
  sleeps-append P (failed dest content ∷ es) more h h' = sleeps-append P es more h h'
  sleeps-append P (slept n ∷ es) more (h, hs) h' = (h, sleeps-append P es more hs h')

  then-sleeps :
      {A B : Type 0} (P : ℕ → Type 0) (t : Trace A) (f : A → Trace B)
      → All P (sleeps t.events)
      → ((a : A) → All P (sleeps (f a).events))
      → All P (sleeps (t then f).events)
  then-sleeps {A} {B} P t f h next = stepped t.step
    where
      stepped : (s : Step A) → All P (sleeps (record { events = t.events; step = s } then f).events)
      stepped (done a) = sleeps-append P t.events (f a).events h (next a)
      stepped panicked = h
      stepped trying = h

  module _ (name : Text) (draws : Draws c) where
    abbrev OneSecond : List Event → Type 0
    OneSecond es = All (λ n. n ≡ 1) (sleeps es)

    enter_directory-sleeps :
        (dir : Text) (p : Progress) → OneSecond (enter_directory c name dir p).events
    unfolding enter_directory
    enter_directory-sleeps dir p =
        entered p.i p.prev_i p.cur_dir p.filename p.record_strings p.answers
      where
        entered :
            (i prev : ℕ) (d f : Option Text) (records : List Text) (answers : List Answer)
            → OneSecond
                (enter_directory c name dir (record {
                  i = i;
                  prev_i = prev;
                  cur_dir = d;
                  filename = f;
                  record_strings = records;
                  answers = answers;
                })).events
        entered i prev none f records answers = tt
        entered i prev (some d) f records answers = elim (Bool-cases (text_eq d dir)) [
          | inl same ↦ rw (same, enter_directory) tt
          | inr other ↦
              rw (other, enter_directory)
                (then-sleeps (λ n. n ≡ 1)
                  (upload_directory c (i - prev) (file_destination d (file_name name prev)) 1
                    answers records)
                  _
                  (upload_directory-sleeps draws (i - prev)
                    (file_destination d (file_name name prev)) answers records)
                  (λ r. tt))
        ]

    -- While directories are completed, every sleep lasts one second, however often the bucket refuses
    -- a file and whichever directory it is of: the time does not grow. What is drawn is at most the
    -- bound that is given.
    pub directories-sleeps :
        (timestamps : List UnixTimestamp) (p : Progress)
        → All (λ n. n ≡ 1) (sleeps (directories c name timestamps p).events)
    unfolding directories
    directories-sleeps [] p = tt
    directories-sleeps (ts ∷ timestamps) p =
        located (directory_destination c ts) refl (λ q. directories-sleeps timestamps q)
      where
        located :
            (o : Option Text)
            → directory_destination c ts ≡ o
            → ((q : Progress) → OneSecond (directories c name timestamps q).events)
            → OneSecond (directories c name (ts ∷ timestamps) p).events
        located none e later = rw (e, directories) tt
        located (some dir) e later =
            rw (e, directories)
              (then-sleeps (λ n. n ≡ 1) (enter_directory c name dir p)
                (directories c name timestamps) (enter_directory-sleeps dir p) later)

    -- For the file of the last directory every sleep lasts between two seconds and 1350, which are
    -- twenty-two and a half minutes, however often the bucket refuses it. What is drawn is at most the
    -- bound that is given.
    pub finish-sleeps :
        (p : Progress) → All (λ n. (2 ≤ n) × (n ≤ 1350)) (sleeps (finish c name p).events)
    unfolding finish
    finish-sleeps p = in_dir p.cur_dir refl
      where
        named :
            (d : Text) (f : Option Text)
            → p.cur_dir ≡ some d
            → p.filename ≡ f
            → All (λ n. (2 ≤ n) × (n ≤ 1350)) (sleeps (finish c name p).events)
        named d none e e' = rw (e, e') tt
        named d (some file) e e' =
            rw (e, e')
              (upload_rest-sleeps draws (file_destination d file) (concatenated p.record_strings) 2
                p.answers (omega arith) (omega arith))

        in_dir :
            (d : Option Text)
            → p.cur_dir ≡ d
            → All (λ n. (2 ≤ n) × (n ≤ 1350)) (sleeps (finish c name p).events)
        in_dir none e = rw (e) tt
        in_dir (some d) e = named d p.filename e refl
