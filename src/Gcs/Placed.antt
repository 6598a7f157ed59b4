-- ===== src/Gcs/Placed.antt =====
-- Where the records of a batch are placed when the bucket takes every file.
use aptos_etl.Prelude.{
  ℕ, zero, suc, ◌-◌, ◌≤◌, ◌<◌, ◌≡◌, ◌≢◌, ◌⊎◌, refl, sym, ap, ◌∙◌, subst, true, false, Option, some,
  List, [], ◌∷◌, ◌++◌, map, length, replicate, ◌==◌, Bool-cases, inl, inr, arith, append_assoc,
  map-append, length-append, length-map,
}
use aptos_etl.Prelude.Text.{Text, text_eq, text_eq→≡, text_eq_refl}
use aptos_etl.Timestamp.{UnixTimestamp}
use aptos_etl.Gcs.{
  Crates, Answer, accepted, done, Trace, after, file_name, directory_destination, start_progress,
  publish_batch, all_written,
}
use aptos_etl.Gcs.Files.{
  File, upload, placed, Differ, Distinct, zip, InDirectories, length-InDirectories,
}
use aptos_etl.Gcs.Steps.{rest, rest-step, enter-first, enter-same, enter-other, rest-last, within}

module _ (c : Crates) (name : Text) where
  differs : (d dir : Text) → text_eq d dir ≡ false → d ≢ dir
  differs d dir ne same =
      let eq : text_eq d dir ≡ true = subst (λ x. text_eq d x ≡ true) same (text_eq_refl d) in cc

  -- The files that the rest of a publication uploads: the records left, each in its directory, in
  -- files that differ from each other and from those uploaded before.
  abbrev Files : ℕ → ℕ → Text → List Text → List Text → List Text → Trace (List Answer) → Type 0
  Files prev q d pending ds later t =
      (fs : List File) × (left : List Answer) × (t
        ≡ record { events = map (upload name) fs; step = done left })
      × (placed fs ≡ map (λ r. (d, r)) pending ++ zip ds later)
      × Distinct fs
      × ((f : File) → f.index < prev → (f.index < q) ⊎ (f.dir ≢ d) → Differ f fs)

  Files-same :
      (prev q : ℕ) (d dir r : Text) (pending ds later : List Text) (t : Trace (List Answer))
      → d ≡ dir
      → Files prev prev d (pending ++ r ∷ []) ds later t
      → Files prev q d pending (dir ∷ ds) (r ∷ later) t
  Files-same prev q d dir r pending ds later t same (fs, left, e, all, distinct, fresh) =
      (fs, left, e, all ∙ shifted, distinct, λ f lt either. fresh f lt (inl lt))
    where
      shifted :
          map (λ x. (d, x)) (pending ++ r ∷ []) ++ zip ds later
          ≡ map (λ x. (d, x)) pending ++ (dir, r) ∷ zip ds later
      shifted = rw (map-append {B = Text × Text} (λ x. (d, x)) pending (r ∷ [])) (
          append_assoc (map (λ x. (d, x)) pending) ((d, r) ∷ []) (zip ds later)
          ∙ ap (λ e. map (λ x. (d, x)) pending ++ (e, r) ∷ zip ds later) same)

  Files-other :
      (i prev q : ℕ) (d dir r : Text) (pending ds later : List Text) (t : Trace (List Answer))
      → d ≢ dir
      → prev < i
      → Files i prev dir (r ∷ []) ds later t
      → Files prev q d pending
          (dir ∷ ds)
          (r ∷ later)
          (after (upload name (record { dir = d; index = prev; records = pending }) ∷ []) t)
  Files-other i prev q d dir r pending ds later t other lt (fs, left, e, all, distinct, fresh) =
      let f : File = record { dir = d; index = prev; records = pending } in
      (
        f ∷ fs,
        left,
        ap (after (upload name f ∷ [])) e,
        ap (λ l. map (λ x. (d, x)) pending ++ l) all,
        (fresh f lt (inr other), distinct),
        λ g below either.
            (inl (omega (arith, below)), fresh g (omega (arith, below, lt)) (inl below)),
      )

  within-shift :
      (i prev q : ℕ) (d r : Text) (pending later : List Text) (answers : List Answer)
      → within c name i prev d q (pending ++ r ∷ []) later answers
        ≡ within c name i prev d q pending (r ∷ later) answers
  within-shift i prev q d r pending later answers = λ k. record {
    i = i;
    prev_i = prev;
    cur_dir = some d;
    filename = some (file_name name q);
    record_strings = append_assoc pending (r ∷ []) later k;
    answers = answers;
  }

  goes :
      (tss : List UnixTimestamp) (ds later : List Text) (i prev q : ℕ) (d : Text)
      (pending : List Text) (k : ℕ)
      → InDirectories c tss ds
      → length ds ≡ length later
      → length pending ≡ i - prev
      → prev < i
      → length tss ≤ k
      → Files prev q d pending ds later
          (rest c name tss (within c name i prev d q pending later (replicate (suc k) accepted)))
  goes [] [] [] i prev q d pending k dirs same len lt enough = (
    record { dir = d; index = q; records = pending } ∷ [],
    replicate k accepted,
    rest-last c name d q pending (replicate k accepted) i prev,
    refl,
    (tt, tt),
    λ f below either. (elim either [ inl h ↦ inl (omega (arith, h)) | inr h ↦ inr h ], tt),
  )
  goes [] [] (r ∷ later) i prev q d pending k dirs same len lt enough = absurd (omega (arith, same))
  goes [] (dir ∷ ds) later i prev q d pending k dirs same len lt enough = elim dirs [ ]
  goes (ts ∷ tss) [] later i prev q d pending k dirs same len lt enough = elim dirs [ ]
  goes (ts ∷ tss) (dir ∷ ds) [] i prev q d pending k dirs same len lt enough =
      absurd (omega (arith, same))
  goes (ts ∷ tss) ds later i prev q d pending zero dirs same len lt enough =
      absurd (omega (arith, enough))
  goes (ts ∷ tss) (dir ∷ ds) (r ∷ later) i prev q d pending (suc k) dirs same len lt enough =
      elim (Bool-cases (text_eq d dir)) [
        | inl eq ↦
            subst (Files prev q d pending (dir ∷ ds) (r ∷ later))
              (ap (rest c name tss) (
                  within-shift (suc i) prev prev d r pending later
                    (replicate (suc (suc k)) accepted))
                ∙ sym (
                    rest-step c name ts tss dir _ _ [] dirs.0 (
                      enter-same c name i prev q d dir pending (r ∷ later)
                        (replicate (suc (suc k)) accepted) eq)))
              (Files-same prev q d dir r pending ds later _ (text_eq→≡ d dir eq) (
                goes tss ds later (suc i) prev prev d (pending ++ r ∷ []) (suc k) dirs.1
                  (omega (arith, same))
                  (omega (arith, len, lt, length-append {0} {A = Text} pending (r ∷ [])))
                  (omega (arith, lt)) (omega (arith, enough))))
        | inr ne ↦
            subst (Files prev q d pending (dir ∷ ds) (r ∷ later))
              (sym (
                rest-step c name ts tss dir _ _ _ dirs.0 (
                  enter-other c name i prev q d dir pending (r ∷ later) (replicate (suc k) accepted)
                    ne len)))
              (Files-other i prev q d dir r pending ds later _ (differs d dir ne) lt (
                subst (Files i prev dir (r ∷ []) ds later)
                  (ap (rest c name tss)
                    (within-shift (suc i) i prev dir r [] later (replicate (suc k) accepted)))
                  (goes tss ds later (suc i) i prev dir (r ∷ []) k dirs.1 (omega (arith, same))
                    (omega arith) (omega arith) (omega (arith, enough)))))
      ]

-- The files of a publication: one or more uploads and nothing else, with all the records in their
-- order, each in its directory, and no file written twice.
abbrev pub Placed : Text → List Text → List Text → Trace (List Answer) → Type 0
Placed name ds records t =
    (fs : List File) × (left : List Answer) × (t
      ≡ record { events = map (upload name) fs; step = done left })
    × (placed fs ≡ zip ds records)
    × Distinct fs

all_written-some : (records : List Text) → all_written (map some records) ≡ some records
all_written-some [] = refl
all_written-some (r ∷ rs) = rw (all_written-some rs) refl

module _ (c : Crates) (name : Text) where
  publish_batch-rest :
      (ts : UnixTimestamp) (tss : List UnixTimestamp) (dir : Text) (records : List Text)
      (answers : List Answer)
      → directory_destination c ts ≡ some dir
      → suc (length tss) ≡ length records
      → publish_batch c name (ts ∷ tss) (map some records) answers
        ≡ rest c name tss (within c name 1 0 dir 0 [] records answers)
  unfolding publish_batch
  publish_batch-rest ts tss dir records answers at same =
      let long : (suc (length tss) == length (map {B = Option Text} some records)) ≡ true =
        ground (arith, same, length-map {B = Option Text} some records) in
      rw (long, all_written-some records)
        (unfold rest in
          rest-step c name ts tss dir (start_progress records answers)
            (within c name 1 0 dir 0 [] records answers) [] at
            (enter-first c name dir records answers))

-- When the bucket takes every file, a batch of records, with as many timestamps, is uploaded whole:
-- every record is in a file in the half-hour directory of its timestamp, in the order of the batch,
-- no two files have the same directory and index, nothing else is uploaded, and the call returns.
pub publish_batch-Placed :
    (c : Crates) (name : Text) (timestamps : List UnixTimestamp) (ds records : List Text) (k : ℕ)
    → InDirectories c timestamps ds
    → length ds ≡ length records
    → length timestamps ≤ k
    → Placed name ds records
        (publish_batch c name timestamps (map some records) (replicate k accepted))
publish_batch-Placed c name [] [] [] k dirs same enough =
    ([], replicate k accepted, unfold publish_batch in refl, refl, tt)
publish_batch-Placed c name [] [] (r ∷ records) k dirs same enough = absurd (omega (arith, same))
publish_batch-Placed c name [] (d ∷ ds) records k dirs same enough = elim dirs [ ]
publish_batch-Placed c name (ts ∷ tss) [] records k dirs same enough = elim dirs [ ]
publish_batch-Placed c name (ts ∷ tss) (d ∷ ds) [] k dirs same enough = absurd (omega (arith, same))
publish_batch-Placed c name (ts ∷ tss) ds records zero dirs same enough =
    absurd (omega (arith, enough))
publish_batch-Placed c name (ts ∷ tss) (d ∷ ds) (r ∷ records) (suc k) dirs same enough =
    let (fs, left, e, all, distinct, fresh) =
      goes c name tss ds records 1 0 0 d (r ∷ []) k dirs.1 (omega (arith, same)) (omega arith)
        (omega arith) (omega (arith, enough)) in
    (
      fs,
      left,
      publish_batch-rest c name ts tss d (r ∷ records) (replicate (suc k) accepted) dirs.0
            (omega (arith, same, length-InDirectories c tss ds dirs.1))
          ∙ e,
      all,
      distinct,
    )
