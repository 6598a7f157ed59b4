-- ===== src/Extract/Outcome.antt =====
-- What a call of `extract_range` has published when it returns, and what its errors say.
use aptos_etl.Prelude.{
  ℕ, suc, ◌+◌, ◌≤◌, ◌≡◌, ◌≢◌, ◌⊎◌, inl, inr, refl, ap, ◌∙◌, sym, subst, Bool, true, false,
  if◌then◌else◌, panic, ◌∷◌, ◌++◌, Option, none, some, List, [], map, All, Result, ok, err, arith,
  ltb, Bool-cases, Result-cases, returned, failed, stopped,
}
use aptos_etl.Options.{TableOptions}
use aptos_etl.Extract.{
  Server, Metrics, count_request, count_failure, Run, finish, tables_or_all, num_tx, extract_range,
}
use aptos_etl.Extract.Interface.{Tables, ExtractionInteruptionError, Status, stream_creation_error}
use aptos_etl.Extract.Collect.{Buffers, empty}
use aptos_etl.Extract.Publish.{Publication, publish_all}
use aptos_etl.Extract.Sent.{Sends, publish_all-Sends, publish_each-all, publish_each-cases}
use aptos_etl.Extract.Loop.{Pull, LoopEnd, reached, exhausted, interrupted, panicked, pull_loop}
use aptos_etl.Extract.Spec.{delivered, broken_by, StartsWell, one_by_one, pull_loop-one_by_one}
use aptos_etl.Extract.Rows.{up_to, collected, Collects, one_by_one-Collects}
use aptos_etl.Extract.Converting.{Converts}
use aptos_etl.Extract.Reach.{
  versions_from, Names, FailsOn, error_of, one_by_one-FailsOn, one_by_one_complete,
}

not_panic : {E : Type 0} → ◌≡◌ {A = Result E (Unit {0})} panic (ok tt) → ⊥
not_panic h = cc

not_err :
    {E : Type 0} (all : Bool) (x : E)
    → ◌≡◌ {A = Result E (Unit {0})} (if all then ok tt else panic) (err x)
    → ⊥
not_err true x h = cc
not_err false x h = cc

module _ (t : Tables) (server : Server t) (start end : ℕ) (metrics : Option Metrics)
    (table_options : Option TableOptions) where
  abbrev pub run : Run t
  run = extract_range t server start end metrics table_options

  abbrev pub options : TableOptions
  options = tables_or_all t table_options

  -- What the loop over the stream ends with, if it is entered.
  abbrev looped : List (Pull t) → LoopEnd t
  looped pulls = pull_loop t options end start (empty t) pulls

  run-looped :
      (pulls : List (Pull t))
      → server.connect start end ≡ ok pulls
      → num_tx start end ≤ t.max_capacity
      → run ≡ finish t server.takes options start end (count_request metrics) (looped pulls)
  unfolding extract_range
  run-looped pulls e small =
      let fits : ltb t.max_capacity (num_tx start end) ≡ false = ground arith in
      rw (e, fits, extract_range) refl

  run-finish :
      (m : Option Metrics) × (l : LoopEnd t) × (run ≡ finish t server.takes options start end m l)
  unfolding extract_range
  run-finish = elim (Result-cases (server.connect start end)) [
    | returned pulls e ↦ elim (Bool-cases (ltb t.max_capacity (num_tx start end))) [
      | inl over ↦ (count_request metrics, panicked, rw (e, over, extract_range) refl)
      | inr fits ↦ (count_request metrics, looped pulls, rw (e, fits, extract_range) refl)
    ]
    | failed x e ↦ (
      count_failure (count_request metrics),
      interrupted (stream_creation_error x) start,
      rw (e, extract_range) refl,
    )
    | stopped e ↦ (count_request metrics, panicked, rw (e, extract_range) refl)
  ]

  -- A publisher has panicked at a batch: what is published is the part of a complete publication
  -- that comes before it.
  abbrev pub Broken : List (Publication t) → Type 0
  Broken ps =
      (b : Buffers t) × (p : Publication t) × (more : List (Publication t)) × Sends t options start
        end b (ps ++ p ∷ more)
      × (server.takes p ≡ false)

  finish-failed :
      (m : Option Metrics) (l : LoopEnd t)
      → (finish t server.takes options start end m l).result ≢ ok tt
      → ((finish t server.takes options start end m l).published ≡ [])
        ⊎ (((finish t server.takes options start end m l).result ≡ panic)
            × Broken (finish t server.takes options start end m l).published)
  unfolding finish
  finish-failed m (reached b) h =
      elim (publish_each-cases t server.takes (publish_all t options start end b)) [
        | inl all ↦ absurd (h (rw all refl))
        | inr (sent, p, more, e, split, refused) ↦ rw e (
            inr (
              refl,
              (
                b,
                p,
                more,
                subst (Sends t options start end b) split (publish_all-Sends t options start end b),
                refused,
              ),
            ))
      ]
  finish-failed m exhausted h = inl refl
  finish-failed m (interrupted e v) h = inl refl
  finish-failed m panicked h = inl refl

  -- A call that does not return successfully has published nothing, or it has panicked because a
  -- publisher did, at some batch: then what is published is the part before that batch of a
  -- publication in which each table that is asked for is sent one batch.
  pub published-failed :
      run.result ≢ ok tt → (run.published ≡ []) ⊎ ((run.result ≡ panic) × Broken run.published)
  published-failed h = let (m, l, e) = run-finish in rw e (finish-failed m l (λ k. h (rw e k)))

  looped-one_by_one :
      (pulls : List (Pull t))
      → StartsWell t start end pulls
      → looped pulls
        ≡ one_by_one t options end start (empty t) (delivered t pulls) (broken_by t pulls)
  looped-one_by_one pulls well = pull_loop-one_by_one t options end start (empty t) pulls well

  -- The two ways to return successfully: with the transactions up to the end of the range, their
  -- conversions and all their rows, published; or with nothing published, where no transaction that
  -- was delivered ends the range.
  abbrev pub Complete : List t.Tx → Type 0
  Complete txs =
      (pre : List t.Tx) × (xs : List t.TransactionExtraction) × (up_to t end txs ≡ some pre)
      × (map t.try_from pre ≡ map ok xs)
      × Sends t options start end (collected t options xs) run.published

  abbrev pub Lost : List t.Tx → Type 0
  Lost txs = (up_to t end txs ≡ none) × (run.published ≡ [])

  sent-Sends :
      (m : Option Metrics) (b : Buffers t)
      → run ≡ finish t server.takes options start end m (reached b)
      → run.result ≡ ok tt
      → Sends t options start end b run.published
  unfolding finish
  sent-Sends m b e h =
      elim (publish_each-cases t server.takes (publish_all t options start end b)) [
        | inl all ↦ rw (e, all) (publish_all-Sends t options start end b)
        | inr (sent, p, more, refused, split, bad) ↦ absurd (not_panic (rw (e, refused) at h))
      ]

  finish-Collects :
      (m : Option Metrics) (txs : List t.Tx) (l : LoopEnd t)
      → Collects t options end (empty t) txs l
      → run ≡ finish t server.takes options start end m l
      → run.result ≡ ok tt
      → Complete txs ⊎ Lost txs
  unfolding finish
  finish-Collects m txs (reached b) (pre, xs, up, conv, eq) e h =
      inl (pre, xs, up, conv, rw (← eq) (sent-Sends m b e h))
  finish-Collects m txs exhausted none_ends e h = inr (none_ends, rw e refl)
  finish-Collects m txs (interrupted x v) c e h = absurd (cc)
  finish-Collects m txs panicked c e h = absurd (cc)

  -- A call over a stream that returns successfully has published, for every table that is asked for,
  -- exactly the rows of the transactions up to the first that has the last version of the range; or
  -- no transaction that was delivered has that version, and nothing is published.
  -- The number of versions is a capacity that a vector can have, and the first response of a range of
  -- one version is not empty.
  pub published-ok :
      (pulls : List (Pull t))
      → server.connect start end ≡ ok pulls
      → num_tx start end ≤ t.max_capacity
      → StartsWell t start end pulls
      → run.result ≡ ok tt
      → Complete (delivered t pulls) ⊎ Lost (delivered t pulls)
  published-ok pulls e small well h =
      finish-Collects (count_request metrics) (delivered t pulls) (looped pulls)
        (rw (looped-one_by_one pulls well) (
          one_by_one-Collects t options end start (empty t) (delivered t pulls)
            (broken_by t pulls)))
        (run-looped pulls e small) h

  finish-FailsOn :
      (m : Option Metrics) (txs : List t.Tx) (s : Option Status) (l : LoopEnd t)
      (x : ExtractionInteruptionError t)
      → FailsOn t options start txs s l
      → (finish t server.takes options start end m l).result ≡ err x
      → (x.start_version ≡ start)
        × (x.end_version ≡ end)
        × Names t options start txs s x.extracterror x.failed_on
  unfolding finish
  finish-FailsOn m txs s (reached b) x f h = absurd (not_err _ x h)
  finish-FailsOn m txs s exhausted x f h = absurd (cc)
  finish-FailsOn m txs s (interrupted k v) x f h =
      let (b, e, named, same) : (start ≡ x.start_version)
          × (end ≡ x.end_version)
          × (v ≡ x.failed_on)
          × (k ≡ x.extracterror) =
        (
          ap (λ r. (error_of t x r).start_version) h,
          ap (λ r. (error_of t x r).end_version) h,
          ap (λ r. (error_of t x r).failed_on) h,
          ap (λ r. (error_of t x r).extracterror) h,
        ) in
      (
        sym b,
        sym e,
        subst (λ q. Names t options start txs s q x.failed_on) same
            (subst (Names t options start txs s k) named f),
      )
  finish-FailsOn m txs s panicked x f h = absurd (cc)

  -- An error over a stream carries the range that was asked for, its cause, and the version that it
  -- occurred on: that of the first transaction that gave an error, which is the cause; or, where the
  -- stream broke with the cause, the last version that was delivered, or the first of the range if
  -- there was none.
  -- The number of versions is a capacity that a vector can have, and the first response of a range of
  -- one version is not empty.
  pub failed_on-Names :
      (pulls : List (Pull t)) (x : ExtractionInteruptionError t)
      → server.connect start end ≡ ok pulls
      → num_tx start end ≤ t.max_capacity
      → StartsWell t start end pulls
      → run.result ≡ err x
      → (x.start_version ≡ start)
        × (x.end_version ≡ end)
        × Names t options start (delivered t pulls) (broken_by t pulls) x.extracterror x.failed_on
  failed_on-Names pulls x e small well h =
      finish-FailsOn (count_request metrics) (delivered t pulls) (broken_by t pulls) (looped pulls)
        x
        (rw (looped-one_by_one pulls well) (
          one_by_one-FailsOn t options end start (empty t) (delivered t pulls) (broken_by t pulls)))
        (rw (run-looped pulls e small) at h)

  finished :
      (m : Option Metrics) {l : LoopEnd t} {b : Buffers t}
      → ((p : Publication t) → server.takes p ≡ true)
      → l ≡ reached b
      → finish t server.takes options start end m l
        ≡ record { metrics = m; published = publish_all t options start end b; result = ok tt }
  unfolding finish
  finished m {l} {b} takes h =
      rw (h, publish_each-all t server.takes takes (publish_all t options start end b)) refl

  -- A stream that delivers every version of the range in order, each transaction convertible, is
  -- published completely if no publisher panics, whatever its responses: the call succeeds, counts
  -- one request, and sends each enabled table the rows of all the transactions, with their timestamps
  -- and under the range's name, and the other tables nothing.
  -- The number of versions is a capacity that a vector can have, and the first response of a range of
  -- one version is not empty.
  pub extract_range_complete :
      (pulls : List (Pull t)) (n : ℕ)
      → server.connect start end ≡ ok pulls
      → ((p : Publication t) → server.takes p ≡ true)
      → num_tx start end ≤ t.max_capacity
      → StartsWell t start end pulls
      → end ≡ start + n
      → map t.version (delivered t pulls) ≡ versions_from start (suc n)
      → All (Converts t) (delivered t pulls)
      → (xs : List t.TransactionExtraction) × (map t.try_from (delivered t pulls) ≡ map ok xs)
        × (run.metrics ≡ count_request metrics)
        × (run.result ≡ ok tt)
        × Sends t options start end (collected t options xs) run.published
  extract_range_complete pulls n e takes small well last versions conv =
      let (b', reaches, all) =
        one_by_one_complete t options end n start start (empty t) (delivered t pulls)
          (broken_by t pulls) last versions conv in
      let (pre, xs, up, converted, eq) =
        subst (Collects t options end (empty t) (delivered t pulls)) reaches (
          one_by_one-Collects t options end start (empty t) (delivered t pulls)
            (broken_by t pulls)) in
      let same : pre ≡ delivered t pulls = cc in
      let ends : looped pulls ≡ reached (collected t options xs) =
        looped-one_by_one pulls well ∙ reaches ∙ ap reached eq in
      let whole : run ≡ record {
        metrics = count_request metrics;
        published = publish_all t options start end (collected t options xs);
        result = ok tt;
      } =
        run-looped pulls e small ∙ finished (count_request metrics) takes ends in
      (
        xs,
        subst (λ p. map t.try_from p ≡ map ok xs) same converted,
        ap (λ r. r.metrics) (whole),
        ap (λ r. r.result) (whole),
        rw (whole) (publish_all-Sends t options start end (collected t options xs)),
      )
