-- ===== src/PubSub/Delivery.antt =====
-- Every message of a batch is published once, in bulks of a bounded size.
use aptos_etl.Prelude.{
  ℕ, zero, suc, ◌+◌, ◌≤◌, ◌≡◌, refl, sym, ap, ◌∙◌, subst, Bool, true, false, List, [], ◌∷◌, ◌++◌,
  length, take, drop, All, arith, length-append, take-append-drop,
}
use aptos_etl.PubSub.{
  Message, Event, publish_bulk, publish, published, failed, slept, Run, done, waiting, after,
  ◌next◌, retry, publish_with_backoff, await_all, publish_batch_with_backoff, chunks, chunk_size,
  publish_chunks, publish_batch,
}

-- The messages whose publication succeeded, in order.
abbrev pub delivered : List Event → List Message
delivered [] = []
delivered (published m ∷ es) = m ∷ delivered es
delivered (publish_bulk ms ∷ es) = delivered es
delivered (publish m ∷ es) = delivered es
delivered (failed m ∷ es) = delivered es
delivered (slept n ∷ es) = delivered es

-- The bulks that were handed over.
abbrev pub bulks : List Event → List (List Message)
bulks [] = []
bulks (publish_bulk ms ∷ es) = ms ∷ bulks es
bulks (published m ∷ es) = bulks es
bulks (publish m ∷ es) = bulks es
bulks (failed m ∷ es) = bulks es
bulks (slept n ∷ es) = bulks es

-- How many of the results are successes.
abbrev pub successes : List Bool → ℕ
successes [] = 0
successes (true ∷ bs) = suc (successes bs)
successes (false ∷ bs) = successes bs

delivered-append : (es fs : List Event) → delivered (es ++ fs) ≡ delivered es ++ delivered fs
delivered-append [] fs = refl
delivered-append (published m ∷ es) fs = ap (λ l. m ∷ l) (delivered-append es fs)
delivered-append (publish_bulk ms ∷ es) fs = delivered-append es fs
delivered-append (publish m ∷ es) fs = delivered-append es fs
delivered-append (failed m ∷ es) fs = delivered-append es fs
delivered-append (slept n ∷ es) fs = delivered-append es fs

bulks-append : (es fs : List Event) → bulks (es ++ fs) ≡ bulks es ++ bulks fs
bulks-append [] fs = refl
bulks-append (published m ∷ es) fs = bulks-append es fs
bulks-append (publish_bulk ms ∷ es) fs = ap (λ l. ms ∷ l) (bulks-append es fs)
bulks-append (publish m ∷ es) fs = bulks-append es fs
bulks-append (failed m ∷ es) fs = bulks-append es fs
bulks-append (slept n ∷ es) fs = bulks-append es fs

-- The run is done; it has handed over these bulks, published these messages, and used up as many
-- successes of its results.
abbrev pub Delivers : List (List Message) → List Message → List Bool → Run → Type 0
Delivers bs ms answers (done es left) =
    (bulks es ≡ bs) × (delivered es ≡ ms) × (successes answers ≡ length ms + successes left)
Delivers bs ms answers (waiting es) = ⊥

Delivers-after :
    (es : List Event) (bs : List (List Message)) (ms : List Message) (answers : List Bool) (r : Run)
    → Delivers bs ms answers r
    → delivered es ≡ []
    → Delivers (bulks es ++ bs) ms answers (after es r)
Delivers-after es bs ms answers (done fs left) (b, d, s) none = (
  bulks-append es fs ∙ ap (λ l. bulks es ++ l) b,
  delivered-append es fs ∙ ap (λ l. l ++ delivered fs) none ∙ d,
  s,
)
Delivers-after es bs ms answers (waiting fs) h none = elim h [ ]

Delivers-next :
    (bs cs : List (List Message)) (ms ns : List Message) (answers : List Bool) (r : Run)
    (f : List Bool → Run)
    → Delivers bs ms answers r
    → length ms + length ns ≤ successes answers
    → ((left : List Bool) → length ns ≤ successes left → Delivers cs ns left (f left))
    → Delivers (bs ++ cs) (ms ++ ns) answers (r next f)
Delivers-next bs cs ms ns answers (done es left) f (b, d, s) enough rest =
    go (f left) (rest left (omega (arith, s, enough)))
  where
    go : (r : Run) → Delivers cs ns left r → Delivers (bs ++ cs) (ms ++ ns) answers (after es r)
    go (done fs left') (b', d', s') = (
      bulks-append es fs ∙ ap (λ l. l ++ bulks fs) b ∙ ap (λ l. bs ++ l) b',
      delivered-append es fs ∙ ap (λ l. l ++ delivered fs) d ∙ ap (λ l. ms ++ l) d',
      omega (arith, s, s', length-append ms ns),
    )
    go (waiting fs) h = elim h [ ]
Delivers-next bs cs ms ns answers (waiting es) f h enough rest = elim h [ ]

retry-Delivers :
    (m : Message) (backoff : ℕ) (answers : List Bool)
    → 1 ≤ successes answers
    → Delivers [] (m ∷ []) answers (retry m backoff answers)
unfolding retry
retry-Delivers m backoff [] h = absurd (omega (arith, h))
retry-Delivers m backoff (true ∷ answers) h = (refl, refl, omega arith)
retry-Delivers m backoff (false ∷ answers) h =
    Delivers-after (failed m ∷ slept backoff ∷ publish m ∷ []) [] (m ∷ []) answers _
      (retry-Delivers m (backoff + 1) answers h) refl

await_all-Delivers :
    (ms : List Message) (answers : List Bool)
    → length ms ≤ successes answers
    → Delivers [] ms answers (await_all ms answers)
unfolding await_all publish_with_backoff
await_all-Delivers [] answers h = (refl, refl, omega arith)
await_all-Delivers (m ∷ ms) [] h = absurd (omega (arith, h))
await_all-Delivers (m ∷ ms) (true ∷ answers) h =
    Delivers-next [] [] (m ∷ []) ms (true ∷ answers) (done (published m ∷ []) answers)
      (await_all ms) (refl, refl, omega arith) (omega (arith, h))
      (λ left enough. await_all-Delivers ms left enough)
await_all-Delivers (m ∷ ms) (false ∷ answers) h =
    Delivers-next [] [] (m ∷ []) ms answers _ (await_all ms)
      (Delivers-after (failed m ∷ []) [] (m ∷ []) answers _
        (Delivers-after (publish m ∷ []) [] (m ∷ []) answers _
          (retry-Delivers m 0 answers (omega (arith, h))) refl)
        refl)
      (omega (arith, h)) (λ left enough. await_all-Delivers ms left enough)

flat : List (List Message) → List Message
flat [] = []
flat (c ∷ cs) = c ++ flat cs

publish_chunks-Delivers :
    (cs : List (List Message)) (answers : List Bool)
    → length (flat cs) ≤ successes answers
    → Delivers cs (flat cs) answers (publish_chunks cs answers)
unfolding publish_chunks publish_batch_with_backoff flat
publish_chunks-Delivers [] answers h = (refl, refl, omega arith)
publish_chunks-Delivers (c ∷ cs) answers h =
    Delivers-next (c ∷ []) cs c (flat cs) answers _ (publish_chunks cs)
      (Delivers-after (publish_bulk c ∷ []) [] c answers _
        (await_all-Delivers c answers (omega (arith, h, length-append c (flat cs)))) refl)
      (omega (arith, h, length-append c (flat cs)))
      (λ left enough. publish_chunks-Delivers cs left enough)

length-drop_le : (n : ℕ) (ms : List Message) → length (drop n ms) ≤ length ms
length-drop_le zero ms = omega arith
length-drop_le (suc n) [] = omega arith
length-drop_le (suc n) (m ∷ ms) = omega (arith, length-drop_le n ms)

flat-chunks :
    (fuel : ℕ) (ms : List Message) → length ms ≤ fuel → flat (chunks fuel chunk_size ms) ≡ ms
unfolding flat
flat-chunks zero [] h = refl
flat-chunks zero (m ∷ ms) h = absurd (omega (arith, h))
flat-chunks (suc fuel) [] h = refl
flat-chunks (suc fuel) (m ∷ ms) h =
    ap (λ l. take 900 (m ∷ ms) ++ l)
      (flat-chunks fuel (drop 900 (m ∷ ms)) (omega (arith, h, length-drop_le 899 ms)))
    ∙ take-append-drop 900 (m ∷ ms)

take_le : (n : ℕ) (ms : List Message) → length (take n ms) ≤ n
take_le zero ms = omega arith
take_le (suc n) [] = omega arith
take_le (suc n) (m ∷ ms) = omega (arith, take_le n ms)

chunks-All : (fuel : ℕ) (ms : List Message) → All (λ c. length c ≤ 900) (chunks fuel chunk_size ms)
chunks-All zero ms = tt
chunks-All (suc fuel) [] = tt
chunks-All (suc fuel) (m ∷ ms) = (take_le 900 (m ∷ ms), chunks-All fuel (drop 900 (m ∷ ms)))

-- If the service's results have a success for each message, the publication of a batch comes to an
-- end: each message has been published once, in the order of the batch, whatever failures came before;
-- and every bulk that was handed over had at most 900 messages.
pub publish_batch-Delivers :
    (ms : List Message) (answers : List Bool)
    → length ms ≤ successes answers
    → (bs : List (List Message)) × Delivers bs ms answers (publish_batch ms answers)
      × All (λ c. length c ≤ 900) bs
unfolding publish_batch
publish_batch-Delivers ms answers enough =
    let cs = chunks (length ms) chunk_size ms in
    let whole : flat cs ≡ ms = flat-chunks (length ms) ms (omega arith) in
    (
      cs,
      subst (λ l. Delivers cs l answers (publish_chunks cs answers)) whole
          (publish_chunks-Delivers cs answers
            (subst (λ l. length l ≤ successes answers) (sym whole) enough)),
      chunks-All (length ms) ms,
    )
