-- ===== src/Extract/Spec.antt =====
-- The loop over the stream does not depend on how the server cuts the transactions into responses.
use aptos_etl.Prelude.{
  ℕ, ◌≡◌, ◌≢◌, refl, ◌∙◌, true, false, Option, none, some, List, [], ◌∷◌, ◌++◌, Result, ok, err,
  panic, arith, ◌==◌, inl, inr, Bool-cases, suc, Result-cases, returned, failed, stopped,
}
use aptos_etl.Options.{TableOptions}
use aptos_etl.Extract.Interface.{Tables, ExtractError, Status, stream_error_status}
use aptos_etl.Extract.Collect.{Buffers, add_tx}
use aptos_etl.Extract.Loop.{
  Pull, response, status, LoopEnd, reached, exhausted, interrupted, panicked, tx_loop, pull_loop,
}

module _ (t : Tables) where
  -- The transactions of a stream, and the status that breaks it off, if any.
  abbrev pub delivered : List (Pull t) → List t.Tx
  delivered [] = []
  delivered (status s ∷ pulls) = []
  delivered (response txs ∷ pulls) = txs ++ delivered pulls

  abbrev pub broken_by : List (Pull t) → Option Status
  broken_by [] = none
  broken_by (status s ∷ pulls) = some s
  broken_by (response txs ∷ pulls) = broken_by pulls

  -- A first response that is empty ends the loop at once if the range has one version.
  abbrev pub StartsWell : ℕ → ℕ → List (Pull t) → Type 0
  StartsWell start end (response [] ∷ pulls) = start ≢ end
  StartsWell start end _ = Unit

  abbrev pub at_end : ℕ → Option Status → LoopEnd t
  at_end cur none = exhausted
  at_end cur (some s) = interrupted (stream_error_status s) cur

module _ (t : Tables) (o : TableOptions) (end : ℕ) where
  -- One transaction after another, up to the end of the range, the first error, or the end of what
  -- is delivered.
  unfoldable pub one_by_one : ℕ → Buffers t → List t.Tx → Option Status → LoopEnd t
  one_by_one cur b [] s = at_end t cur s
  one_by_one cur b (tx ∷ txs) s = elim (add_tx t o b tx) [
    | ok b' ↦ elim (t.version tx == end) [
      | true ↦ reached b'
      | false ↦ one_by_one (t.version tx) b' txs s
    ]
    | err e ↦ interrupted e (t.version tx)
    | panic ↦ panicked
  ]

  module _ (cur : ℕ) (b : Buffers t) (tx : t.Tx) (txs : List t.Tx) (s : Option Status) where
    pub one_by_one-last :
        {b' : Buffers t}
        → add_tx t o b tx ≡ ok b'
        → (t.version tx == end) ≡ true
        → one_by_one cur b (tx ∷ txs) s ≡ reached b'
    unfolding one_by_one
    one_by_one-last e last = ground arith

    pub one_by_one-more :
        {b' : Buffers t}
        → add_tx t o b tx ≡ ok b'
        → (t.version tx == end) ≡ false
        → one_by_one cur b (tx ∷ txs) s ≡ one_by_one (t.version tx) b' txs s
    unfolding one_by_one
    one_by_one-more e more = ground arith

    pub one_by_one-failed :
        {e : ExtractError t}
        → add_tx t o b tx ≡ err e
        → one_by_one cur b (tx ∷ txs) s ≡ interrupted e (t.version tx)
    unfolding one_by_one
    one_by_one-failed e = ground arith

    pub one_by_one-stopped : add_tx t o b tx ≡ panic → one_by_one cur b (tx ∷ txs) s ≡ panicked
    unfolding one_by_one
    one_by_one-stopped e = ground arith

  -- What the loop over the stream does with the outcome of a response.
  abbrev after_response : ℕ × Result (ExtractError t) (Buffers t) → List (Pull t) → LoopEnd t
  after_response (cur, r) pulls = elim r [
    | ok b ↦ elim (cur == end) [ true ↦ reached b | false ↦ pull_loop t o end cur b pulls ]
    | err e ↦ interrupted e cur
    | panic ↦ panicked
  ]

  pull_loop-response :
      (cur : ℕ) (b : Buffers t) (txs : List t.Tx) (pulls : List (Pull t))
      → pull_loop t o end cur b (response txs ∷ pulls)
        ≡ after_response (tx_loop t o end cur b txs) pulls
  unfolding pull_loop
  pull_loop-response cur b txs pulls = refl

  -- What is left to show for the responses after this one.
  abbrev Goes : List (Pull t) → Type 0
  Goes pulls =
      (cur : ℕ) (b : Buffers t)
      → cur ≢ end
      → pull_loop t o end cur b pulls ≡ one_by_one cur b (delivered t pulls) (broken_by t pulls)

  tx_loop-one_by_one :
      (cur : ℕ) (b : Buffers t) (txs : List t.Tx) (pulls : List (Pull t))
      → Goes pulls
      → cur ≢ end
      → after_response (tx_loop t o end cur b txs) pulls
        ≡ one_by_one cur b (txs ++ delivered t pulls) (broken_by t pulls)
  unfolding tx_loop one_by_one
  tx_loop-one_by_one cur b [] pulls rest ne = ground (arith, rest cur b ne)
  tx_loop-one_by_one cur b (tx ∷ txs) pulls rest ne = elim (Result-cases (add_tx t o b tx)) [
    | returned b' e ↦ elim (Bool-cases (t.version tx == end)) [
      | inl last ↦ ground arith
      | inr more ↦ ground (arith, tx_loop-one_by_one (t.version tx) b' txs pulls rest)
    ]
    | failed x e ↦ ground arith
    | stopped e ↦ ground arith
  ]

  pull_loop-Goes : (pulls : List (Pull t)) → Goes pulls
  unfolding pull_loop one_by_one
  pull_loop-Goes [] cur b ne = refl
  pull_loop-Goes (status s ∷ pulls) cur b ne = refl
  pull_loop-Goes (response txs ∷ pulls) cur b ne =
      tx_loop-one_by_one cur b txs pulls (pull_loop-Goes pulls) ne

  -- A response that is not empty is handled alike whatever the version before it.
  tx_loop-one_by_one_first :
      (cur : ℕ) (b : Buffers t) (tx : t.Tx) (txs : List t.Tx) (pulls : List (Pull t))
      → Goes pulls
      → after_response (tx_loop t o end cur b (tx ∷ txs)) pulls
        ≡ one_by_one cur b (tx ∷ txs ++ delivered t pulls) (broken_by t pulls)
  unfolding tx_loop one_by_one
  tx_loop-one_by_one_first cur b tx txs pulls rest =
      tx_loop-one_by_one (suc end) b (tx ∷ txs) pulls rest (omega arith)

  -- The loop over the stream is one loop over the transactions that the stream delivers, one by one:
  -- how the server cuts them into responses makes no difference, unless the range has one version and
  -- the first response is empty.
  pub pull_loop-one_by_one :
      (start : ℕ) (b : Buffers t) (pulls : List (Pull t))
      → StartsWell t start end pulls
      → pull_loop t o end start b pulls ≡ one_by_one start b (delivered t pulls) (broken_by t pulls)
  pull_loop-one_by_one start b [] h = unfold pull_loop one_by_one in refl
  pull_loop-one_by_one start b (status s ∷ pulls) h = unfold pull_loop one_by_one in refl
  pull_loop-one_by_one start b (response [] ∷ pulls) h =
      pull_loop-Goes (response [] ∷ pulls) start b h
  pull_loop-one_by_one start b (response (tx ∷ txs) ∷ pulls) h =
      pull_loop-response start b (tx ∷ txs) pulls
      ∙ tx_loop-one_by_one_first start b tx txs pulls (pull_loop-Goes pulls)
