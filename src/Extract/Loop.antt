-- ===== src/Extract/Loop.antt =====
-- The two loops of `extract_range`: over the responses of the stream, and over the transactions of
-- a response.
use aptos_etl.Prelude.{ℕ, true, false, List, [], ◌∷◌, Result, ok, err, panic, ◌==◌}
use aptos_etl.Options.{TableOptions}
use aptos_etl.Extract.Interface.{Tables, ExtractError, Status, stream_error_status}
use aptos_etl.Extract.Collect.{Buffers, add_tx}

module _ (t : Tables) where
  -- What `pull_from_stream` returns, call by call; after the last the stream is exhausted.
  pub data Pull : Type 0 where
    response : List t.Tx → Pull
    status : Status → Pull

  -- How the loop over the stream ends: by the version of the range's end, by the end of the stream,
  -- or by an error, with the version it occurred on.
  pub data LoopEnd : Type 0 where
    reached : Buffers t → LoopEnd
    exhausted : LoopEnd
    interrupted : ExtractError t → ℕ → LoopEnd
    panicked : LoopEnd

module _ (t : Tables) (o : TableOptions) (end : ℕ) where
  -- `cur_version` after the transactions of a response, and their buffers.
  unfoldable pub tx_loop : ℕ → Buffers t → List t.Tx → ℕ × Result (ExtractError t) (Buffers t)
  tx_loop cur b [] = (cur, ok b)
  tx_loop cur b (tx ∷ txs) = elim (add_tx t o b tx) [
    | ok b' ↦ elim (t.version tx == end) [
      | true ↦ (t.version tx, ok b')
      | false ↦ tx_loop (t.version tx) b' txs
    ]
    | err e ↦ (t.version tx, err e)
    | panic ↦ (t.version tx, panic)
  ]

  unfoldable pub pull_loop : ℕ → Buffers t → List (Pull t) → LoopEnd t
  pull_loop cur b [] = exhausted
  pull_loop cur b (status s ∷ pulls) = interrupted (stream_error_status s) cur
  pull_loop cur b (response txs ∷ pulls) =
      let (cur', r) = tx_loop cur b txs in
      elim r [
        | ok b' ↦ elim (cur' == end) [ true ↦ reached b' | false ↦ pull_loop cur' b' pulls ]
        | err e ↦ interrupted e cur'
        | panic ↦ panicked
      ]
