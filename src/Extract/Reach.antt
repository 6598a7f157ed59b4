-- ===== src/Extract/Reach.antt =====
-- How far the loop over the transactions gets: the version that an error names, and the transactions of
-- a range that is complete.
use aptos_etl.Prelude.{
  ℕ, zero, suc, ◌+◌, ◌≡◌, ◌⊎◌, inl, inr, refl, ap, ◌++◌, ◌∙◌, true, false, Option, none, some, List,
  [], ◌∷◌, map, All, Result, ok, err, panic, arith, ◌==◌, Bool-cases, Result-cases, returned,
  failed, stopped,
}
use aptos_etl.Options.{TableOptions}
use aptos_etl.Extract.Interface.{
  Tables, ExtractError, ExtractionInteruptionError, Status, stream_error_status,
}
use aptos_etl.Extract.Collect.{Buffers, add_tx}
use aptos_etl.Extract.Loop.{LoopEnd, reached, exhausted, interrupted, panicked}
use aptos_etl.Extract.Spec.{
  at_end, one_by_one, one_by_one-last, one_by_one-more, one_by_one-failed, one_by_one-stopped,
}
use aptos_etl.Extract.Rows.{up_to}
use aptos_etl.Extract.Converting.{Converts, add_tx-Converts}

-- The versions `start`, `start + 1`, and so on, `n` of them.
abbrev pub versions_from : ℕ → ℕ → List ℕ
versions_from start zero = []
versions_from start (suc n) = start ∷ versions_from (start + 1) n

module _ (t : Tables) where
  -- The last version of a list, or the current one.
  abbrev pub last_of : ℕ → List ℕ → ℕ
  last_of cur [] = cur
  last_of cur (v ∷ vs) = last_of v vs

  abbrev pub Adds : TableOptions → t.Tx → Type 0
  Adds o tx = (b : Buffers t) × (b' : Buffers t) × (add_tx t o b tx ≡ ok b')

  -- The transaction with the version gave the error, and those before it gave none; or the stream
  -- broke with it, and the version is the last that was delivered, or the current one without any.
  abbrev pub Names : TableOptions → ℕ → List t.Tx → Option Status → ExtractError t → ℕ → Type 0
  Names o cur txs s e v =
      ((done : List t.Tx) × (tx : t.Tx) × (rest : List t.Tx) × (txs ≡ done ++ tx ∷ rest)
        × All (Adds o) done
        × ((b : Buffers t) × (add_tx t o b tx ≡ err e))
        × (v ≡ t.version tx))
      ⊎ ((st : Status) × (s ≡ some st)
          × (e ≡ stream_error_status st)
          × (v ≡ last_of cur (map t.version txs)))

  abbrev pub FailsOn : TableOptions → ℕ → List t.Tx → Option Status → LoopEnd t → Type 0
  FailsOn o cur txs s (interrupted e v) = Names o cur txs s e v
  FailsOn o cur txs s (reached b) = Unit
  FailsOn o cur txs s exhausted = Unit
  FailsOn o cur txs s panicked = Unit

  FailsOn-cons :
      (o : TableOptions) (cur : ℕ) (tx : t.Tx) (txs : List t.Tx) (s : Option Status) (l : LoopEnd t)
      → Adds o tx
      → FailsOn o (t.version tx) txs s l
      → FailsOn o cur (tx ∷ txs) s l
  FailsOn-cons o cur tx txs s (interrupted e v) a (inl (done, bad, rest, split, all, fails, at)) =
      inl (tx ∷ done, bad, rest, ap (λ l. tx ∷ l) split, (a, all), fails, at)
  FailsOn-cons o cur tx txs s (interrupted e v) a (inr h) = inr h
  FailsOn-cons o cur tx txs s (reached b) a h = tt
  FailsOn-cons o cur tx txs s exhausted a h = tt
  FailsOn-cons o cur tx txs s panicked a h = tt

  at_end-FailsOn :
      (o : TableOptions) (cur : ℕ) (s : Option Status) → FailsOn o cur [] s (at_end t cur s)
  at_end-FailsOn o cur none = tt
  at_end-FailsOn o cur (some s) = inr (s, refl, refl, refl)

  pub one_by_one-FailsOn :
      (o : TableOptions) (end cur : ℕ) (b : Buffers t) (txs : List t.Tx) (s : Option Status)
      → FailsOn o cur txs s (one_by_one t o end cur b txs s)
  unfolding one_by_one
  one_by_one-FailsOn o end cur b [] s = at_end-FailsOn o cur s
  one_by_one-FailsOn o end cur b (tx ∷ txs) s = elim (Result-cases (add_tx t o b tx)) [
    | returned b' e ↦ elim (Bool-cases (t.version tx == end)) [
      | inl last ↦ rw (one_by_one-last t o end cur b tx txs s e last) tt
      | inr more ↦ rw (one_by_one-more t o end cur b tx txs s e more) (
          FailsOn-cons o cur tx txs s _ (b, b', e)
            (one_by_one-FailsOn o end (t.version tx) b' txs s))
    ]
    | failed x e ↦
        rw (one_by_one-failed t o end cur b tx txs s e) (inl ([], tx, txs, refl, tt, (b, e), refl))
    | stopped e ↦ rw (one_by_one-stopped t o end cur b tx txs s e) tt
  ]

  up_to-more :
      (end : ℕ) (tx : t.Tx) (txs pre : List t.Tx)
      → (t.version tx == end) ≡ false
      → up_to t end txs ≡ some pre
      → up_to t end (tx ∷ txs) ≡ some (tx ∷ pre)
  up_to-more end tx txs pre more h = rw (more, h) refl

  -- The error of a result, where there is one.
  abbrev pub error_of :
      ExtractionInteruptionError t
      → Result (ExtractionInteruptionError t) (Unit {0})
      → ExtractionInteruptionError t
  error_of x (err e) = e
  error_of x (ok u) = x
  error_of x panic = x

  -- Transactions that convert, with the versions of the range in order, are all collected.
  pub one_by_one_complete :
      (o : TableOptions) (end n start cur : ℕ) (b : Buffers t) (txs : List t.Tx) (s : Option Status)
      → end ≡ start + n
      → map t.version txs ≡ versions_from start (suc n)
      → All (Converts t) txs
      → (b' : Buffers t) × (one_by_one t o end cur b txs s ≡ reached b')
        × (up_to t end txs ≡ some txs)
  one_by_one_complete o end n start cur b [] s at h conv = cc
  one_by_one_complete o end zero start cur b (tx ∷ []) s at h conv =
      let (b', e) = add_tx-Converts t o b tx conv.0 in
      let v : t.version tx ≡ start = cc in
      let last : (t.version tx == end) ≡ true = ground arith in
      (b', one_by_one-last t o end cur b tx [] s e last, rw last refl)
  one_by_one_complete o end (suc n) start cur b (tx ∷ tx' ∷ txs) s at h conv =
      let (b₁, e) = add_tx-Converts t o b tx conv.0 in
      let v : t.version tx ≡ start = cc in
      let more : (t.version tx == end) ≡ false = ground arith in
      let later : map t.version (tx' ∷ txs) ≡ versions_from (start + 1) (suc n) = cc in
      let (b', reaches, all) =
        one_by_one_complete o end n (start + 1) (t.version tx) b₁ (tx' ∷ txs) s (omega arith) later
          conv.1 in
      (
        b',
        one_by_one-more t o end cur b tx (tx' ∷ txs) s e more ∙ reaches,
        up_to-more end tx (tx' ∷ txs) (tx' ∷ txs) more all,
      )
  one_by_one_complete o end zero start cur b (tx ∷ tx' ∷ txs) s at h conv = cc
  one_by_one_complete o end (suc n) start cur b (tx ∷ []) s at h conv = cc
