-- ===== src/Subscribe/Handled.antt =====
-- Which messages a session of the subscription loop acks or nacks.
use aptos_etl.Prelude.{
  ℕ, ◌≡◌, refl, ap, sym, subst, true, false, Option, none, some, List, [], ◌∷◌, ◌++◌, map,
  Result-cases, returned, failed, stopped, Bool-cases, Option-cases, inl, inr, append_assoc,
  append-nil, arith,
}
use aptos_etl.Options.{IndexingRange}
use aptos_etl.Extract.{Metrics}
use aptos_etl.Extract.Interface.{Tables}
use aptos_etl.Extract.Publish.{Publication}
use aptos_etl.Subscribe.{
  Message, Round, Event, published, acked, nacked, Ending, shut_down, panicked, running,
  returned_error, Session, message_of, run_range, subscribe_and_extract,
}
use aptos_etl.Subscribe.Steps.{
  step-stopped, step-quiet, step-undecoded, step-acked, step-nacked, step-panicked,
}

module _ (t : Tables) where
  -- The messages that the loop is offered before the flag is set.
  abbrev pub offered : List (Round t) → List Message
  offered [] = []
  offered (r ∷ rounds) = elim r.terminated [
    | true ↦ []
    | false ↦ elim (message_of r.pull) [ none ↦ offered rounds | some m ↦ m ∷ offered rounds ]
  ]

  -- The messages that are acked, and those that are nacked, in order.
  abbrev pub acks_of : List (Event t) → List Message
  acks_of [] = []
  acks_of (published p ∷ es) = acks_of es
  acks_of (acked m ∷ es) = m ∷ acks_of es
  acks_of (nacked m ∷ es) = acks_of es

  abbrev pub nacks_of : List (Event t) → List Message
  nacks_of [] = []
  nacks_of (published p ∷ es) = nacks_of es
  nacks_of (acked m ∷ es) = nacks_of es
  nacks_of (nacked m ∷ es) = m ∷ nacks_of es

  -- All that were offered are acked, unless an error or a panic ended the session: then those before
  -- the one that failed, which is nacked, or before the one that panicked, which is neither.
  abbrev pub Handles : List (Event t) → Ending t → List Message → Type 0
  Handles es shut_down ms = (acks_of es ≡ ms) × (nacks_of es ≡ [])
  Handles es running ms = (acks_of es ≡ ms) × (nacks_of es ≡ [])
  Handles es (returned_error x) ms =
      (m : Message) × (later : List Message) × (ms ≡ acks_of es ++ m ∷ later)
      × (nacks_of es ≡ m ∷ [])
  Handles es panicked ms =
      (m : Message) × (later : List Message) × (ms ≡ acks_of es ++ m ∷ later) × (nacks_of es ≡ [])

  acks_of-published :
      (ps : List (Publication t)) (es : List (Event t))
      → acks_of (map published ps ++ es) ≡ acks_of es
  acks_of-published [] es = refl
  acks_of-published (p ∷ ps) es = acks_of-published ps es

  nacks_of-published :
      (ps : List (Publication t)) (es : List (Event t))
      → nacks_of (map published ps ++ es) ≡ nacks_of es
  nacks_of-published [] es = refl
  nacks_of-published (p ∷ ps) es = nacks_of-published ps es

  Handles-published :
      (ps : List (Publication t)) (es : List (Event t)) (e : Ending t) (ms : List Message)
      → Handles es e ms
      → Handles (map published ps ++ es) e ms
  Handles-published [] es e ms h = h
  Handles-published (p ∷ ps) es e ms h = more e (Handles-published ps es e ms h)
    where
      more :
          (e : Ending t)
          → Handles (map published ps ++ es) e ms
          → Handles (published p ∷ (map published ps ++ es)) e ms
      more shut_down h = h
      more running h = h
      more (returned_error x) h = h
      more panicked h = h

  Handles-ack :
      (m : Message) (es : List (Event t)) (e : Ending t) (ms : List Message)
      → Handles es e ms
      → Handles (acked m ∷ es) e (m ∷ ms)
  Handles-ack m es shut_down ms (h, k) = (ap (λ l. m ∷ l) h, k)
  Handles-ack m es running ms (h, k) = (ap (λ l. m ∷ l) h, k)
  Handles-ack m es (returned_error x) ms (m', later, h, k) = (m', later, ap (λ l. m ∷ l) h, k)
  Handles-ack m es panicked ms (m', later, h, k) = (m', later, ap (λ l. m ∷ l) h, k)

  Handles-acked :
      (ps : List (Publication t)) (m : Message) (es : List (Event t)) (e : Ending t)
      (ms : List Message)
      → Handles es e ms
      → Handles ((map published ps ++ acked m ∷ []) ++ es) e (m ∷ ms)
  Handles-acked ps m es e ms h =
      rw (append_assoc (map {B = Event t} published ps) (acked m ∷ []) es)
        (Handles-published ps (acked m ∷ es) e (m ∷ ms) (Handles-ack m es e ms h))

  abbrev HandlesSession : List Message → Session t → Type 0
  HandlesSession ms s = Handles s.events s.ending ms

module _ (t : Tables) (decode : List ℕ → Option IndexingRange) where
  module _ (metrics : Option Metrics) (r : Round t) (rounds : List (Round t)) where
    offered-stopped : r.terminated ≡ true → offered t (r ∷ rounds) ≡ []
    offered-stopped stop = rw stop refl

    offered-quiet :
        r.terminated ≡ false → message_of r.pull ≡ none → offered t (r ∷ rounds) ≡ offered t rounds
    offered-quiet more quiet = ground arith

    offered-found :
        (m : Message)
        → r.terminated ≡ false
        → message_of r.pull ≡ some m
        → offered t (r ∷ rounds) ≡ m ∷ offered t rounds
    offered-found m more found = ground arith

  -- A session acks, in order, the messages that it is offered before the flag is set: all of them if
  -- it is shut down or still running, those before the failed one if it returns an error, and those
  -- before the one that panics otherwise. It nacks the failed one, and no other message.
  pub subscribe_and_extract-Handles :
      (metrics : Option Metrics) (rounds : List (Round t))
      → Handles t
          (subscribe_and_extract t decode metrics rounds).events
          (subscribe_and_extract t decode metrics rounds).ending
          (offered t rounds)
  subscribe_and_extract-Handles metrics [] = unfold subscribe_and_extract in (refl, refl)
  subscribe_and_extract-Handles metrics (r ∷ rounds) = elim (Bool-cases r.terminated) [
    | inl stop ↦ rw (offered-stopped metrics r rounds stop) (
        subst (HandlesSession t []) (sym (step-stopped t decode metrics r rounds stop))
          (refl, refl))
    | inr more ↦ elim (Option-cases (message_of r.pull)) [
      | inl quiet ↦ rw (offered-quiet metrics r rounds more quiet) (
          subst (HandlesSession t (offered t rounds))
            (sym (step-quiet t decode metrics r rounds more quiet))
            (subscribe_and_extract-Handles metrics rounds))
      | inr (m, found) ↦
          rw (offered-found metrics r rounds m more found) (elim (Option-cases (decode m.bytes)) [
            | inl bad ↦
                subst (HandlesSession t (m ∷ offered t rounds))
                  (sym (step-undecoded t decode metrics r rounds m more found bad))
                  (m, offered t rounds, refl, refl)
            | inr (range, good) ↦
                let run = run_range t decode r.server metrics range in
                elim (Result-cases (run_range t decode r.server metrics range).result) [
                  | returned u e ↦
                      subst (HandlesSession t (m ∷ offered t rounds))
                        (sym (step-acked t decode metrics r rounds m more found range good e))
                        (Handles-acked t run.published m _ _ (offered t rounds) (
                          subscribe_and_extract-Handles
                            (run_range t decode r.server metrics range).metrics rounds))
                  | failed x e ↦
                      subst (HandlesSession t (m ∷ offered t rounds))
                        (sym (step-nacked t decode metrics r rounds m more found range good e))
                        (Handles-published t run.published (nacked m ∷ []) (returned_error x)
                          (m ∷ offered t rounds) (m, offered t rounds, refl, refl))
                  | stopped e ↦
                      subst (HandlesSession t (m ∷ offered t rounds))
                        (sym (step-panicked t decode metrics r rounds m more found range good e))
                        (subst (λ es. Handles t es panicked (m ∷ offered t rounds))
                          (append-nil (map {B = Event t} published run.published))
                          (Handles-published t run.published [] panicked (m ∷ offered t rounds)
                            (m, offered t rounds, refl, refl)))
                ]
          ])
    ]
  ]
