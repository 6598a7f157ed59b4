-- ===== src/Subscribe/Settled.antt =====
-- What a session of the subscription loop does with its messages.
use aptos_etl.Prelude.{
  ℕ, ◌≡◌, sym, subst, Option, some, List, [], ◌∷◌, ◌++◌, map, ok, err, panic, true, false, none,
  Result-cases, returned, failed, stopped, Bool-cases, Option-cases, ◌⊎◌, inl, inr, refl, ap,
  append_assoc,
}
use aptos_etl.Options.{IndexingRange}
use aptos_etl.Extract.{Metrics, Run, extract_range}
use aptos_etl.Extract.Interface.{Tables, ExtractionInteruptionError}
use aptos_etl.Subscribe.{
  Message, Round, Event, published, acked, nacked, Ending, shut_down, panicked, running,
  returned_error, Session, Pulled, messages, pull_failed, pop, message_of, subscribe_and_extract,
}
use aptos_etl.Subscribe.Steps.{
  step-stopped, step-quiet, step-undecoded, step-acked, step-nacked, step-panicked, nothing_sent,
}

-- The message that is taken is the last of those that were pulled.
abbrev pub Takes : Pulled → Message → Type 0
Takes p m = (front : List Message) × (p ≡ messages (front ++ m ∷ []))

abbrev pub IsEmpty : Pulled → Type 0
IsEmpty p = (p ≡ pull_failed) ⊎ (p ≡ messages [])

pop-last :
    (ms : List Message) (m : Message)
    → pop ms ≡ some m
    → (front : List Message) × (ms ≡ front ++ m ∷ [])
pop-last [] m h = absurd (cc)
pop-last (a ∷ []) m h = ([], cc)
pop-last (a ∷ b ∷ ms) m h = let (front, e) = pop-last (b ∷ ms) m h in (a ∷ front, ap (λ l. a ∷ l) e)

pop-none : (ms : List Message) → pop ms ≡ none → ms ≡ []
pop-none [] h = refl
pop-none (a ∷ []) h = absurd (cc)
pop-none (a ∷ b ∷ ms) h = let e : b ∷ ms ≡ [] = pop-none (b ∷ ms) h in absurd (cc)

message_of-Takes : (p : Pulled) (m : Message) → message_of p ≡ some m → Takes p m
message_of-Takes (messages ms) m h = let (front, e) = pop-last ms m h in (front, ap messages e)
message_of-Takes pull_failed m h = absurd (cc)

message_of-IsEmpty : (p : Pulled) → message_of p ≡ none → IsEmpty p
message_of-IsEmpty (messages ms) h = inr (ap messages (pop-none ms h))
message_of-IsEmpty pull_failed h = inl refl

module _ (t : Tables) (decode : List ℕ → Option IndexingRange) where
  -- The call for a range in a round.
  abbrev pub call : Round t → Option Metrics → IndexingRange → Run t
  call r metrics range = extract_range t r.server range.start range.end metrics range.table

  -- What a session has done over some rounds, from some metrics on. The rounds before the flag is set
  -- that have a message end in one of four ways, by the call for the range of the message with the
  -- round's own server: an ack, behind all that the call has published, when the call succeeds; a
  -- nack, with nothing published, when it returns an error, with which the session ends; nothing but
  -- what was published when it panics; and a panic when there is no range in the message.
  pub data Settled
      : Option Metrics → List (Round t) → List (Event t) → Ending t → Option Metrics → Type 0 where
    goes_on : (m : Option Metrics) → Settled m [] [] running m
    shut :
        (m : Option Metrics) (r : Round t) (rounds : List (Round t))
        → r.terminated ≡ true
        → Settled m (r ∷ rounds) [] shut_down m
    quiet :
        {m m' : Option Metrics} (r : Round t) {rounds : List (Round t)} {es : List (Event t)}
        {e : Ending t}
        → r.terminated ≡ false
        → IsEmpty r.pull
        → Settled m rounds es e m'
        → Settled m (r ∷ rounds) es e m'
    undecoded :
        (m : Option Metrics) (r : Round t) (rounds : List (Round t)) (msg : Message)
        → r.terminated ≡ false
        → Takes r.pull msg
        → decode msg.bytes ≡ none
        → Settled m (r ∷ rounds) [] panicked m
    acks :
        {m m' : Option Metrics} (r : Round t) {rounds : List (Round t)} (msg : Message)
        (range : IndexingRange) {es : List (Event t)} {e : Ending t}
        → r.terminated ≡ false
        → Takes r.pull msg
        → decode msg.bytes ≡ some range
        → (call r m range).result ≡ ok tt
        → Settled (call r m range).metrics rounds es e m'
        → Settled m (r ∷ rounds) (map published (call r m range).published ++ acked msg ∷ es) e m'
    nacks :
        (m : Option Metrics) (r : Round t) (rounds : List (Round t)) (msg : Message)
        (range : IndexingRange) {x : ExtractionInteruptionError t}
        → r.terminated ≡ false
        → Takes r.pull msg
        → decode msg.bytes ≡ some range
        → (call r m range).result ≡ err x
        → Settled m (r ∷ rounds) (nacked msg ∷ []) (returned_error x) (call r m range).metrics
    crashes :
        (m : Option Metrics) (r : Round t) (rounds : List (Round t)) (msg : Message)
        (range : IndexingRange)
        → r.terminated ≡ false
        → Takes r.pull msg
        → decode msg.bytes ≡ some range
        → (call r m range).result ≡ panic
        → Settled m
            (r ∷ rounds)
            (map published (call r m range).published)
            panicked
            (call r m range).metrics

  abbrev SettledSession : Option Metrics → List (Round t) → Session t → Type 0
  SettledSession metrics rounds s = Settled metrics rounds s.events s.ending s.metrics

  -- Every session settles its messages, round by round, whatever the queue and the servers answer: a
  -- message whose call succeeds is acked right after all that the call has published, and the session
  -- goes on; one whose call returns an error is nacked, with nothing published, and the session
  -- returns that error; the session panics with a call, or at a message without a range.
  pub subscribe_and_extract-Settled :
      (metrics : Option Metrics) (rounds : List (Round t))
      → Settled metrics rounds
          (subscribe_and_extract t decode metrics rounds).events
          (subscribe_and_extract t decode metrics rounds).ending
          (subscribe_and_extract t decode metrics rounds).metrics
  unfolding subscribe_and_extract
  subscribe_and_extract-Settled metrics [] = goes_on metrics
  subscribe_and_extract-Settled metrics (r ∷ rounds) = elim (Bool-cases r.terminated) [
    | inl stop ↦
        subst (SettledSession metrics (r ∷ rounds))
          (sym (step-stopped t decode metrics r rounds stop)) (shut metrics r rounds stop)
    | inr more ↦ elim (Option-cases (message_of r.pull)) [
      | inl no_message ↦
          subst (SettledSession metrics (r ∷ rounds))
            (sym (step-quiet t decode metrics r rounds more no_message))
            (quiet r more (message_of-IsEmpty r.pull no_message)
              (subscribe_and_extract-Settled metrics rounds))
      | inr (m, found) ↦ elim (Option-cases (decode m.bytes)) [
        | inl bad ↦
            subst (SettledSession metrics (r ∷ rounds))
              (sym (step-undecoded t decode metrics r rounds m more found bad))
              (undecoded metrics r rounds m more (message_of-Takes r.pull m found) bad)
        | inr (range, good) ↦ elim (Result-cases (call r metrics range).result) [
          | returned u e ↦
              subst (SettledSession metrics (r ∷ rounds))
                (sym (step-acked t decode metrics r rounds m more found range good e))
                (rw
                  (append_assoc (map {B = Event t} published (call r metrics range).published)
                    (acked m ∷ [])
                    (subscribe_and_extract t decode (call r metrics range).metrics rounds).events)
                  (acks r m range more (message_of-Takes r.pull m found) good e
                    (subscribe_and_extract-Settled (call r metrics range).metrics rounds)))
          | failed x e ↦
              subst (SettledSession metrics (r ∷ rounds))
                (sym (step-nacked t decode metrics r rounds m more found range good e))
                (rw (nothing_sent t decode r.server metrics range e)
                  (nacks metrics r rounds m range more (message_of-Takes r.pull m found) good e))
          | stopped e ↦
              subst (SettledSession metrics (r ∷ rounds))
                (sym (step-panicked t decode metrics r rounds m more found range good e))
                (crashes metrics r rounds m range more (message_of-Takes r.pull m found) good e)
        ]
      ]
    ]
  ]
