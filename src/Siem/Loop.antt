-- ===== src/Siem/Loop.antt =====
-- `_run` of siem_exporter.py, that rounds of flushing end, and what the wait between them is.
use osl_agent_sentinel.Prelude.{
  ℕ, zero, suc, ◌+◌, ◌∙◌, ◌⊎◌, inl, inr, Error, subst, ◌*◌, ◌≤◌, ◌<◌, ◌≡◌, refl, sym, arith, min,
  String, List, [], ◌∷◌, length, take, drop, Outcome, ok, err,
}
use osl_agent_sentinel.Siem.{
  Transport, Exporter, Flushed, after_send, send_batch, batch_length, flush_loop, flush, enqueue,
  enqueue_all, next_arrivals, later_arrivals, total,
}
use osl_agent_sentinel.Siem.Delivery.{
  enqueue-le, enqueue_all-le, enqueue_all-grows, length-drop, length-take,
}

module _ {T : Type 0} (send : Transport T) where
  -- The flush stopped by itself: the outbox is empty, the transport raised, or batches hold no line.
  abbrev pub IsEnded : ℕ → Flushed T → Type 0
  IsEnded batch_size flushed =
      (flushed.1.outbox ≡ []) ⊎ ((x : Error) × (flushed.0 ≡ err x)) ⊎ (batch_size ≡ 0)

  -- Two ways to go on after a send have the same result, one at which the flush ends.
  abbrev Ends : ℕ → Flushed T → Flushed T → Type 0
  Ends batch_size f g = (f ≡ g) × IsEnded batch_size f

  after_send-Ends :
      (batch_size : ℕ) (sent : Outcome (Unit {0})) (e : Exporter) (t : T)
      (next next' : Exporter → T → Flushed T)
      → Ends batch_size (next e t) (next' e t)
      → Ends batch_size (after_send send sent e t next) (after_send send sent e t next')
  after_send-Ends batch_size (ok _) e t next next' h = h
  after_send-Ends batch_size (err x) e t next next' h = (refl, inr (inl (x, refl)))

  send_batch-Ends :
      (batch_size : ℕ) (batch arriving : List String) (e : Exporter) (t : T)
      (next next' : Exporter → T → Flushed T)
      → (batch_size ≡ 0) ⊎ (0 < length batch)
      → ((t' : T)
          → 0 < length batch
          → Ends batch_size (next (enqueue_all e arriving) t') (next' (enqueue_all e arriving) t'))
      → Ends batch_size
          (send_batch send batch arriving e t next)
          (send_batch send batch arriving e t next')
  send_batch-Ends batch_size [] arriving e t next next' (inl none) h = (refl, inr (inr none))
  send_batch-Ends batch_size [] arriving e t next next' (inr taken) h =
      absurd (omega (arith, taken))
  send_batch-Ends batch_size (line ∷ lines) arriving e t next next' c h =
      let (sent, t') = send (line ∷ lines) t in
      after_send-Ends batch_size sent (enqueue_all e arriving) t' next next' (h t' (omega arith))

  total-next :
      (arrivals : List (List String))
      → length (next_arrivals arrivals) + total (later_arrivals arrivals) ≡ total arrivals
  total-next [] = refl
  total-next (lines ∷ arrivals) = refl

  length-take-min :
      (k : ℕ) (line : String) (lines : List String)
      → (k ≡ 0) ⊎ (0 < length (take (min k (suc (length lines))) (line ∷ lines)))
  length-take-min zero line lines = inl refl
  length-take-min (suc k) line lines =
      let e : min (suc k) (suc (length lines)) ≡ suc (min k (length lines)) = omega arith in
      inr (rw e (omega arith))

  rounds-Ends :
      (n m : ℕ) (arrivals : List (List String)) (e : Exporter) (lines : List String) (t : T)
      → length lines + total arrivals ≤ n
      → length lines + total arrivals ≤ m
      → Ends e.batch_size
          (flush_loop send n arrivals (record e { outbox = lines }) t)
          (flush_loop send m arrivals (record e { outbox = lines }) t)
  unfolding flush_loop
  rounds-Ends zero zero arrivals e [] t h h' = (refl, inl refl)
  rounds-Ends zero (suc m) arrivals e [] t h h' = (refl, inl refl)
  rounds-Ends (suc n) zero arrivals e [] t h h' = (refl, inl refl)
  rounds-Ends (suc n) (suc m) arrivals e [] t h h' = (refl, inl refl)
  rounds-Ends zero m arrivals e (line ∷ lines) t h h' = absurd (omega (arith, h))
  rounds-Ends (suc n) zero arrivals e (line ∷ lines) t h h' = absurd (omega (arith, h'))
  rounds-Ends (suc n) (suc m) arrivals e (line ∷ lines) t h h' =
      let size = batch_length e (line ∷ lines) in
      let left : Exporter = record e { outbox = drop size (line ∷ lines) } in
      let grown : Exporter = enqueue_all left (next_arrivals arrivals) in
      let (few, _, same) = enqueue_all-grows left (next_arrivals arrivals) in
      send_batch-Ends e.batch_size (take size (line ∷ lines)) (next_arrivals arrivals) left t
        (flush_loop send n (later_arrivals arrivals)) (flush_loop send m (later_arrivals arrivals))
        (length-take-min e.batch_size line lines)
        (λ t' taken.
          let some_taken : 1 ≤ size = omega (arith, length-take size (line ∷ lines), taken) in
          let fewer : length grown.outbox + total (later_arrivals arrivals)
              ≤ length lines + total arrivals =
            omega (arith, few, some_taken, length-drop size (line ∷ lines), total-next arrivals) in
          subst
            (λ b.
              Ends b (flush_loop send n (later_arrivals arrivals) grown t')
                (flush_loop send m (later_arrivals arrivals) grown t'))
            same
            (rounds-Ends n m (later_arrivals arrivals) grown grown.outbox t'
              (omega (arith, fewer, h)) (omega (arith, fewer, h'))))

  -- However many lines are enqueued while its batches are sent, as long as there are finitely many,
  -- the loop of `_flush` ends by itself: with any number of rounds that reaches the lines in the
  -- outbox and still to arrive, the outbox is empty, the transport raised or the batches hold no line,
  -- and more rounds change nothing, over any transport.
  pub flush_loop-Terminates :
      (n m : ℕ) (arrivals : List (List String)) (e : Exporter) (t : T)
      → length e.outbox + total arrivals ≤ n
      → length e.outbox + total arrivals ≤ m
      → (flush_loop send n arrivals e t ≡ flush_loop send m arrivals e t)
        × IsEnded e.batch_size (flush_loop send n arrivals e t)
  flush_loop-Terminates n m arrivals e t h h' = rounds-Ends n m arrivals e e.outbox t h h'

-- The exporter's task: the exporter, the state of the transport, the next wait after a failure and
-- the total time that was waited, in milliseconds.
pub record SiemTask (T : Type 0) : Type 0 where
  pub exporter : Exporter
  pub transport : T
  pub backoff : ℕ
  pub waited : ℕ

-- `start` and the head of `_run`
abbrev pub new_task : {T : Type 0} → Exporter → T → SiemTask T
new_task e t = record { exporter = e; transport = t; backoff = 500; waited = 0 }

-- What may happen to an exporter that runs: a record is enqueued between the rounds of its task, or
-- the task does a round, with the records that are enqueued during each of its sends.
pub data SiemEvent : Type 0 where
  enqueued : String → SiemEvent
  round_done : List (List String) → SiemEvent

module _ {T : Type 0} (send : Transport T) (flush_interval : ℕ) where
  abbrev pub after_flush : SiemTask T → Flushed T → SiemTask T
  after_flush task (ok _, e, t) = record {
    exporter = e;
    transport = t;
    backoff = 500;
    waited = task.waited + flush_interval;
  }
  after_flush task (err x, e, t) = record {
    exporter = e;
    transport = t;
    backoff = min (task.backoff * 2) 30_000;
    waited = task.waited + flush_interval + task.backoff;
  }

  -- A round of the loop of `_run`.
  unfoldable pub run_round : List (List String) → SiemTask T → SiemTask T
  unfolding flush
  run_round arrivals task = after_flush task (flush send arrivals task.exporter task.transport)

  abbrev pub on_event : SiemTask T → SiemEvent → SiemTask T
  on_event task (enqueued line) = record task { exporter = enqueue task.exporter line }
  on_event task (round_done arrivals) = run_round arrivals task

  abbrev pub run_events : SiemTask T → List SiemEvent → SiemTask T
  run_events task [] = task
  run_events task (event ∷ events) = run_events (on_event task event) events

  -- `stop` cancels the task and flushes once more.
  abbrev pub stop_exporter : List (List String) → SiemTask T → Flushed T
  stop_exporter arrivals task = flush send arrivals task.exporter task.transport

  abbrev Keeps : ℕ → ℕ → Flushed T → Type 0
  Keeps bound size flushed = (flushed.1.max_outbox ≡ bound) × (length flushed.1.outbox ≤ size)

  after_send-Keeps :
      (bound size : ℕ) (sent : Outcome (Unit {0})) (e : Exporter) (t : T)
      (next : Exporter → T → Flushed T)
      → Keeps bound size (ok tt, e, t)
      → Keeps bound size (next e t)
      → Keeps bound size (after_send send sent e t next)
  after_send-Keeps bound size (ok _) e t next now later = later
  after_send-Keeps bound size (err x) e t next now later = now

  send_batch-Keeps :
      (bound : ℕ) (batch arriving : List String) (e : Exporter) (t : T)
      (next : Exporter → T → Flushed T)
      → Keeps bound bound (ok tt, e, t)
      → ((t' : T) → Keeps bound bound (next (enqueue_all e arriving) t'))
      → Keeps bound bound (send_batch send batch arriving e t next)
  send_batch-Keeps bound [] arriving e t next now later = now
  send_batch-Keeps bound (line ∷ lines) arriving e t next (same, small) later =
      let (sent, t') = send (line ∷ lines) t in
      let (_, m, _) = enqueue_all-grows e arriving in
      let le : length e.outbox ≤ e.max_outbox = omega (arith, same, small) in
      let kept = enqueue_all-le e arriving le in
      after_send-Keeps bound bound sent (enqueue_all e arriving) t' next
        (m ∙ same, omega (arith, kept, same)) (later t')

  flush_loop-Keeps :
      (n : ℕ) (arrivals : List (List String)) (e : Exporter) (lines : List String) (t : T)
      → length lines ≤ e.max_outbox
      → Keeps e.max_outbox e.max_outbox (flush_loop send n arrivals (record e { outbox = lines }) t)
  unfolding flush_loop
  flush_loop-Keeps zero arrivals e lines t h = (refl, h)
  flush_loop-Keeps (suc n) arrivals e [] t h = (refl, omega arith)
  flush_loop-Keeps (suc n) arrivals e (line ∷ lines) t h =
      let taken = batch_length e (line ∷ lines) in
      let left : Exporter = record e { outbox = drop taken (line ∷ lines) } in
      let grown : Exporter = enqueue_all left (next_arrivals arrivals) in
      let (_, same, _) = enqueue_all-grows left (next_arrivals arrivals) in
      let small : length left.outbox ≤ e.max_outbox =
        omega (arith, length-drop taken (line ∷ lines), h) in
      let kept = enqueue_all-le left (next_arrivals arrivals) small in
      send_batch-Keeps e.max_outbox (take taken (line ∷ lines)) (next_arrivals arrivals) left t
        (flush_loop send n (later_arrivals arrivals)) (refl, small)
        (λ t'.
          subst (λ b. Keeps b b (flush_loop send n (later_arrivals arrivals) grown t')) same
            (flush_loop-Keeps n (later_arrivals arrivals) grown grown.outbox t'
              (omega (arith, kept, same))))

  abbrev pub IsBounded : ℕ → SiemTask T → Type 0
  IsBounded bound task =
      (task.exporter.max_outbox ≡ bound)
      × (length task.exporter.outbox ≤ bound)
      × (500 ≤ task.backoff)
      × (task.backoff ≤ 30_000)

  after_flush-IsBounded :
      (bound : ℕ) (task : SiemTask T) (flushed : Flushed T)
      → IsBounded bound task
      → Keeps bound bound flushed
      → IsBounded bound (after_flush task flushed)
  after_flush-IsBounded bound task (ok _, e, t) h (m, l) = (m, l, omega arith, omega arith)
  after_flush-IsBounded bound task (err x, e, t) (_, _, low, high) (m, l) =
      (m, l, omega (arith, low), omega arith)

  on_event-IsBounded :
      (bound : ℕ) (task : SiemTask T) (event : SiemEvent)
      → IsBounded bound task
      → IsBounded bound (on_event task event)
  unfolding run_round enqueue flush
  on_event-IsBounded bound task (enqueued line) (m, l, low, high) = (
    m,
    subst (λ b. length (enqueue task.exporter line).outbox ≤ b) m (enqueue-le task.exporter line),
    low,
    high,
  )
  on_event-IsBounded bound task (round_done arrivals) (m, l, low, high) =
      after_flush-IsBounded bound task (flush send arrivals task.exporter task.transport)
        (m, l, low, high)
        (subst (λ b. Keeps b b (flush send arrivals task.exporter task.transport)) m
          (flush_loop-Keeps (length task.exporter.outbox + total arrivals) arrivals task.exporter
            task.exporter.outbox task.transport (omega (arith, l, m))))

  all-IsBounded :
      (bound : ℕ) (task : SiemTask T) (events : List SiemEvent)
      → IsBounded bound task
      → IsBounded bound (run_events task events)
  all-IsBounded bound task [] h = h
  all-IsBounded bound task (event ∷ events) h =
      all-IsBounded bound (on_event task event) events (on_event-IsBounded bound task event h)

  -- An exporter that starts empty keeps within its bounds whatever the transport does and whenever
  -- records are enqueued, between rounds or during the sends of one: the outbox never exceeds its limit, and the wait after a failure is
  -- between half a second and thirty seconds.
  pub run_events-IsBounded :
      (e : Exporter) (t : T) (events : List SiemEvent)
      → e.outbox ≡ []
      → IsBounded e.max_outbox (run_events (new_task e t) events)
  run_events-IsBounded e t events empty = all-IsBounded e.max_outbox (new_task e t) events (
    refl,
    subst (λ xs. length xs ≤ e.max_outbox) (sym empty) (omega arith),
    omega arith,
    omega arith,
  )
