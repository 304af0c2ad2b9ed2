-- ===== src/Siem.antt =====
-- `SIEMExporter` of sentinel/observability/siem_exporter.py: its outbox and `_flush`. A record is the
-- line that `enqueue` makes of it; the transport is a parameter. While a send is awaited more lines
-- may be enqueued: those that arrive during each send of a flush are given as a list.
pub mod Delivery
pub mod Loop
pub mod Transports
use osl_agent_sentinel.Prelude.{
  ℕ, zero, suc, ◌+◌, ◌-◌, min, String, List, [], ◌∷◌, ◌++◌, length, take, drop, Outcome, ok, err,
}

-- A transport acts on a world of its own: what has arrived, and whatever it keeps.
abbrev pub Transport : Type 0 → Type 0
Transport T = List String → T → Outcome (Unit {0}) × T

pub record Exporter : Type 0 where
  pub max_outbox : ℕ
  pub batch_size : ℕ
  pub outbox : List String

-- `deque(maxlen=max_outbox)`: an append to a full one drops the first element.
unfoldable pub append_bounded : ℕ → List String → String → List String
append_bounded max_outbox outbox line =
    drop (suc (length outbox) - max_outbox) (outbox ++ line ∷ [])

unfoldable pub enqueue : Exporter → String → Exporter
unfolding append_bounded
enqueue e line = record e { outbox = append_bounded e.max_outbox e.outbox line }

unfoldable pub enqueue_all : Exporter → List String → Exporter
unfolding enqueue
enqueue_all e [] = e
enqueue_all e (line ∷ lines) = enqueue_all (enqueue e line) lines

-- What arrives during the next send, during the later ones, and how many lines these are.
abbrev pub next_arrivals : List (List String) → List String
next_arrivals [] = []
next_arrivals (lines ∷ _) = lines

abbrev pub later_arrivals : List (List String) → List (List String)
later_arrivals [] = []
later_arrivals (_ ∷ arrivals) = arrivals

abbrev pub total : List (List String) → ℕ
total [] = 0
total (lines ∷ arrivals) = length lines + total arrivals

abbrev pub Flushed : Type 0 → Type 0
Flushed T = Outcome (Unit {0}) × Exporter × T

-- `min(self._batch_size, len(self._outbox))`
abbrev pub batch_length : Exporter → List String → ℕ
batch_length e lines = min e.batch_size (length lines)

module _ {T : Type 0} (send : Transport T) where
  abbrev pub after_send : Outcome (Unit {0}) → Exporter → T → (Exporter → T → Flushed T) → Flushed T
  after_send (ok _) e t next = next e t
  after_send (err x) e t next = (err x, e, t)

  -- A round of the loop, from the batch that it has taken out of the outbox and the lines that arrive
  -- while it is sent.
  abbrev pub send_batch :
      List String → List String → Exporter → T → (Exporter → T → Flushed T) → Flushed T
  send_batch [] arriving e t next = (ok tt, e, t)
  send_batch (line ∷ lines) arriving e t next =
      let (sent, t') = send (line ∷ lines) t in after_send sent (enqueue_all e arriving) t' next

  -- The loop of `_flush`, on fuel.
  unfoldable pub flush_loop : ℕ → List (List String) → Exporter → T → Flushed T
  flush_loop zero arrivals e t = (ok tt, e, t)
  flush_loop (suc n) arrivals e t = elim e.outbox [
    | [] ↦ (ok tt, e, t)
    | line ∷ lines ↦
        let size = batch_length e (line ∷ lines) in
        send_batch (take size (line ∷ lines)) (next_arrivals arrivals)
          (record e { outbox = drop size (line ∷ lines) }) t
          (flush_loop n (later_arrivals arrivals))
  ]

  -- A round that goes on has taken a line, so as many rounds as there are lines in the outbox and
  -- still to arrive are enough.
  unfoldable pub flush : List (List String) → Exporter → T → Flushed T
  unfolding flush_loop
  flush arrivals e t = flush_loop (length e.outbox + total arrivals) arrivals e t
