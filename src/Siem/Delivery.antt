-- ===== src/Siem/Delivery.antt =====
-- What a flush of the outbox delivers, and what it can lose.
use mathlib.Core.List.{append-nil, append_assoc}
use osl_agent_sentinel.Prelude.{
  ℕ, zero, suc, ◌+◌, ◌-◌, ◌≤◌, ◌<◌, ◌≡◌, refl, sym, ◌∙◌, ap, arith, min, String, List, [], ◌∷◌,
  ◌++◌, length, length-append, take, drop, ok, err, Error, subst, ◌⊎◌, inl, inr,
}
use osl_agent_sentinel.Siem.{
  Transport, Exporter, Flushed, send_batch, batch_length, flush_loop, flush, append_bounded,
  enqueue, enqueue_all, total,
}

module _ {ℓ} {A : Type ℓ} where
  take-drop : (n : ℕ) (xs : List A) → take n xs ++ drop n xs ≡ xs
  take-drop zero xs = refl
  take-drop (suc n) [] = refl
  take-drop (suc n) (x ∷ xs) = ap (λ ys. x ∷ ys) (take-drop n xs)

  pub length-drop : (n : ℕ) (xs : List A) → length (drop n xs) ≡ length xs - n
  length-drop zero xs = omega arith
  length-drop (suc n) [] = omega arith
  length-drop (suc n) (x ∷ xs) = omega (arith, length-drop n xs)

  pub length-take : (n : ℕ) (xs : List A) → length (take n xs) ≤ n
  length-take zero xs = omega arith
  length-take (suc n) [] = omega arith
  length-take (suc n) (x ∷ xs) = omega (arith, length-take n xs)

-- The outbox never exceeds its bound: `enqueue` keeps the newest lines.
pub enqueue-le : (e : Exporter) (line : String) → length (enqueue e line).outbox ≤ e.max_outbox
unfolding enqueue append_bounded
enqueue-le e line = omega (
  arith,
  length-drop (suc (length e.outbox) - e.max_outbox) (e.outbox ++ line ∷ []),
  length-append e.outbox (line ∷ []),
)

-- A line more, at most, and nothing else changes.
pub enqueue-grows :
    (e : Exporter) (line : String)
    → (length (enqueue e line).outbox ≤ suc (length e.outbox))
      × ((enqueue e line).max_outbox ≡ e.max_outbox)
      × ((enqueue e line).batch_size ≡ e.batch_size)
unfolding enqueue append_bounded
enqueue-grows e line = (
  omega (
    arith,
    length-drop (suc (length e.outbox) - e.max_outbox) (e.outbox ++ line ∷ []),
    length-append e.outbox (line ∷ []),
  ),
  refl,
  refl,
)

pub enqueue_all-grows :
    (e : Exporter) (lines : List String)
    → (length (enqueue_all e lines).outbox ≤ length e.outbox + length lines)
      × ((enqueue_all e lines).max_outbox ≡ e.max_outbox)
      × ((enqueue_all e lines).batch_size ≡ e.batch_size)
unfolding enqueue_all
enqueue_all-grows e [] = (omega arith, refl, refl)
enqueue_all-grows e (line ∷ lines) =
    let (n, m, b) = enqueue-grows e line in
    let (n', m', b') = enqueue_all-grows (enqueue e line) lines in
    (omega (arith, n, n'), m' ∙ m, b' ∙ b)

pub enqueue_all-le :
    (e : Exporter) (lines : List String)
    → length e.outbox ≤ e.max_outbox
    → length (enqueue_all e lines).outbox ≤ e.max_outbox
unfolding enqueue_all
enqueue_all-le e [] h = h
enqueue_all-le e (line ∷ lines) h =
    let (_, m, _) = enqueue-grows e line in
    subst (λ b. length (enqueue_all (enqueue e line) lines).outbox ≤ b) m
      (enqueue_all-le (enqueue e line) lines (omega (arith, enqueue-le e line, m)))

-- A transport that delivers the whole batch, after what was delivered before, or raises and
-- delivers nothing; `log` is what has arrived.
abbrev pub IsHonest : {T : Type 0} → Transport T → (T → List String) → Type 0
IsHonest {T} send log =
    (batch : List String) (t : T)
    → (((send batch t).0 ≡ ok tt) × (log (send batch t).1 ≡ log t ++ batch))
      ⊎ ((x : Error) × ((send batch t).0 ≡ err x) × (log (send batch t).1 ≡ log t))

module _ {T : Type 0} (send : Transport T) (log : T → List String)
    (honest : IsHonest send log) where
  -- All lines have arrived, or the transport raised: then those before the lost batch have arrived,
  -- and those after it are still there.
  abbrev pub Delivers : ℕ → List String → Flushed T → Type 0
  Delivers batch_size expected flushed =
      ((flushed.0 ≡ ok tt) × (flushed.1.outbox ≡ []) × (log flushed.2 ≡ expected))
      ⊎ ((x : Error) × (lost : List String) × (flushed.0 ≡ err x)
          × (0 < length lost)
          × (length lost ≤ batch_size)
          × (log flushed.2 ++ (lost ++ flushed.1.outbox) ≡ expected))

  -- A batch that is sent, given what the next rounds deliver.
  send_batch-Delivers :
      (batch_size : ℕ) (line : String) (lines rest : List String) (e : Exporter) (t : T)
      (next : Exporter → T → Flushed T)
      → e.outbox ≡ rest
      → length (line ∷ lines) ≤ batch_size
      → ((t' : T) → Delivers batch_size (log t' ++ rest) (next e t'))
      → Delivers batch_size
          (log t ++ ((line ∷ lines) ++ rest))
          (send_batch send (line ∷ lines) [] e t next)
  unfolding enqueue_all
  send_batch-Delivers batch_size line lines rest e t next kept small ih =
      elim (honest (line ∷ lines) t) [
        | inl (sent, arrived) ↦
            let t' = (send (line ∷ lines) t).1 in
            let whole = ap (λ xs. xs ++ rest) arrived ∙ append_assoc (log t) (line ∷ lines) rest in
            rw sent (subst (λ expected. Delivers batch_size expected (next e t')) whole (ih t'))
        | inr (x, raised, same) ↦
            rw raised (inr (x, line ∷ lines, refl, omega arith, small, rw (same, kept) refl))
      ]

  flush_round-Delivers :
      (n k : ℕ) (e : Exporter) (line : String) (lines : List String) (t : T)
      → suc k ≤ e.batch_size
      → ((e' : Exporter) (t' : T)
          → e'.batch_size ≡ e.batch_size
          → length e'.outbox ≤ n
          → Delivers e'.batch_size (log t' ++ e'.outbox) (flush_loop send n [] e' t'))
      → length lines ≤ n
      → Delivers e.batch_size (log t ++ (line ∷ lines)) (
          send_batch send
            (take (suc k) (line ∷ lines))
            []
            (record e { outbox = drop (suc k) (line ∷ lines) })
            t
            (flush_loop send n []))
  flush_round-Delivers n k e line lines t small ih enough =
      subst
        (λ xs. Delivers e.batch_size (log t ++ xs) (
          send_batch send (take (suc k) (line ∷ lines)) []
            (record e { outbox = drop (suc k) (line ∷ lines) }) t (flush_loop send n [])))
        (take-drop (suc k) (line ∷ lines))
        (send_batch-Delivers e.batch_size line (take k lines) (drop k lines)
          (record e { outbox = drop k lines }) t (flush_loop send n []) refl
          (omega (arith, length-take k lines, small))
          (λ t'.
            ih (record e { outbox = drop k lines }) t' refl
              (omega (arith, length-drop k lines, enough))))

  flush_loop-Delivers :
      (n : ℕ) (e : Exporter) (lines : List String) (t : T)
      → 0 < e.batch_size
      → length lines ≤ n
      → Delivers e.batch_size
          (log t ++ lines)
          (flush_loop send n [] (record e { outbox = lines }) t)
  unfolding flush_loop
  flush_loop-Delivers zero e [] t positive enough = inl (refl, refl, sym (append-nil (log t)))
  flush_loop-Delivers zero e (line ∷ lines) t positive enough = absurd (omega (arith, enough))
  flush_loop-Delivers (suc n) e [] t positive enough = inl (refl, refl, sym (append-nil (log t)))
  flush_loop-Delivers (suc n) e (line ∷ lines) t positive enough =
      let k = min (e.batch_size - 1) (length lines) in
      let size : batch_length e (line ∷ lines) ≡ suc k = omega (arith, positive) in
      rw size (
        flush_round-Delivers n k e line lines t (omega (arith, positive))
          (λ e' t' same enough'. flush_loop-Delivers n e' e'.outbox t' (rw same positive) enough')
          (omega (arith, enough)))

  -- Over a transport that delivers a batch whole or raises, a flush during which nothing is enqueued
  -- either delivers every line of the outbox in order and leaves it empty, or the transport raised: then the lines before one batch
  -- have arrived, that batch is lost, and the lines after it are still in the outbox.
  pub flush-Delivers :
      (e : Exporter) (t : T)
      → 0 < e.batch_size
      → Delivers e.batch_size (log t ++ e.outbox) (flush send [] e t)
  unfolding flush
  flush-Delivers e t positive =
      flush_loop-Delivers (length e.outbox + total []) e e.outbox t positive (omega arith)
