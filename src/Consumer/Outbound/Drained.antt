-- ===== src/Consumer/Outbound/Drained.antt =====
-- The drain before a close (`_drain_then_close`, consumers.py): what reaches the client first.
use mathlib.Core.List.{append_assoc, append-nil}
use stapel_realtime.Prelude.{
  ℕ, zero, suc, Bool, true, Option, none, some, List, [], ◌∷◌, ◌++◌, map, ◌≡◌, refl, ap, sym, ◌∙◌,
}
use stapel_realtime.Python.{Fields, ok}
use stapel_realtime.Consumer.State.{Effect, send, close, Socket, emit}
use stapel_realtime.Consumer.Outbound.{
  write_step, write_steps, take_next, write_out, drain_then_close,
}

-- So many successful half-rounds of the writer.
unfoldable pub successes : ℕ → List Bool
successes zero = []
successes (suc n) = true ∷ successes n

-- Half-rounds that empty a queue, and `n` more.
unfoldable pub rounds : List Fields → ℕ → ℕ
rounds [] n = n
rounds (d ∷ ds) n = suc (suc (rounds ds n))

-- What the writer still has to send: the envelope in its hands, then the queue.
abbrev pub pending : Option Fields → List Fields → List Fields
pending none ds = ds
pending (some d) ds = d ∷ ds

abbrev pub with_queue : Option Fields → List Fields → Socket → Socket
with_queue held ds s = record s { writer = true; in_flight = held; outbox = ds }

abbrev pub sending : List Fields → List Effect
sending = map send

idle :
    (n : ℕ) (s : Socket) → write_steps (successes n) (with_queue none [] s) ≡ with_queue none [] s
unfolding write_steps write_step take_next successes
idle zero s = refl
idle (suc n) s = idle n s

abbrev pub sent_all : List Fields → Socket → Socket
sent_all ds s = record s {
  writer = true;
  in_flight = none;
  outbox = [];
  trace = s.trace ++ sending ds;
}

queue_drains :
    (ds : List Fields) (n : ℕ) (s : Socket)
    → write_steps (successes (rounds ds n)) (with_queue none ds s) ≡ sent_all ds s
unfolding write_steps write_step take_next write_out successes rounds
queue_drains [] n s =
    idle n s
    ∙ ap (λ t. record s { writer = true; in_flight = none; outbox = []; trace = t })
        (sym (append-nil s.trace))
queue_drains (d ∷ ds) n s =
    queue_drains ds n (emit (send d) s)
    ∙ ap (λ t. record s { writer = true; in_flight = none; outbox = []; trace = t })
        (append_assoc s.trace (send d ∷ []) (sending ds))

-- Half-rounds that empty a writer's hands and its queue, and `n` more.
unfoldable pub rounds_held : Option Fields → List Fields → ℕ → ℕ
rounds_held none ds n = rounds ds n
rounds_held (some _) ds n = suc (rounds ds n)

pub all_drains :
    (held : Option Fields) (ds : List Fields) (n : ℕ) (s : Socket)
    → write_steps (successes (rounds_held held ds n)) (with_queue held ds s)
      ≡ sent_all (pending held ds) s
unfolding write_steps write_step write_out successes rounds_held
all_drains none ds n s = queue_drains ds n s
all_drains (some d) ds n s =
    queue_drains ds n (emit (send d) s)
    ∙ ap (λ t. record s { writer = true; in_flight = none; outbox = []; trace = t })
        (append_assoc s.trace (send d ∷ []) (sending ds))

pub drained :
    (code n : ℕ) (s : Socket)
    → s.writer ≡ true
    → drain_then_close (successes (rounds_held s.in_flight s.outbox n)) code s ≡ (
      ok tt,
      record s {
        closing = true;
        writer = true;
        in_flight = none;
        outbox = [];
        trace = (s.trace ++ sending (pending s.in_flight s.outbox)) ++ close code ∷ [];
      },
    )
unfolding drain_then_close
drained code n s w =
    ap
      (λ b. (
        ok tt,
        emit (close code) (
            write_steps (successes (rounds_held s.in_flight s.outbox n))
              (record s { closing = true; writer = b })),
      ))
      w
    ∙ ap (λ u. (ok tt, emit (close code) u))
        (all_drains s.in_flight s.outbox n (record s { closing = true }))
