-- ===== src/Consumer/Outbound.antt =====
-- The outbound half of a socket (consumers.py): the bounded queue, the dedup by `seq`, the writer
-- task, and the drain before a close.
pub mod Drained
pub mod Queued
use stapel_realtime.Prelude.{
  ℕ, suc, String, Bool, true, false, Option, none, some, List, [], ◌∷◌, ◌++◌, ltb, length,
  if◌then◌else◌,
}
use stapel_realtime.Prelude.Int.{ℤ, leb_ℤ}
use stapel_realtime.Python.{Fields, ok}
use stapel_realtime.CloseCodes.{close_overflow}
use stapel_realtime.Envelope.{frame, error_frame}
use stapel_realtime.Consumer.State.{Socket, close, send, emit, Step}

-- `_enqueue`: a full queue closes the socket, and the caller never waits.
unfoldable pub enqueue : Fields → Step
enqueue envelope s =
    if s.closing
    then (ok tt, s)
    else if ltb (length s.outbox) s.capacity
    then (ok tt, record s { outbox = s.outbox ++ envelope ∷ [] })
    else (ok tt, emit (close close_overflow) (record s { closing = true }))

-- `send_frame`; a frame with a `seq` that was sent already is dropped.
unfoldable pub send_frame : String → Fields → Option ℤ → Step
unfolding enqueue frame
send_frame frame_type payload none s = enqueue (frame frame_type payload none s.stream_key) s
send_frame frame_type payload (some n) s =
    if leb_ℤ n s.max_seq_sent
    then (ok tt, s)
    else enqueue (frame frame_type payload (some n) s.stream_key) (record s { max_seq_sent = n })

-- `_error`
unfoldable pub send_error : String → String → Step
unfolding enqueue error_frame
send_error code message s = enqueue (error_frame code message s.stream_key) s

unfoldable pub write_out : Option Fields → Bool → Socket → Socket
write_out (some envelope) true s = emit (send envelope) (record s { in_flight = none })
write_out (some envelope) false s = record s { in_flight = none; writer = false }
write_out none _ s = s

unfoldable pub take_next : List Fields → Socket → Socket
take_next [] s = s
take_next (envelope ∷ rest) s = record s { in_flight = some envelope; outbox = rest }

-- Half a round of `_writer_loop`: it takes the next envelope, or the send of the one that it holds
-- ends, well or not; after a failed send the task is over.
unfoldable pub write_step : Bool → Socket → Socket
unfolding write_out take_next
write_step sent s =
    if s.writer
    then elim s.in_flight [
      | none ↦ take_next s.outbox s
      | some envelope ↦ write_out (some envelope) sent s
    ]
    else s

unfoldable pub write_steps : List Bool → Socket → Socket
unfolding write_step
write_steps [] s = s
write_steps (sent ∷ rest) s = write_steps rest (write_step sent s)

-- `_drain_then_close`: the writer goes on until the queue is drained or the second is over.
unfoldable pub drain_then_close : List Bool → ℕ → Step
unfolding write_steps
drain_then_close draining code s =
    (ok tt, emit (close code) (write_steps draining (record s { closing = true })))
