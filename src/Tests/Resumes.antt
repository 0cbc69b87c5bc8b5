-- ===== src/Tests/Resumes.antt =====
-- The theorems on the resume of a journal and on the life of a socket, at a concrete stream.
use mathlib.Core.List.{Sublist}
use stapel_realtime.Prelude.{◌≤◌, true, none, some, List, [], ◌∷◌, ◌≡◌, refl, arith, length}
use stapel_realtime.Prelude.Int.{pos, max_ℤ, ◌-ℤ◌}
use stapel_realtime.Python.{Value, int, str, obj, end, field, ok}
use stapel_realtime.Python.Convert.{truthy}
use stapel_realtime.Envelope.{Frame, frame, resync, replay_done}
use stapel_realtime.Delivery.{realtime_frame}
use stapel_realtime.Consumer.State.{Context, Socket, close, queue_size, writer_step}
use stapel_realtime.Consumer.Hello.{last_seq_of, on_hello}
use stapel_realtime.Consumer.Outbound.Queued.{with_frame}
use stapel_realtime.Consumer.Hello.Replay.{unseen, with_rows}
use stapel_realtime.Consumer.Hello.Resume.{
  seq_payload, greeted, hello_catches_up, hello_resyncs, hello_overflows,
}
use stapel_realtime.Consumer.Lifecycle.{connect}
use stapel_realtime.Consumer.Machine.{Event, received, messaged, scheduled, run}
use stapel_realtime.Consumer.Moves.{sent_frames}
use stapel_realtime.Consumer.Moves.Order.{Rises, journal_seqs, line, journal_order, queue_bound}
use stapel_realtime.Consumer.Moves.Closing.{silent_after_closing}
use stapel_realtime.Tests.Fixtures.{context, settings, socket, key, rows}

abbrev hello_frame : Frame
hello_frame = record { kind = "hello"; payload = end; seq = none; stream = none }

-- A client that has seen nothing.
from_zero : last_seq_of context hello_frame ≡ ok (pos 0)
unfolding last_seq_of truthy
from_zero = refl

two_unseen : unseen (max_ℤ socket.max_seq_sent (pos 0)) rows ≡ rows
unfolding unseen
two_unseen = refl

hello_catches_up_example : on_hello context hello_frame socket ≡ (
  ok tt,
  with_frame replay_done
      (seq_payload "up_to_seq" (pos 2))
      (with_rows rows (greeted context hello_frame socket (pos 0) (pos 2))),
)
unfolding unseen ◌-ℤ◌
hello_catches_up_example =
    hello_catches_up context hello_frame socket (pos 0) (pos 2) refl from_zero refl refl rows refl
      refl refl (omega arith)

abbrev far : Context
far = record context { server_seq = ok (pos 9) }

far_from_zero : last_seq_of far hello_frame ≡ ok (pos 0)
unfolding last_seq_of truthy
far_from_zero = refl

hello_resyncs_example : on_hello far hello_frame socket ≡ (
  ok tt,
  with_frame resync
      (field "gap"
        (int (pos 9))
        (field "window" (int (pos 5)) (field "server_seq" (int (pos 9)) end)))
      (greeted far hello_frame socket (pos 0) (pos 9)),
)
unfolding ◌-ℤ◌
hello_resyncs_example =
    hello_resyncs far hello_frame socket (pos 0) (pos 9) refl far_from_zero refl refl refl
      (omega arith)

abbrev narrow : Socket
narrow = record socket { capacity = 1 }

hello_overflows_example :
    ((on_hello context hello_frame narrow).1.closing ≡ true)
    × ((on_hello context hello_frame narrow).1.trace ≡ close 4413 ∷ [])
unfolding unseen ◌-ℤ◌
hello_overflows_example =
    hello_overflows context hello_frame narrow (pos 0) (pos 2) refl from_zero refl refl rows refl
      refl refl (omega arith) (omega arith)

abbrev hello_value : Value
hello_value = obj (field "v" (int (pos 1)) (field "type" (str "hello") end))

abbrev life : List (Context × Event)
life =
    (context, received hello_value)
    ∷ (context, scheduled (writer_step true))
    ∷ (context, scheduled (writer_step true))
    ∷ (context, messaged (realtime_frame key (pos 3) end))
    ∷ []

journal_order_example :
    Rises
      (pos 0)
      (journal_seqs (sent_frames (run life (connect context socket).1).trace))
      (run life (connect context socket).1).max_seq_sent
journal_order_example = journal_order context life socket (tt, (tt, (tt, (tt, tt))))

queue_bound_example : length (run life (connect context socket).1).outbox ≤ queue_size settings
queue_bound_example = queue_bound context life socket (tt, (tt, (tt, (tt, tt))))

abbrev shut : Socket
shut = record socket { closing = true; outbox = frame "welcome" end none (some key) ∷ [] }

silent_after_closing_example :
    ((run life shut).closing ≡ true) × Sublist (line (run life shut)) (line shut)
silent_after_closing_example = silent_after_closing life shut refl (tt, (tt, (tt, (tt, tt))))
