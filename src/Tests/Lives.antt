-- ===== src/Tests/Lives.antt =====
-- Whole runs of a socket: the abstract channel, failed sends, the end of the heartbeat, and the
-- schema of what is sent.
use stapel_realtime.Prelude.{◌*◌, Bool, none, some, List, [], ◌∷◌, ◌≡◌, ◌⊎◌, refl, true, false}
use stapel_realtime.Prelude.Int.{pos}
use stapel_realtime.Python.{units, Fields, int, str, end, field, get, get_or_null}
use stapel_realtime.Envelope.{frame}
use stapel_realtime.Delivery.{realtime_signal}
use stapel_realtime.Consumer.State.{
  Context, Socket, queue_size, writer_step, write_done, pong_due, beat_due, writing, stopped,
}
use stapel_realtime.Consumer.Heartbeat.{background}
use stapel_realtime.Consumer.Lifecycle.{connect}
use stapel_realtime.Consumer.Machine.{Event, disconnected, received, messaged, scheduled, run}
use stapel_realtime.Consumer.Moves.{sent_frames, is_journal_type}
use stapel_realtime.Envelope.Schema.{frame-FitsSchema}
use stapel_realtime.Consumer.Moves.Conforming.{AllFitSchema, sent-AllFitSchema}
use stapel_realtime.Consumer.Moves.Order.{line}
use stapel_realtime.Consumer.Moves.Channel.{Advances, unused, view}
use stapel_realtime.Consumer.Moves.Prefix.{Comparable, no_skips}
use stapel_realtime.Consumer.Moves.Unused.{life_refines}
use stapel_realtime.Consumer.Moves.Pulse.{all_passed, other, passed, heartbeat_ends}
use stapel_realtime.Tests.Fixtures.{context, settings, socket, key}
use stapel_realtime.Consumer.Moves.Counted.{attendance, present, absent}
use stapel_realtime.Consumer.Moves.Attendance.{attends}
use stapel_realtime.Consumer.Moves.Closes.{closes, AreCanonical, closes_finally}
use stapel_realtime.Tests.Sockets.{admission, of_chat, channel_named}
use stapel_realtime.Tests.Journal.{hello_value}

abbrev life : List (Context × Event)
life =
    (context, received hello_value)
    ∷ (context, scheduled (writer_step true))
    ∷ (context, scheduled (writer_step false))
    ∷ []

life_refines_example :
    (sending : Bool) × (view (connect context socket).1 ≡ unused sending)
    × Advances (queue_size settings) (unused sending) (view (run life (connect context socket).1))
life_refines_example = life_refines context life socket (tt, (tt, (tt, tt)))

-- Two frames wait, and the second send fails.
abbrev waiting : Socket
waiting = record socket { outbox = field "n" (int (pos 1)) end ∷ field "n" (int (pos 2)) end ∷ [] }

abbrev failing : List (Context × Event)
failing =
    (context, scheduled (writer_step true))
    ∷ (context, scheduled (writer_step true))
    ∷ (context, scheduled (writer_step true))
    ∷ (context, scheduled (writer_step false))
    ∷ (context, scheduled (writer_step true))
    ∷ []

no_skips_example : Comparable (sent_frames (run failing waiting).trace) (line waiting)
no_skips_example = no_skips failing waiting (tt, (tt, (tt, (tt, (tt, tt)))))

-- A socket whose lease is being written when it begins to close.
abbrev closing : Socket
closing = record socket { closing = true; heartbeat = writing }

abbrev ending : List (Context × Event)
ending =
    (context, scheduled write_done)
    ∷ (context, received hello_value)
    ∷ (context, scheduled pong_due)
    ∷ (context, scheduled (writer_step true))
    ∷ (context, scheduled beat_due)
    ∷ []

heartbeat_ends_example : (run ending closing).heartbeat ≡ stopped
heartbeat_ends_example =
    heartbeat_ends ending closing refl (tt, (tt, (tt, (tt, (tt, tt)))))
      (passed (other (passed (other (passed all_passed)))))

abbrev typing_frame : Fields
typing_frame = frame "typing" end none (some key)

typing_names : get "stream" typing_frame ≡ some (str key)
unfolding frame get
typing_names = refl

typing_honest : is_journal_type (get_or_null "type" typing_frame) ≡ false
unfolding frame get_or_null
typing_honest = refl

-- A hello and a signal, both answered on the wire.
abbrev visit : List (Context × Event)
visit =
    (context, received hello_value) ∷ (context, messaged (realtime_signal key typing_frame)) ∷ life

sent-AllFitSchema_example : AllFitSchema (sent_frames (run visit (connect context socket).1).trace)
sent-AllFitSchema_example = sent-AllFitSchema context visit socket (
  tt,
  (
    (typing_honest, (frame-FitsSchema "typing" end (some key), key, typing_names)),
    (tt, (tt, (tt, tt))),
  ),
)

failed_wire : sent_frames (run failing waiting).trace ≡ field "n" (int (pos 1)) end ∷ []
unfolding run sent_frames background
failed_wire = refl

-- A hello and a beat that renews the lease; and a write that ends after the disconnect.
abbrev staying : List (Context × Event)
staying = (context, received hello_value) ∷ (context, scheduled beat_due) ∷ []

abbrev afterwards : List (Context × Event)
afterwards = (context, scheduled write_done) ∷ (context, disconnected) ∷ []

attends_example :
    (attendance (run staying (connect context socket).1).trace ≡ present "chat.ws.r1" "specific.1")
    × (attendance
          (run
            ((context, disconnected) ∷ afterwards)
            (run staying (connect context socket).1)).trace
        ≡ absent)
attends_example =
    attends context context socket admission (some "chat") staying afterwards channel_named of_chat
      (tt, (tt, tt)) (refl, (refl, tt)) (tt, (tt, tt))

-- A beat after the token's expiry, and a pong that is late for it.
abbrev expired : Context
expired = record context { time = 9 * units }

abbrev expiring : List (Context × Event)
expiring = (expired, scheduled beat_due) ∷ (expired, scheduled pong_due) ∷ []

closes_finally_example :
    AreCanonical (closes (run expiring (connect context socket).1).trace)
    × ((closes (run expiring (connect context socket).1).trace ≡ [])
        ⊎ ((run expiring (connect context socket).1).closing ≡ true))
closes_finally_example =
    closes_finally context socket admission (some "chat") expiring of_chat (tt, (tt, tt))
