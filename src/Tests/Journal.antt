-- ===== src/Tests/Journal.antt =====
-- The journal of a stream end to end, and a revocation from its call, at a concrete socket.
use stapel_realtime.Prelude.{
  String, none, some, List, [], ◌∷◌, ◌++◌, map, ◌≡◌, refl, true, false, arith,
}
use stapel_realtime.Prelude.Int.{ℤ, pos, ◌-ℤ◌}
use stapel_realtime.Python.{Fields, Value, int, str, null, obj, end, field, get_or_null, ok}
use stapel_realtime.Python.Convert.{truthy, equals_one, to_int}
use stapel_realtime.Envelope.{contains, Frame, frame, parse_frame, welcome, replay_done}
use stapel_realtime.Streams.{group_name, parse_stream_key}
use stapel_realtime.Delivery.{
  realtime_frame, deliver_frame, Channels, Message, realtime_signal, deliver, revoke,
}
use stapel_realtime.Consumer.State.{Context, JournalRow, Socket, send, close}
use stapel_realtime.Consumer.Hello.{last_seq_of, on_hello}
use stapel_realtime.Consumer.Hello.Resume.{seq_payload}
use stapel_realtime.Consumer.Hello.Starved.{starved, replay_starved}
use stapel_realtime.Consumer.Hello.Delivered.{caught_up, all_sent, writes, resume_delivered}
use stapel_realtime.Consumer.Hello.Replay.{unseen}
use stapel_realtime.Consumer.Hello.Overlap.{Consecutive, live_events, news, with_news, no_gap}
use stapel_realtime.Consumer.Outbound.Drained.{successes, rounds, rounds_held}
use stapel_realtime.Consumer.Inbound.{on_journal}
use stapel_realtime.Consumer.Inbound.Revoked.{with_kick}
use stapel_realtime.Consumer.Inbound.Published.{published, frame_published}
use stapel_realtime.Consumer.Inbound.Relayed.{relayed, signal_relayed}
use stapel_realtime.Consumer.Inbound.Evicted.{all, revoke_evicts}
use stapel_realtime.Consumer.Machine.{received, messaged, handle, run}
use stapel_realtime.Testing.{Client, drain}
use stapel_realtime.Testing.Drained.{sent_as, news_of}
use stapel_realtime.Tests.Fixtures.{any_core, texts, context, socket, key, rows}

abbrev hello_frame : Frame
hello_frame = record { kind = "hello"; payload = end; seq = none; stream = none }

from_zero : last_seq_of context hello_frame ≡ ok (pos 0)
unfolding last_seq_of truthy
from_zero = refl

replay_starved_example : on_hello context hello_frame (on_journal (pos 2) end socket).1 ≡ (
  ok tt,
  starved socket
      (pos 2)
      end
      (frame welcome (seq_payload "server_seq" (pos 2)) none (some key))
      (frame replay_done (seq_payload "up_to_seq" (pos 2)) none (some key))
      (pos 0),
)
unfolding ◌-ℤ◌
replay_starved_example =
    replay_starved socket (pos 2) end context hello_frame (pos 0) (pos 2) rows refl from_zero refl
      refl refl refl (omega arith, (omega arith, tt)) refl (omega arith) (omega arith)

abbrev pub hello_value : Value
hello_value = obj (field "v" (int (pos 1)) (field "type" (str "hello") end))

hello_parsed : parse_frame texts hello_value ≡ ok hello_frame
unfolding parse_frame equals_one get_or_null
hello_parsed = refl

-- A verdict that is trusted until after the hello.
abbrev welcome_guest : Socket
welcome_guest = record socket { authorized_until = 200 }

resume_delivered_example :
    run
      ((context, received hello_value)
        ∷ writes context (
            successes (
              rounds_held none
                (caught_up context hello_frame welcome_guest (pos 0) (pos 2) rows)
                0)))
      welcome_guest
    ≡ all_sent context hello_frame welcome_guest (pos 0) (pos 2) rows
unfolding ◌-ℤ◌
resume_delivered_example =
    resume_delivered context hello_frame welcome_guest (pos 0) (pos 2) rows refl from_zero refl refl
      refl refl (omega arith, (omega arith, tt)) refl (omega arith) (omega arith) hello_value 0
      hello_parsed refl (omega arith) refl

abbrev open_layer : Channels
open_layer = record { layer = some (λ _ _. ok tt) }

abbrev draining : Context
draining = record context { draining = successes 2 }

revoke_taken : (revoke any_core texts open_layer key null "left").0 ≡ ok true
unfolding revoke group_name parse_stream_key
revoke_taken = refl

revoke_evicts_example :
    (group : String) × (m : Message) × (group_name any_core texts key ≡ ok group)
    × ((revoke any_core texts open_layer key null "left").1 ≡ (group, m) ∷ [])
    × (handle draining (messaged m) socket ≡ (
      ok tt,
      record socket {
        closing = true;
        trace = map send (with_kick "left" socket) ++ close 4410 ∷ [];
      },
    ))
unfolding rounds rounds_held
revoke_evicts_example =
    revoke_evicts draining open_layer key null "left" socket 0 revoke_taken all refl refl
      (omega arith) refl

-- The second row again, and a third.
abbrev lives : List JournalRow
lives = record { seq = pos 2; payload = end } ∷ record { seq = pos 3; payload = end } ∷ []

one_new : unseen (pos 2) lives ≡ record { seq = pos 3; payload = end } ∷ []
unfolding unseen
one_new = refl

no_gap_example :
    ((run ((context, received hello_value) ∷ live_events context key lives) welcome_guest).outbox
      ≡ with_news context hello_frame welcome_guest
          (pos 0)
          (pos 2)
          (pos 1)
          (pos 2)
          (pos 3)
          rows
          lives)
    × Consecutive
        (pos 0)
        (rows
          ++ news context hello_frame welcome_guest
              (pos 0)
              (pos 2)
              (pos 1)
              (pos 2)
              (pos 3)
              rows
              lives)
        (pos 3)
unfolding ◌-ℤ◌
no_gap_example =
    no_gap context hello_frame welcome_guest (pos 0) (pos 2) (pos 1) (pos 2) (pos 3) rows lives refl
      from_zero refl refl refl refl (refl, (refl, refl)) (refl, (refl, refl)) refl (omega arith)
      (rw one_new (omega arith)) hello_value key hello_parsed refl (omega arith) (omega arith)
      (omega arith)

-- A welcome, a ping and a row, on their way to a test client.
abbrev arriving : List Frame
arriving =
    record { kind = "welcome"; payload = end; seq = none; stream = none }
    ∷ record { kind = "ping"; payload = end; seq = none; stream = none }
    ∷ record { kind = "replay"; payload = end; seq = some (pos 1); stream = some key }
    ∷ []

abbrev client : Client
client = record {
  incoming = map sent_as arriving;
  outgoing = [];
  closed_with = none;
  is_disconnected = false;
  connected = true;
  close_code = none;
}

drained_twice : drain texts client ≡ (ok (news_of arriving), record client { incoming = [] })
unfolding drain parse_frame frame equals_one get_or_null to_int news_of
drained_twice = refl

abbrev typing : Fields
typing = field "type" (str "typing") end

typing_taken : (deliver any_core texts open_layer key (obj typing)).0 ≡ ok true
unfolding deliver group_name parse_stream_key contains get_or_null
typing_taken = refl

signal_relayed_example :
    (group : String) × (signal : Fields) × (obj typing ≡ obj signal)
    × (group_name any_core texts key ≡ ok group)
    × ((deliver any_core texts open_layer key (obj typing)).1
        ≡ (group, realtime_signal key signal) ∷ [])
    × (handle context (messaged (realtime_signal key signal)) socket
        ≡ (ok tt, relayed signal socket))
signal_relayed_example =
    signal_relayed context open_layer key (obj typing) socket typing_taken refl (omega arith)

row_taken : (deliver_frame any_core texts open_layer key end (int (pos 3))).0 ≡ ok true
unfolding deliver_frame group_name parse_stream_key to_int
row_taken = refl

frame_published_example :
    (group : String) × (n : ℤ) × (to_int texts (int (pos 3)) ≡ ok n)
    × (group_name any_core texts key ≡ ok group)
    × ((deliver_frame any_core texts open_layer key end (int (pos 3))).1
        ≡ (group, realtime_frame key n end) ∷ [])
    × (handle context (messaged (realtime_frame key n end)) socket
        ≡ (ok tt, published n end socket))
    × (handle context (messaged (realtime_frame key n end)) (published n end socket)
        ≡ (ok tt, published n end socket))
frame_published_example =
    frame_published context open_layer key end (int (pos 3)) socket row_taken refl (omega arith)
