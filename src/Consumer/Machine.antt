-- ===== src/Consumer/Machine.antt =====
-- The events of one socket, in the order in which its loop runs them. Channels hands a socket one
-- message after another, so a handler ends before the next begins; the writer and the heartbeat run
-- in between, and where a handler waits.
use stapel_realtime.Prelude.{List, [], ◌∷◌}
use stapel_realtime.Python.{Value}
use stapel_realtime.Delivery.{Message}
use stapel_realtime.Consumer.State.{Socket, Context, Background, Step, modify}
use stapel_realtime.Consumer.Heartbeat.{background}
use stapel_realtime.Consumer.Lifecycle.{connect, disconnect}
use stapel_realtime.Consumer.Inbound.{receive_json, on_message}

pub data Event : Type 0 where
  connected disconnected : Event
  received : Value → Event
  messaged : Message → Event
  scheduled : Background → Event

unfoldable pub handle : Context → Event → Step
handle cx connected = connect cx
handle cx disconnected = modify (disconnect cx)
handle cx (received content) = receive_json cx content
handle cx (messaged m) = on_message cx m
handle cx (scheduled b) = modify (background cx b)

-- An exception that leaves a handler leaves the state that it wrote.
unfoldable pub run : List (Context × Event) → Socket → Socket
unfolding handle
run [] s = s
run ((cx, event) ∷ events) s = run events (handle cx event s).1
