-- ===== src/Tests/Sockets.antt =====
-- The theorems on the handlers of a socket, at concrete contexts and frames.
use stapel_realtime.Prelude.{
  ◌<◌, ◌*◌, ◌≢◌, eq_iff, sym, length, String, true, false, none, some, [], ◌∷◌, ◌++◌, ◌≡◌, ◌↔◌,
  refl, arith,
}
use stapel_realtime.Python.{null, end, get, units, invalid_envelope, ok, raise}
use stapel_realtime.Python.Text.{size, replace, split, push_front}
use stapel_realtime.Envelope.{Frame, frame, parse_frame, ping}
use stapel_realtime.Streams.{parse_stream_key, key_of_parts, name_of, group_name}
use stapel_realtime.Authorize.{authenticated}
use stapel_realtime.Consumer.State.{
  close, send, Context, Socket, beat_due, write_done, pong_due, stopped, sleeping,
}
use stapel_realtime.Consumer.Outbound.Drained.{successes, rounds, rounds_held}
use stapel_realtime.Consumer.Heartbeat.{
  token_expired, presence_family, on_beat_due, on_pong_due, backgrounds,
}
use stapel_realtime.Consumer.Heartbeat.Round.{lease, pinged, round_ends, beat_expired}
use stapel_realtime.Consumer.Lifecycle.{get_stream_key, authorize, connect}
use stapel_realtime.Consumer.Lifecycle.Connect.{
  has_accept, IsAdmitted, unknown, connect_accepted_iff, connect_refuses,
}
use stapel_realtime.Consumer.Lifecycle.Trust.{denial, denied_hello_closes}
use stapel_realtime.Consumer.Inbound.{on_pong, on_frame, receive_json}
use stapel_realtime.Consumer.Inbound.Strikes.{report, last_strike}
use stapel_realtime.Tests.Fixtures.{context, socket, key, scope_of, any_core, texts}

connect_accepted_iff_example :
    (has_accept (connect context socket).1.trace ≡ true) ↔ IsAdmitted context
connect_accepted_iff_example = connect_accepted_iff context socket

abbrev stranger : Context
stranger = record context { scope = scope_of none }

stranger_unknown : authenticated stranger.scope.user ≡ false
unfolding authenticated
stranger_unknown = refl

connect_refuses_example :
    ((connect stranger socket).0 ≡ ok tt)
    × ((connect stranger socket).1.trace ≡ close 4401 ∷ [])
    × ((connect stranger socket).1.writer ≡ false)
    × ((connect stranger socket).1.heartbeat ≡ stopped)
    × ((connect stranger socket).1.group ≡ none)
    × ((connect stranger socket).1.presence_session ≡ none)
connect_refuses_example = connect_refuses stranger socket 4401 (unknown stranger_unknown)

pub known : authenticated context.scope.user ≡ true
unfolding authenticated
known = refl

pub resolved : get_stream_key context ≡ ok key
unfolding get_stream_key get
resolved = refl

pub allowed : authorize context (some key) ≡ ok true
unfolding authorize
allowed = refl

pub named : group_name any_core texts key ≡ ok "chat.ws.r1"
unfolding group_name name_of parse_stream_key key_of_parts split push_front size replace
named = refl

abbrev pub admission : IsAdmitted context
admission = record {
  key = key;
  group = "chat.ws.r1";
  known = known;
  resolved = resolved;
  authorized = allowed;
  named = named;
}

pub of_chat : presence_family context (some key) ≡ ok (some "chat")
unfolding presence_family parse_stream_key key_of_parts split push_front
of_chat = refl

apart_name : true ≢ false
apart_name h = cc

pub channel_named : context.channel_name ≢ ""
channel_named h = apart_name (sym ((eq_iff "specific.1" "").1 h))

-- A context whose drain is long enough for one frame.
abbrev draining : Context
draining = record context { draining = successes 2 }

abbrev denying : Context
denying = record draining { authorizer = none }

denied : authorize denying (some key) ≡ ok false
unfolding authorize
denied = refl

abbrev hello_frame : Frame
hello_frame = record { kind = "hello"; payload = end; seq = none; stream = none }

denied_hello_closes_example :
    on_frame denying hello_frame socket
    ≡ (ok tt, record socket { closing = true; trace = send (denial socket) ∷ close 4403 ∷ [] })
unfolding rounds rounds_held
denied_hello_closes_example =
    denied_hello_closes denying hello_frame socket 0 refl (omega arith) denied refl refl
      (omega arith) refl

abbrev complaint : String
complaint = "frame must be a JSON object"

no_object : parse_frame texts null ≡ raise (invalid_envelope complaint)
unfolding parse_frame
no_object = refl

abbrev twice_struck : Socket
twice_struck = record socket { protocol_strikes = 2 }

last_strike_example : receive_json draining null twice_struck ≡ (
  ok tt,
  record twice_struck {
    protocol_strikes = 3;
    closing = true;
    trace = send (report complaint socket) ∷ close 4400 ∷ [];
  },
)
unfolding rounds rounds_held
last_strike_example =
    last_strike draining null complaint twice_struck no_object refl (omega arith) 0 (omega arith)
      refl refl

unexpired : token_expired context ≡ ok false
unfolding token_expired
unexpired = refl

room : length socket.outbox < socket.capacity
room = omega arith

round_ends_example :
    (backgrounds context (beat_due ∷ write_done ∷ pong_due ∷ []) socket ≡ record socket {
      closing = true;
      pong_pending = true;
      heartbeat = stopped;
      outbox = frame ping end none (some key) ∷ [];
      trace = lease context (some "specific.1") (some "chat") ++ close 4408 ∷ [];
    })
    × (on_pong_due (on_pong (backgrounds context (beat_due ∷ write_done ∷ []) socket)).1
        ≡ record (pinged context socket (some "chat") refl refl unexpired of_chat room) {
          pong_pending = false;
          heartbeat = sleeping;
        })
round_ends_example = round_ends context socket (some "chat") refl refl unexpired of_chat room

abbrev late : Context
late = record context { time = 10 * units }

beat_expired_example :
    on_beat_due late socket
    ≡ record socket { closing = true; heartbeat = stopped; trace = close 4401 ∷ [] }
unfolding get
beat_expired_example = beat_expired late socket 9 refl refl refl (omega arith) (omega arith)
