-- ===== src/Consumer/Inbound.antt =====
-- What reaches a socket (consumers.py): frames from its client, and messages from its group.
pub mod Revoked
pub mod Evicted
pub mod Relayed
pub mod Published
pub mod Strikes
use Prim.Native.String.{◌++◌ as append_text}
use stapel_realtime.Prelude.{
  ℕ, ◌+◌, String, Bool, true, false, Option, none, some, leb, str_eq, if◌then◌else◌,
}
use stapel_realtime.Prelude.Int.{ℤ}
use stapel_realtime.Python.{
  Value, null, str, Fields, end, field, set_default, is_empty, Exn, invalid_envelope, Result, ok,
  raise,
}
use stapel_realtime.Python.Convert.{text_of}
use stapel_realtime.CloseCodes.{close_protocol_error, close_forbidden, close_revoked}
use stapel_realtime.Envelope.{
  Frame, parse_frame, hello, ping, pong, live, kick, error_bad_envelope, error_bad_type,
  error_unauthorized,
}
use stapel_realtime.Delivery.{Message, realtime_signal, realtime_frame, realtime_revoke}
use stapel_realtime.Consumer.State.{Socket, Context, Step, pure, throw, gets, modify, ◌>>=◌, ◌>>◌}
use stapel_realtime.Consumer.Outbound.{enqueue, send_frame, send_error, drain_then_close}
use stapel_realtime.Consumer.Heartbeat.{user_id}
use stapel_realtime.Consumer.Hello.{on_hello}
use stapel_realtime.Consumer.Lifecycle.{authorize_cached}

-- `_PROTOCOL_STRIKES`
abbrev pub max_strikes : ℕ
max_strikes = 3

unfoldable pub on_ping : Step
unfolding send_frame
on_ping = send_frame pong end none

unfoldable pub on_pong : Step
on_pong = modify (λ s. record s { pong_pending = false })

-- A frame that is no envelope is reported; the third closes the socket.
unfoldable pub on_malformed : Context → String → Step
unfolding send_error drain_then_close
on_malformed cx message = do
  modify (λ s. record s { protocol_strikes = s.protocol_strikes + 1 })
  send_error error_bad_envelope message
  strikes ← gets (λ s. s.protocol_strikes)
  if leb max_strikes strikes then drain_then_close cx.draining close_protocol_error else pure tt

abbrev pub greet : Context → Frame → Bool → Step
greet cx f true = on_hello cx f
greet cx f false = do
  send_error error_unauthorized "no longer authorized for this stream"
  drain_then_close cx.draining close_forbidden

-- `frame_handlers` and the dispatch on it.
unfoldable pub on_frame : Context → Frame → Step
unfolding authorize_cached on_hello send_error drain_then_close on_ping on_pong
on_frame cx f =
    if str_eq f.kind hello
    then (do allowed ← authorize_cached cx false; greet cx f allowed)
    else if str_eq f.kind ping
    then on_ping
    else if str_eq f.kind pong
    then on_pong
    else send_error error_bad_type
        (append_text "unknown or unaccepted frame type " (cx.py.repr (str f.kind)))

-- `except wire.InvalidEnvelope`
abbrev pub receive_parsed : Context → Result Frame → Step
receive_parsed cx (ok f) = on_frame cx f
receive_parsed cx (raise (invalid_envelope message)) = on_malformed cx message
receive_parsed cx (raise e) = throw e

unfoldable pub receive_json : Context → Value → Step
unfolding parse_frame on_frame on_malformed
receive_json cx content = receive_parsed cx (parse_frame cx.py content)

abbrev pub key_value : Option String → Value
key_value none = null
key_value (some key) = str key

-- `realtime_signal`: forwarded as it is, with the stream if it names none.
unfoldable pub on_signal : Fields → Step
unfolding is_empty set_default enqueue
on_signal frame s =
    if is_empty frame
    then (ok tt, s)
    else enqueue (set_default "stream" (key_value s.stream_key) frame) s

-- `realtime_frame`
unfoldable pub on_journal : ℤ → Fields → Step
unfolding send_frame
on_journal seq payload = send_frame live payload (some seq)

-- `event.get("reason") or "access_revoked"`
abbrev pub reason_or_default : String → String
reason_or_default reason = if str_eq reason "" then "access_revoked" else reason

-- Is the revocation for another user?
unfoldable pub spares : Context → Option String → Bool
unfolding user_id text_of
spares cx none = false
spares cx (some target) = if str_eq target (text_of cx.py (user_id cx)) then false else true

-- `realtime_revoke`
unfoldable pub on_revoke : Context → Option String → String → Step
unfolding spares send_frame drain_then_close
on_revoke cx target reason = if spares cx target then pure tt else do
  send_frame kick (field "reason" (str (reason_or_default reason)) end) none
  drain_then_close cx.draining close_revoked

unfoldable pub on_message : Context → Message → Step
unfolding on_signal on_journal on_revoke
on_message cx (realtime_signal stream frame) = on_signal frame
on_message cx (realtime_frame stream seq payload) = on_journal seq payload
on_message cx (realtime_revoke stream target reason) = on_revoke cx target reason
