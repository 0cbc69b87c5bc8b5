-- ===== src/Consumer/Hello.antt =====
-- `on_hello` of the three consumer classes (consumers.py): the resume protocol of a journal.
pub mod Replay
pub mod Resume
pub mod Starved
pub mod Delivered
pub mod Overlap
use stapel_realtime.Prelude.{
  ℕ, String, Bool, true, false, Option, none, some, List, [], ◌∷◌, if◌then◌else◌,
}
use stapel_realtime.Prelude.Int.{ℤ, pos, ◌-ℤ◌, max_ℤ, ltb_ℤ}
use stapel_realtime.Python.{
  Value, bool, int, Fields, end, field, get_or_null, Exn, type_error, value_error, not_implemented,
  Result, ok, raise,
}
use stapel_realtime.Python.Convert.{or_else, to_int}
use stapel_realtime.Envelope.{Frame, welcome, replay, replay_done, resync, error_bad_envelope}
use stapel_realtime.Consumer.State.{
  Socket, Context, JournalRow, Kind, base, ephemeral, resumable, Step, Action, lift, modify, ◌>>=◌,
  ◌>>◌,
}
use stapel_realtime.Consumer.Outbound.{send_frame, send_error}
use stapel_realtime.Consumer.Heartbeat.{backgrounds}

-- The hooks of `ResumableStreamConsumer` that a subclass leaves out.
abbrev pub get_server_seq : Result ℤ
get_server_seq = raise not_implemented

abbrev pub get_replay_rows : ℤ → ℤ → Result (List JournalRow)
get_replay_rows after_seq limit = raise not_implemented

-- `max(0, int(payload.get("last_seq") or 0))`
unfoldable pub last_seq_of : Context → Frame → Result ℤ
unfolding get_or_null or_else to_int
last_seq_of cx f = elim (to_int cx.py (or_else (get_or_null "last_seq" f.payload) (int (pos 0)))) [
  | ok n ↦ ok (max_ℤ (pos 0) n)
  | raise e ↦ raise e
]

-- The other tasks run while the rows are awaited. (What they do while the server's sequence is
-- awaited they might as well do before the hello.)
unfoldable pub wait_for_hook : Context → Step
unfolding backgrounds
wait_for_hook cx = modify (backgrounds cx cx.meanwhile)

-- `for row in rows: await self.send_frame(...)`
unfoldable pub replay_all : List JournalRow → Step
replay_all [] s = (ok tt, s)
replay_all (row ∷ rows) s = replay_all rows (send_frame replay row.payload (some row.seq) s).1

unfoldable pub resync_payload : ℤ → ℤ → ℤ → Fields
unfolding ◌-ℤ◌
resync_payload last_seq limit server_seq =
    field "gap" (int (server_seq -ℤ last_seq))
      (field "window" (int limit) (field "server_seq" (int server_seq) end))

-- The gap is within the window: the rows, then the end of the replay.
unfoldable pub catch_up : Context → ℤ → ℤ → Step
catch_up cx last_seq server_seq = do
  wait_for_hook cx
  rows ← lift (cx.replay_rows last_seq cx.settings.max_replay)
  replay_all rows
  send_frame replay_done (field "up_to_seq" (int server_seq) end) none

unfoldable pub resume : Context → ℤ → ℤ → Step
resume cx last_seq server_seq = do
  send_frame welcome (field "server_seq" (int server_seq) end) none
  modify (λ s. record s { max_seq_sent = max_ℤ s.max_seq_sent last_seq })
  let limit = cx.settings.max_replay
  if ltb_ℤ limit (server_seq -ℤ last_seq)
      then send_frame resync (resync_payload last_seq limit server_seq) none
      else catch_up cx last_seq server_seq

-- `except (TypeError, ValueError)`
abbrev pub hello_from : Context → Result ℤ → Step
hello_from cx (ok last_seq) = do server_seq ← lift cx.server_seq; resume cx last_seq server_seq
hello_from cx (raise type_error) = send_error error_bad_envelope "'last_seq' must be an integer"
hello_from cx (raise value_error) = send_error error_bad_envelope "'last_seq' must be an integer"
hello_from cx (raise e) = lift (raise e)

-- `on_hello` of the base class, and of the ephemeral one.
abbrev pub on_hello_base : Step
on_hello_base = send_frame welcome (field "server_seq" (int (pos 0)) end) none

abbrev pub on_hello_ephemeral : Step
on_hello_ephemeral = send_frame welcome (field "ephemeral" (bool true) end) none

unfoldable pub on_hello_of : Context → Kind → Frame → Step
on_hello_of cx base f = on_hello_base
on_hello_of cx ephemeral f = on_hello_ephemeral
on_hello_of cx resumable f = hello_from cx (last_seq_of cx f)

unfoldable pub on_hello : Context → Frame → Step
unfolding on_hello_of
on_hello cx = on_hello_of cx cx.kind
