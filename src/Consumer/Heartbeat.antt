-- ===== src/Consumer/Heartbeat.antt =====
-- The heartbeat task (consumers.py): the re-check of the token, the presence lease, the ping, and
-- the pong that must come; and a step of either background task.
pub mod Round
use stapel_realtime.Prelude.{
  ℕ, String, Bool, true, false, not, ◌&&◌, Option, none, some, List, [], ◌∷◌, str_eq, if◌then◌else◌,
}
use stapel_realtime.Prelude.Int.{ℤ, pos, leb_ℤ, max_ℤ, ◌+ℤ◌}
use stapel_realtime.Conf.{Settings}
use stapel_realtime.Python.{
  Value, Fields, end, get, Float, finite, inf, nan, Exn, type_error, value_error,
  invalid_stream_key, Result, ok, raise,
}
use stapel_realtime.Python.Convert.{float_of_value}
use stapel_realtime.CloseCodes.{close_unauthenticated, close_heartbeat_timeout}
use stapel_realtime.Envelope.{ping}
use stapel_realtime.Streams.{StreamKey, parse_stream_key}
use stapel_realtime.Authorize.{user_pk}
use stapel_realtime.Consumer.State.{
  Socket, Context, Background, writer_step, beat_due, write_done, pong_due, Beat, stopped, sleeping,
  writing, waiting, close, presence_heartbeat, emit,
}
use stapel_realtime.Consumer.Outbound.{send_frame, write_step}

-- `float(exp) <= time.time()`
abbrev pub is_past : Float → ℕ → Bool
is_past (finite z) time = leb_ℤ z (pos time)
is_past (inf minus) time = minus
is_past nan time = false

abbrev pub expired_at : Result Float → ℕ → Result Bool
expired_at (ok x) time = ok (is_past x time)
expired_at (raise type_error) time = ok false
expired_at (raise value_error) time = ok false
expired_at (raise e) time = raise e

-- `_token_expired`
unfoldable pub token_expired : Context → Result Bool
unfolding get float_of_value
token_expired cx = elim (get "exp" cx.scope.claims) [
  | none ↦ ok false
  | some Value.null ↦ ok false
  | some v ↦ expired_at (float_of_value cx.py v) cx.time
]

-- `except (InvalidStreamKey, TypeError): return self.module`
abbrev pub family_of : Result StreamKey → Option String → Result (Option String)
family_of (ok key) _ = ok (some key.module_name)
family_of (raise invalid_stream_key) own = ok own
family_of (raise type_error) own = ok own
family_of (raise e) _ = raise e

-- `presence_family`
unfoldable pub presence_family : Context → Option String → Result (Option String)
unfolding parse_stream_key
presence_family cx stream_key = family_of (parse_stream_key cx.core stream_key) cx.module_name

-- `_user_id`
unfoldable pub user_id : Context → Value
user_id cx = user_pk cx.scope.user

-- The beat's write of the lease; the arguments of the write are computed outside its `try`, so an
-- exception there ends the task.
abbrev pub renew : Context → Result (Option String) → Option String → Socket → Socket
renew cx (ok family) (some session) s =
    emit (presence_heartbeat (user_id cx) session family) (record s { heartbeat = writing })
renew cx (raise e) (some session) s = record s { heartbeat = stopped }
renew cx _ none s = record s { heartbeat = writing }

-- `if self._presence_session`: an empty name counts as none.
abbrev pub counted : Option String → Option String
counted none = none
counted (some session) = if str_eq session "" then none else some session

abbrev pub beat : Context → Result Bool → Socket → Socket
beat cx (raise e) s = record s { heartbeat = stopped }
beat cx (ok true) s =
    emit (close close_unauthenticated) (record s { closing = true; heartbeat = stopped })
beat cx (ok false) s = renew cx (presence_family cx s.stream_key) (counted s.presence_session) s

abbrev pub beat_from : Context → Beat → Socket → Socket
beat_from cx sleeping s =
    if s.closing then record s { heartbeat = stopped } else beat cx (token_expired cx) s
beat_from cx _ s = s

-- `asyncio.sleep(interval)` is over.
unfoldable pub on_beat_due : Context → Socket → Socket
unfolding token_expired presence_family user_id
on_beat_due cx s = beat_from cx s.heartbeat s

abbrev pub ping_from : Beat → Socket → Socket
ping_from writing s =
    (send_frame ping end none (record s { pong_pending = true; heartbeat = waiting })).1
ping_from _ s = s

-- The lease is written: the ping goes out, and its pong is awaited.
unfoldable pub on_write_done : Socket → Socket
unfolding send_frame
on_write_done s = ping_from s.heartbeat s

abbrev pub judge_from : Beat → Socket → Socket
judge_from waiting s =
    if s.pong_pending && not s.closing
    then emit (close close_heartbeat_timeout) (record s { closing = true; heartbeat = stopped })
    else record s { heartbeat = sleeping }
judge_from _ s = s

-- `asyncio.sleep(timeout)` is over.
unfoldable pub on_pong_due : Socket → Socket
on_pong_due s = judge_from s.heartbeat s

unfoldable pub background : Context → Background → Socket → Socket
unfolding write_step on_beat_due on_write_done on_pong_due
background cx (writer_step sent) s = write_step sent s
background cx beat_due s = on_beat_due cx s
background cx write_done s = on_write_done s
background cx pong_due s = on_pong_due s

unfoldable pub backgrounds : Context → List Background → Socket → Socket
unfolding background
backgrounds cx [] s = s
backgrounds cx (b ∷ bs) s = backgrounds cx bs (background cx b s)
