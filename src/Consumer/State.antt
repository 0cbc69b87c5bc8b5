-- ===== src/Consumer/State.antt =====
-- The state of one socket and what it does to its surroundings (`BaseStreamConsumer.connect`'s
-- attributes); an action of a handler may raise, and keeps what it wrote before.
use stapel_realtime.Prelude.{ℕ, String, Bool, false, Option, none, List, [], ◌∷◌, ◌++◌}
use stapel_realtime.Prelude.Int.{ℤ, pos, max_ℤ, pos_part}
use stapel_realtime.Python.{Value, Fields, Exn, Result, ok, raise, Texts}
use stapel_realtime.Conf.{Settings}
use stapel_realtime.Streams.{Core}
use stapel_realtime.Authorize.{Scope, Authorizer}

-- What a socket does that others see, in order.
pub data Effect : Type 0 where
  group_add group_discard : String → Effect
  accept : Effect
  close : ℕ → Effect
  send : Fields → Effect
  presence_connect presence_heartbeat : Value → String → Option String → Effect
  presence_disconnect : Value → String → Effect

-- Where the heartbeat task stands: between two beats, writing presence, or waiting for the pong.
pub data Beat : Type 0 where
  stopped sleeping writing waiting : Beat

pub record Socket : Type 0 where
  pub stream_key : Option String
  pub group : Option String
  pub presence_session : Option String
  pub max_seq_sent : ℤ
  pub protocol_strikes : ℕ
  pub pong_pending : Bool
  pub closing : Bool
  pub authorized_until : ℕ
  pub outbox : List Fields
  pub capacity : ℕ
  pub in_flight : Option Fields
  pub writer : Bool
  pub heartbeat : Beat
  pub trace : List Effect

-- `JournalRow`
pub record JournalRow : Type 0 where
  pub seq : ℤ
  pub payload : Fields

pub data Kind : Type 0 where
  base ephemeral resumable : Kind

-- A step of the tasks beside the handlers. A write to the socket succeeds or not.
pub data Background : Type 0 where
  writer_step : Bool → Background
  beat_due write_done pong_due : Background

-- A consumer class, its hooks' answers, and the moment of an event: both clocks in units of 2^-22
-- seconds, and what the other tasks do while a handler waits for the drain or for its hooks.
pub record Context : Type 0 where
  pub core : Core
  pub py : Texts
  pub settings : Settings
  pub scope : Scope
  pub channel_name : String
  pub kind : Kind
  pub module_name : Option String
  pub scope_type : Option String
  pub topic : Option String
  pub stream_key_kwarg : Option String
  pub get_stream_key_override : Option (Result String)
  pub authorizer : Option Authorizer
  pub server_seq : Result ℤ
  pub replay_rows : ℤ → ℤ → Result (List JournalRow)
  pub monotonic : ℕ
  pub time : ℕ
  pub meanwhile : List Background
  pub draining : List Bool

-- `asyncio.Queue(maxsize=max(1, int(SEND_QUEUE_SIZE)))`
unfoldable pub queue_size : Settings → ℕ
queue_size settings = pos_part (max_ℤ (pos 1) settings.send_queue_size)

-- The attributes that `connect` sets first; `authorized_until` is read as 0 until it is set.
unfoldable pub fresh : Context → Socket
unfolding queue_size
fresh cx = record {
  stream_key = none;
  group = none;
  presence_session = none;
  max_seq_sent = pos 0;
  protocol_strikes = 0;
  pong_pending = false;
  closing = false;
  authorized_until = 0;
  outbox = [];
  capacity = queue_size cx.settings;
  in_flight = none;
  writer = false;
  heartbeat = stopped;
  trace = [];
}

abbrev pub emit : Effect → Socket → Socket
emit e s = record s { trace = s.trace ++ e ∷ [] }

abbrev pub Action : Type 0 → Type 0
Action A = Socket → Result A × Socket

abbrev pub Step : Type 0
Step = Action (Unit {0})

module _ {A : Type 0} where
  abbrev pub pure : A → Action A
  pure a s = (ok a, s)

  abbrev pub throw : Exn → Action A
  throw e s = (raise e, s)

  abbrev pub lift : Result A → Action A
  lift r s = (r, s)

  abbrev pub gets : (Socket → A) → Action A
  gets f s = (ok (f s), s)

abbrev pub modify : (Socket → Socket) → Step
modify f s = (ok tt, f s)

abbrev pub continue : {A B : Type 0} → Result A × Socket → (A → Action B) → Result B × Socket
continue (ok a, s) f = f a s
continue (raise e, s) f = (raise e, s)

infixl 5 ◌>>=◌ ◌>>◌
unfoldable pub ◌>>=◌ : {A B : Type 0} → Action A → (A → Action B) → Action B
◌>>=◌ m f s = continue (m s) f

abbrev pub ◌>>◌ : {B : Type 0} → Step → Action B → Action B
m >> k = m >>= λ _. k
