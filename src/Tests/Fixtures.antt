-- ===== src/Tests/Fixtures.antt =====
-- A workspace's journal stream of one user, its settings, and a socket of it.
use Prim.Native.String.{◌++◌ as append_text}
use stapel_realtime.Prelude.{
  String, true, false, Option, none, some, List, [], ◌∷◌, ◌==◌, if◌then◌else◌,
}
use stapel_realtime.Prelude.Int.{pos}
use stapel_realtime.Python.{Value, null, int, str, Fields, end, field, ok, Texts}
use stapel_realtime.Conf.{Settings, defaults}
use stapel_realtime.Streams.{Core}
use stapel_realtime.Authorize.{User, Scope, Workspaces}
use stapel_realtime.Consumer.State.{JournalRow, resumable, Context, Socket, sleeping}

abbrev repr_of : Value → String
repr_of (int (pos n)) = if n == 7 then "7" else "0"
repr_of _ = "None"

-- Texts of a small interpreter: a fixed digest, and no numerals.
abbrev pub texts : Texts
texts = record {
  sha256 = λ _. "0123456789abcdef0123456789abcdef0123456789abcdef0123456789abcdef";
  repr = repr_of;
  int_of = λ _. none;
  float_of = λ _. none;
}

abbrev topic_text : Option String → String
topic_text none = ""
topic_text (some topic) = append_text ":" topic

abbrev joined : String → String → String → Option String → String
joined m t i topic =
    append_text m
      (append_text ":" (append_text t (append_text ":" (append_text i (topic_text topic)))))

-- A builder that takes every segment.
abbrev pub any_core : Core
any_core = record { build_stream_key = λ m t i topic. ok (joined m t i topic) }

abbrev pub seven : Option User
seven = some (record { is_authenticated = true; pk = int (pos 7); id = null })

abbrev pub claims_until_9 : Fields
claims_until_9 = field "exp" (int (pos 9)) end

abbrev pub scope_of : Option User → Scope
scope_of user = record {
  user = user;
  claims = claims_until_9;
  url_kwargs = field "room" (str "r1") end;
}

abbrev pub rows : List JournalRow
rows = record { seq = pos 1; payload = end } ∷ record { seq = pos 2; payload = end } ∷ []

abbrev pub settings : Settings
settings = record defaults { max_replay = pos 5; send_queue_size = pos 8 }

abbrev pub open_workspaces : Workspaces
open_workspaces = record { require_capability = λ _ _ _. ok true }

abbrev pub context : Context
context = record {
  core = any_core;
  py = texts;
  settings = settings;
  scope = scope_of seven;
  channel_name = "specific.1";
  kind = resumable;
  module_name = some "chat";
  scope_type = some "ws";
  topic = none;
  stream_key_kwarg = some "room";
  get_stream_key_override = none;
  authorizer = some (λ _ _. ok true);
  server_seq = ok (pos 2);
  replay_rows = λ _ _. ok rows;
  monotonic = 100;
  time = 0;
  meanwhile = [];
  draining = [];
}

abbrev pub key : String
key = "chat:ws:r1"

abbrev pub socket : Socket
socket = record {
  stream_key = some key;
  group = some "chat.ws.r1";
  presence_session = some "specific.1";
  max_seq_sent = pos 0;
  protocol_strikes = 0;
  pong_pending = false;
  closing = false;
  authorized_until = 0;
  outbox = [];
  capacity = 8;
  in_flight = none;
  writer = true;
  heartbeat = sleeping;
  trace = [];
}
