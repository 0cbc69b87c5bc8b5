-- ===== src/Envelope.antt =====
-- The wire envelope, version 1 (envelope.py): the frames of both directions, as plain data.
pub mod Accepted
pub mod Refused
pub mod RoundTrip
pub mod Schema
use stapel_realtime.Prelude.{
  String, Option, none, some, Bool, true, false, not, ◌||◌, List, [], ◌∷◌, ◌++◌, str_eq,
  if◌then◌else◌,
}
use Prim.Native.String.{◌++◌ as append_text}
use stapel_realtime.Prelude.Int.{ℤ, pos}
use stapel_realtime.Python.{
  Value, null, int, str, obj, Fields, end, field, Result, ok, raise, Exn, invalid_envelope,
  type_error, value_error, Texts, get, get_or_null, put, ◌>>=◌,
}
use stapel_realtime.Python.Convert.{equals_one, to_int}

abbrev pub wire_version : ℤ
wire_version = pos 1

-- The names of the protocol's frame types.
abbrev pub hello : String
hello = "hello"

abbrev pub ping : String
ping = "ping"

abbrev pub pong : String
pong = "pong"

abbrev pub welcome : String
welcome = "welcome"

abbrev pub replay : String
replay = "replay"

abbrev pub replay_done : String
replay_done = "replay_done"

abbrev pub live : String
live = "live"

abbrev pub ephemeral : String
ephemeral = "ephemeral"

abbrev pub resync : String
resync = "resync"

abbrev pub kick : String
kick = "kick"

abbrev pub error : String
error = "error"

abbrev pub client_frame_types : List String
client_frame_types = hello ∷ ping ∷ pong ∷ []

abbrev pub server_frame_types : List String
server_frame_types =
    welcome ∷ replay ∷ replay_done ∷ live ∷ resync ∷ kick ∷ error ∷ ping ∷ pong ∷ []

abbrev pub protocol_frame_types : List String
protocol_frame_types = client_frame_types ++ server_frame_types ++ ephemeral ∷ []

-- `name in names`, for a set of names.
unfoldable pub contains : String → List String → Bool
contains name [] = false
contains name (n ∷ names) = str_eq n name || contains name names

abbrev pub error_bad_envelope : String
error_bad_envelope = "bad_envelope"

abbrev pub error_bad_type : String
error_bad_type = "bad_type"

abbrev pub error_unauthorized : String
error_unauthorized = "unauthorized"

-- A parsed inbound envelope.
pub record Frame : Type 0 where
  pub kind : String
  pub payload : Fields
  pub seq : Option ℤ
  pub stream : Option String

unfoldable pub is_journal : Frame → Bool
is_journal f = elim f.seq [ none ↦ false | some _ ↦ true ]

unfoldable pub is_signal : Frame → Bool
unfolding contains
is_signal f = not (contains f.kind protocol_frame_types)

-- `if seq is not None: out["seq"] = int(seq)`
abbrev with_seq : Option ℤ → Fields → Fields
with_seq none out = out
with_seq (some n) out = put "seq" (int n) out

abbrev with_stream : Option String → Fields → Fields
with_stream none out = out
with_stream (some s) out = put "stream" (str s) out

-- `frame`: an absent payload is the empty dict.
unfoldable pub frame : String → Fields → Option ℤ → Option String → Fields
unfolding put
frame frame_type payload seq stream = with_stream stream (
    with_seq seq (
      field "v" (int wire_version)
        (field "type" (str frame_type) (field "payload" (obj payload) end))))

unfoldable pub error_frame : String → String → Option String → Fields
unfolding frame
error_frame code message stream =
    frame error (field "code" (str code) (field "message" (str message) end)) none stream

-- The parts of `parse_frame`, in its order.
unfoldable pub object_of : Value → Result Fields
object_of (obj d) = ok d
object_of _ = raise (invalid_envelope "frame must be a JSON object")

unfoldable pub checked_version : Texts → Value → Result (Unit {0})
checked_version py v =
    if equals_one v
    then ok tt
    else raise (invalid_envelope (append_text "unsupported envelope version " (py.repr v)))

unfoldable pub type_of : Value → Result String
type_of (str s) =
    if str_eq s "" then raise (invalid_envelope "frame is missing a string 'type'") else ok s
type_of _ = raise (invalid_envelope "frame is missing a string 'type'")

unfoldable pub payload_of : Option Value → Result Fields
payload_of none = ok end
payload_of (some null) = ok end
payload_of (some (obj d)) = ok d
payload_of (some _) = raise (invalid_envelope "'payload' must be a JSON object")

-- `except (TypeError, ValueError)`: nothing else is caught.
unfoldable pub seq_caught : Result ℤ → Result (Option ℤ)
seq_caught (ok n) = ok (some n)
seq_caught (raise type_error) = raise (invalid_envelope "'seq' must be an integer")
seq_caught (raise value_error) = raise (invalid_envelope "'seq' must be an integer")
seq_caught (raise e) = raise e

unfoldable pub seq_of : Texts → Value → Result (Option ℤ)
unfolding seq_caught
seq_of py null = ok none
seq_of py v = seq_caught (to_int py v)

unfoldable pub stream_of : Value → Result (Option String)
stream_of null = ok none
stream_of (str s) = ok (some s)
stream_of _ = raise (invalid_envelope "'stream' must be a string")

unfoldable pub parse_frame : Texts → Value → Result Frame
unfolding object_of checked_version type_of payload_of seq_of stream_of
parse_frame py raw = do
  d ← object_of raw
  u ← checked_version py (get_or_null "v" d)
  frame_type ← type_of (get_or_null "type" d)
  payload ← payload_of (get "payload" d)
  seq ← seq_of py (get_or_null "seq" d)
  stream ← stream_of (get_or_null "stream" d)
  ok (record { kind = frame_type; payload = payload; seq = seq; stream = stream })
