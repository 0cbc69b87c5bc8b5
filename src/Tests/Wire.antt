-- ===== src/Tests/Wire.antt =====
-- The theorems on envelopes, stream keys, the authorizer and the transport, at concrete values.
use stapel_realtime.Prelude.{◌∷◌, [], String, true, false, none, some, ◌≡◌, ◌↔◌, refl, arith}
use stapel_realtime.Prelude.Int.{pos}
use stapel_realtime.Python.{
  Exn, int, str, float, inf, obj, Fields, end, field, get, get_or_null, overflow_error, ok, raise,
}
use stapel_realtime.Python.Text.{size, replace, has_char, split, push_front}
use stapel_realtime.Envelope.{contains, Frame, frame, parse_frame}
use stapel_realtime.Envelope.Accepted.{IsEnvelope, parse_frame_iff}
use stapel_realtime.Python.Convert.{equals_one, to_int}
use stapel_realtime.Envelope.Refused.{is_invalid, IsEndless, uncaught_iff}
use stapel_realtime.Envelope.RoundTrip.{parse_frame-frame}
use stapel_realtime.Streams.{StreamKey, parse_stream_key, key_of_parts, name_of, group_name}
use stapel_realtime.Streams.Parsed.{rejoin, segments, parse_rejoins}
use stapel_realtime.Streams.Names.{IsName, group_name-IsName, group_name_inj}
use stapel_realtime.Authorize.{workspace_capability}
use stapel_realtime.Authorize.Granted.{IsGranted, workspace_capability_iff}
use stapel_realtime.Delivery.{realtime_signal, Channels, deliver}
use stapel_realtime.Delivery.Reached.{is_protocol_type, delivered_IsHonest}
use stapel_realtime.Consumer.Moves.Handlers.{IsHonest}
use stapel_realtime.Tests.Fixtures.{texts, any_core, seven, scope_of, open_workspaces, key}

abbrev ping_fields : Fields
ping_fields = field "v" (int (pos 1)) (field "type" (str "ping") end)

abbrev ping_frame : Frame
ping_frame = record { kind = "ping"; payload = end; seq = none; stream = none }

parse_frame_iff_example :
    (parse_frame texts (obj ping_fields) ≡ ok ping_frame)
    ↔ ((d : Fields) × (obj ping_fields ≡ obj d) × IsEnvelope texts d ping_frame)
parse_frame_iff_example = parse_frame_iff texts (obj ping_fields) ping_frame

abbrev endless : Fields
endless = field "v" (int (pos 1)) (field "type" (str "hello") (field "seq" (float (inf false)) end))

uncaught_iff_example :
    ((e : Exn) × (parse_frame texts (obj endless) ≡ raise e) × (is_invalid e ≡ false))
    ↔ ((d : Fields) × (obj endless ≡ obj d) × IsEndless d)
uncaught_iff_example = uncaught_iff texts (obj endless)

endless_overflows : parse_frame texts (obj endless) ≡ raise overflow_error
unfolding parse_frame get get_or_null equals_one to_int
endless_overflows = refl

parse_frame-frame_example :
    parse_frame texts (obj (frame "live" end (some (pos 3)) (some key)))
    ≡ ok (record { kind = "live"; payload = end; seq = some (pos 3); stream = some key })
parse_frame-frame_example = parse_frame-frame texts "live" end (some (pos 3)) (some key) (cc)

abbrev room_key : StreamKey
room_key = record { module_name = "chat"; scope_type = "ws"; scope_id = "r1"; topic = none }

room_parsed : parse_stream_key any_core (some key) ≡ ok room_key
unfolding parse_stream_key key_of_parts split push_front
room_parsed = refl

parse_rejoins_example :
    (rejoin ":" (segments room_key) ≡ key) × ((built : String) × (ok key ≡ ok built))
parse_rejoins_example = parse_rejoins any_core key room_key room_parsed

no_colon : (raw : String) → has_char b':' (texts.sha256 raw) ≡ false
unfolding has_char
no_colon raw = refl

room_named : group_name any_core texts key ≡ ok "chat.ws.r1"
unfolding group_name name_of parse_stream_key key_of_parts split push_front size replace
room_named = refl

group_name-IsName_example :
    (k : StreamKey) × (parse_stream_key any_core (some key) ≡ ok k)
    × IsName any_core texts k.module_name "chat.ws.r1"
group_name-IsName_example = group_name-IsName any_core texts key "chat.ws.r1" no_colon room_named

group_name_inj_example : key ≡ key
unfolding has_char size
group_name_inj_example =
    group_name_inj any_core texts key key "chat.ws.r1" refl refl (omega arith) (omega arith)
      room_named room_named

workspace_capability_iff_example :
    (workspace_capability any_core open_workspaces "chat.read" (scope_of seven) (some key)
      ≡ ok true)
    ↔ IsGranted any_core open_workspaces "chat.read" (scope_of seven) (some key)
workspace_capability_iff_example =
    workspace_capability_iff any_core open_workspaces "chat.read" (scope_of seven) (some key)

abbrev open_layer : Channels
open_layer = record { layer = some (λ _ _. ok tt) }

abbrev typing : Fields
typing = field "type" (str "typing") end

typing_taken : (deliver any_core texts open_layer key (obj typing)).0 ≡ ok true
unfolding deliver group_name parse_stream_key contains get_or_null
typing_taken = refl

delivered_IsHonest_example :
    (frame : Fields) × (group : String) × (obj typing ≡ obj frame)
    × ((deliver any_core texts open_layer key (obj typing)).1
        ≡ (group, realtime_signal key frame) ∷ [])
    × (is_protocol_type (get_or_null "type" frame) ≡ false)
    × IsHonest (realtime_signal key frame)
delivered_IsHonest_example =
    delivered_IsHonest any_core texts open_layer key (obj typing) typing_taken
