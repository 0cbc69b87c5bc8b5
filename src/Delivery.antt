-- ===== src/Delivery.antt =====
-- The delivery half (delivery.py): the transport of signals, journal frames and revocations into
-- the channel layer of another package.
pub mod Reached
use stapel_realtime.Prelude.{
  String, Bool, true, false, Option, none, some, List, [], ◌∷◌, if◌then◌else◌,
}
use stapel_realtime.Prelude.Int.{ℤ}
use stapel_realtime.Python.{
  Value, null, bool, int, float, str, arr, obj, Fields, get_or_null, Exn, type_error, Result, ok,
  raise, Texts,
}
use stapel_realtime.Python.Convert.{to_int, text_of}
use stapel_realtime.Envelope.{contains, protocol_frame_types}
use stapel_realtime.Streams.{Core, group_name}

-- A group message; its constructor is the message's `type`.
pub data Message : Type 0 where
  realtime_signal : String → Fields → Message
  realtime_frame : String → ℤ → Fields → Message
  realtime_revoke : String → Option String → String → Message

-- What `channels.layers.get_channel_layer` gives: no layer, or whether a `group_send` raises.
pub record Channels : Type 0 where
  pub layer : Option (String → Message → Result (Unit {0}))

-- What a call answers, and the group messages that the layer took.
abbrev pub Sent : Type 0
Sent = Result Bool × List (String × Message)

abbrev pub refused : Sent
refused = (ok false, [])

-- `except Exception`: an error of the key or of the layer is an answer of False.
abbrev pub send_to : (String → Message → Result (Unit {0})) → Result String → Message → Sent
send_to send (ok group) m = elim (send group m) [
  | ok _ ↦ (ok true, (group, m) ∷ [])
  | raise _ ↦ refused
]
send_to send (raise _) m = refused

module _ (core : Core) (py : Texts) (ch : Channels) where
  unfoldable pub group_send : String → Message → Sent
  group_send stream_key m = elim ch.layer [
    | none ↦ refused
    | some send ↦ send_to send (group_name core py stream_key) m
  ]

  -- `frame.get("type") in PROTOCOL_FRAME_TYPES`: a list or a dict cannot be hashed.
  unfoldable pub is_reserved : Value → Result Bool
  unfolding contains
  is_reserved (str t) = ok (contains t protocol_frame_types)
  is_reserved (arr _) = raise type_error
  is_reserved (obj _) = raise type_error
  is_reserved _ = ok false

  abbrev pub after_check : Result Bool → Sent → Sent
  after_check (ok reserved) sent = if reserved then refused else sent
  after_check (raise e) _ = (raise e, [])

  unfoldable pub deliver : String → Value → Sent
  unfolding group_send is_reserved get_or_null
  deliver stream_key (obj frame) =
      after_check (is_reserved (get_or_null "type" frame))
        (group_send stream_key (realtime_signal stream_key frame))
  deliver stream_key _ = refused

  abbrev pub send_numbered : String → Fields → Result ℤ → Sent
  send_numbered stream_key payload (ok n) =
      group_send stream_key (realtime_frame stream_key n payload)
  send_numbered stream_key payload (raise e) = (raise e, [])

  unfoldable pub deliver_frame : String → Fields → Value → Sent
  unfolding group_send to_int
  deliver_frame stream_key payload seq = send_numbered stream_key payload (to_int py seq)

  abbrev pub target_of : Value → Option String
  target_of null = none
  target_of user_id = some (text_of py user_id)

  unfoldable pub revoke : String → Value → String → Sent
  unfolding group_send text_of
  revoke stream_key user_id reason =
      group_send stream_key (realtime_revoke stream_key (target_of user_id) reason)
