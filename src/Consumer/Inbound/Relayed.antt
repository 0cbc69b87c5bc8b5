-- ===== src/Consumer/Inbound/Relayed.antt =====
-- A signal from its call (`deliver`, delivery.py) to the sockets of the stream (consumers.py).
use stapel_realtime.Prelude.{
  ◌<◌, String, true, false, [], ◌∷◌, length, ◌≡◌, refl, ap, Bool-cases, inl, inr, if◌then◌else◌,
}
use stapel_realtime.Python.{Value, obj, Fields, is_empty, set_default, ok}
use stapel_realtime.Streams.{group_name}
use stapel_realtime.Delivery.{realtime_signal, Channels, Sent, deliver}
use stapel_realtime.Delivery.Reached.{IsTaken, deliver-true, deliver_takes}
use stapel_realtime.Consumer.State.{Socket, Context}
use stapel_realtime.Consumer.Outbound.Queued.{with_envelope, enqueue_open}
use stapel_realtime.Consumer.Inbound.{key_value, on_signal, on_message}
use stapel_realtime.Consumer.Machine.{messaged, handle}

-- A socket relays an object as it is, with its own stream where the object names none; of an empty
-- one it sends nothing.
abbrev pub relayed : Fields → Socket → Socket
relayed frame s =
    if is_empty frame
    then s
    else with_envelope (set_default "stream" (key_value s.stream_key) frame) s

relays :
    (frame : Fields) (s : Socket)
    → s.closing ≡ false
    → length s.outbox < s.capacity
    → on_signal frame s ≡ (ok tt, relayed frame s)
unfolding on_signal
relays frame s opened fits = elim (Bool-cases (is_empty frame)) [
  | inl e ↦ rw e refl
  | inr e ↦ rw e (enqueue_open (set_default "stream" (key_value s.stream_key) frame) s opened fits)
]

-- Where `deliver` answers True, the signal is an object and the layer took it once, for the group
-- of the stream key; and a socket to which it is handed, open and with room in its queue, queues it
-- as it is, with the socket's stream where it names none, unless it is empty, and does nothing
-- else; of an empty object it does nothing at all.
pub signal_relayed :
    (cx : Context) (ch : Channels) (key : String) (v : Value) (s : Socket)
    → (deliver cx.core cx.py ch key v).0 ≡ ok true
    → s.closing ≡ false
    → length s.outbox < s.capacity
    → (group : String) × (frame : Fields) × (v ≡ obj frame)
      × (group_name cx.core cx.py key ≡ ok group)
      × ((deliver cx.core cx.py ch key v).1 ≡ (group, realtime_signal key frame) ∷ [])
      × (handle cx (messaged (realtime_signal key frame)) s ≡ (ok tt, relayed frame s))
unfolding handle on_message
signal_relayed cx ch key v s taken opened fits =
    let t : IsTaken cx.core cx.py ch key v = deliver-true cx.core cx.py ch key v taken in
    (
      t.group,
      t.frame,
      t.object,
      t.named,
      ap (λ (sent : Sent). sent.1) (deliver_takes cx.core cx.py ch key v t),
      relays t.frame s opened fits,
    )
