-- ===== src/Consumer/Inbound/Published.antt =====
-- A journal frame from its call (`deliver_frame`, delivery.py) to the sockets of the stream
-- (consumers.py).
use stapel_realtime.Prelude.{
  ◌<◌, String, true, false, some, [], ◌∷◌, length, ◌≡◌, refl, ap, ◌∙◌, Bool-cases, inl, inr,
  if◌then◌else◌, arith,
}
use stapel_realtime.Prelude.Int.{ℤ, leb_ℤ}
use stapel_realtime.Python.{Value, Fields, Result, ok, raise}
use stapel_realtime.Python.Convert.{to_int}
use stapel_realtime.Envelope.{frame, live}
use stapel_realtime.Streams.{group_name}
use stapel_realtime.Delivery.{
  realtime_frame, Channels, Sent, group_send, send_numbered, deliver_frame,
}
use stapel_realtime.Delivery.Reached.{group_taken, group_takes}
use stapel_realtime.Consumer.State.{Socket, Context}
use stapel_realtime.Consumer.Outbound.{send_frame}
use stapel_realtime.Consumer.Outbound.Queued.{with_envelope, enqueue_open}
use stapel_realtime.Consumer.Inbound.{on_journal, on_message}
use stapel_realtime.Consumer.Machine.{messaged, handle}

-- A frame past the cursor is queued, and the cursor goes up to it; another is a duplicate.
abbrev pub published : ℤ → Fields → Socket → Socket
published n payload s =
    if leb_ℤ n s.max_seq_sent
    then s
    else with_envelope (frame live payload (some n) s.stream_key) (record s { max_seq_sent = n })

publishes :
    (n : ℤ) (payload : Fields) (s : Socket)
    → s.closing ≡ false
    → length s.outbox < s.capacity
    → on_journal n payload s ≡ (ok tt, published n payload s)
unfolding on_journal send_frame
publishes n payload s opened fits = elim (Bool-cases (leb_ℤ n s.max_seq_sent)) [
  | inl e ↦ rw e refl
  | inr e ↦ rw e (
      enqueue_open (frame live payload (some n) s.stream_key) (record s { max_seq_sent = n }) opened
        fits)
]

is_duplicate :
    (n : ℤ) (payload : Fields) (s : Socket) → leb_ℤ n (published n payload s).max_seq_sent ≡ true
is_duplicate n payload s = elim (Bool-cases (leb_ℤ n s.max_seq_sent)) [
  | inl e ↦ rw e e
  | inr e ↦ rw e (ground arith)
]

drops :
    (n : ℤ) (payload : Fields) (s : Socket)
    → leb_ℤ n s.max_seq_sent ≡ true
    → on_journal n payload s ≡ (ok tt, s)
unfolding on_journal send_frame
drops n payload s e = rw e refl

numbered_taken :
    (cx : Context) (ch : Channels) (key : String) (payload : Fields) (r : Result ℤ)
    → (send_numbered cx.core cx.py ch key payload r).0 ≡ ok true
    → (n : ℤ) × (r ≡ ok n)
      × ((group_send cx.core cx.py ch key (realtime_frame key n payload)).0 ≡ ok true)
numbered_taken cx ch key payload (ok n) h = (n, refl, h)
numbered_taken cx ch key payload (raise e) h = absurd cc

-- Where `deliver_frame` answers True, its `seq` reads as an integer and the layer took the frame
-- once, for the group of the stream key; a socket to which it is handed, open and with room in its
-- queue, queues it if it is past the socket's cursor, with its number, and does nothing else; and if
-- the frame is handed to it a second time, nothing changes.
pub frame_published :
    (cx : Context) (ch : Channels) (key : String) (payload : Fields) (seq : Value) (s : Socket)
    → (deliver_frame cx.core cx.py ch key payload seq).0 ≡ ok true
    → s.closing ≡ false
    → length s.outbox < s.capacity
    → (group : String) × (n : ℤ) × (to_int cx.py seq ≡ ok n)
      × (group_name cx.core cx.py key ≡ ok group)
      × ((deliver_frame cx.core cx.py ch key payload seq).1
          ≡ (group, realtime_frame key n payload) ∷ [])
      × (handle cx (messaged (realtime_frame key n payload)) s ≡ (ok tt, published n payload s))
      × (handle cx (messaged (realtime_frame key n payload)) (published n payload s)
          ≡ (ok tt, published n payload s))
unfolding handle on_message deliver_frame
frame_published cx ch key payload seq s taken opened fits =
    let (n, read, sent) = numbered_taken cx ch key payload (to_int cx.py seq) taken in
    let (layer, group, l, named, took) =
      group_taken cx.core cx.py ch key (realtime_frame key n payload) sent in
    (
      group,
      n,
      read,
      named,
      ap (λ r. (send_numbered cx.core cx.py ch key payload r).1) read
          ∙ ap (λ (x : Sent). x.1)
              (group_takes cx.core cx.py ch key (realtime_frame key n payload) layer group l named
                took),
      publishes n payload s opened fits,
      drops n payload (published n payload s) (is_duplicate n payload s),
    )
