-- ===== src/Consumer/Outbound/Queued.antt =====
-- Frames without a `seq` on an open socket with room, and on a closing one (consumers.py).
use stapel_realtime.Prelude.{◌<◌, String, true, false, none, [], ◌∷◌, ◌++◌, length, ◌≡◌, arith}
use stapel_realtime.Python.{Fields, ok}
use stapel_realtime.Envelope.{frame, error_frame}
use stapel_realtime.Consumer.State.{Socket}
use stapel_realtime.Consumer.Outbound.{enqueue, send_frame, send_error}

abbrev pub with_envelope : Fields → Socket → Socket
with_envelope d s = record s { outbox = s.outbox ++ d ∷ [] }

pub enqueue_open :
    (d : Fields) (s : Socket)
    → s.closing ≡ false
    → length s.outbox < s.capacity
    → enqueue d s ≡ (ok tt, with_envelope d s)
unfolding enqueue
enqueue_open d s opened fits = ground arith

pub enqueue_closing : (d : Fields) (s : Socket) → s.closing ≡ true → enqueue d s ≡ (ok tt, s)
unfolding enqueue
enqueue_closing d s h = ground arith

abbrev pub with_frame : String → Fields → Socket → Socket
with_frame t p s = with_envelope (frame t p none s.stream_key) s

pub send_plain :
    (t : String) (p : Fields) (s : Socket)
    → s.closing ≡ false
    → length s.outbox < s.capacity
    → send_frame t p none s ≡ (ok tt, with_frame t p s)
unfolding send_frame
send_plain t p s opened fits = enqueue_open (frame t p none s.stream_key) s opened fits

pub error_plain :
    (code message : String) (s : Socket)
    → s.closing ≡ false
    → length s.outbox < s.capacity
    → send_error code message s ≡ (ok tt, with_envelope (error_frame code message s.stream_key) s)
unfolding send_error
error_plain code message s opened fits =
    enqueue_open (error_frame code message s.stream_key) s opened fits
