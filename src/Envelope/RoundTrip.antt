-- ===== src/Envelope/RoundTrip.antt =====
-- `parse_frame` of what `frame` builds (envelope.py).
use stapel_realtime.Prelude.{String, ◌≡◌, ◌≢◌, Option, none, some, arith, eq_iff}
use stapel_realtime.Prelude.Int.{ℤ}
use stapel_realtime.Python.{Fields, obj, ok, Texts, get_or_null}
use stapel_realtime.Python.Convert.{equals_one, to_int}
use stapel_realtime.Envelope.{frame, parse_frame}

-- A frame with a non-empty type, any payload, and with or without `seq` and `stream`, is parsed
-- into exactly the type, payload, `seq` and `stream` that it was built from.
pub parse_frame-frame :
    (py : Texts) (t : String) (p : Fields) (seq : Option ℤ) (stream : Option String)
    → t ≢ ""
    → parse_frame py (obj (frame t p seq stream))
      ≡ ok (record { kind = t; payload = p; seq = seq; stream = stream })
unfolding parse_frame frame get_or_null equals_one to_int
parse_frame-frame py t p none none h = ground (arith, eq_iff t "")
parse_frame-frame py t p none (some s) h = ground (arith, eq_iff t "")
parse_frame-frame py t p (some n) none h = ground (arith, eq_iff t "")
parse_frame-frame py t p (some n) (some s) h = ground (arith, eq_iff t "")
