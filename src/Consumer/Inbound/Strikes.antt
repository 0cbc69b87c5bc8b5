-- ===== src/Consumer/Inbound/Strikes.antt =====
-- Malformed frames and how they are counted (`receive_json`, consumers.py).
use stapel_realtime.Prelude.{
  ℕ, suc, ◌+◌, ◌<◌, ◌≤◌, String, true, false, none, [], ◌∷◌, ◌++◌, map, length, ◌≡◌, refl, ap, ◌∙◌,
  arith, leb, le→leb, lt→leb_false, if◌then◌else◌,
}
use stapel_realtime.Python.{Value, Fields, invalid_envelope, Result, ok, raise}
use stapel_realtime.CloseCodes.{close_protocol_error}
use stapel_realtime.Envelope.{parse_frame, error_frame, error_bad_envelope}
use stapel_realtime.Consumer.State.{send, close, Socket, Context, pure, ◌>>=◌, continue}
use stapel_realtime.Consumer.Outbound.{drain_then_close}
use stapel_realtime.Consumer.Outbound.Queued.{with_envelope, error_plain}
use stapel_realtime.Consumer.Outbound.Drained.{successes, rounds_held, pending, drained}
use stapel_realtime.Consumer.Inbound.{max_strikes, on_malformed, receive_json}

abbrev pub struck : Socket → Socket
struck s = record s { protocol_strikes = s.protocol_strikes + 1 }

abbrev pub report : String → Socket → Fields
report message s = error_frame error_bad_envelope message s.stream_key

malformed_reports :
    (cx : Context) (message : String) (s : Socket)
    → s.closing ≡ false
    → length s.outbox < s.capacity
    → on_malformed cx message s
      ≡ (if leb max_strikes (s.protocol_strikes + 1)
            then drain_then_close cx.draining close_protocol_error
            else pure tt)
          (with_envelope (report message s) (struck s))
unfolding on_malformed ◌>>=◌
malformed_reports cx message s opened fits =
    ap
      (λ (r : Result (Unit {0}) × Socket). continue r λ _. λ u.
        (if leb max_strikes u.protocol_strikes
            then drain_then_close cx.draining close_protocol_error
            else pure tt)
          u)
      (error_plain error_bad_envelope message (struck s) opened fits)

malformed_received :
    (cx : Context) (content : Value) (message : String) (s : Socket)
    → parse_frame cx.py content ≡ raise (invalid_envelope message)
    → receive_json cx content s ≡ on_malformed cx message s
unfolding receive_json
malformed_received cx content message s h = rw h refl

module _ (cx : Context) (content : Value) (message : String) (s : Socket)
    (malformed : parse_frame cx.py content ≡ raise (invalid_envelope message))
    (opened : s.closing ≡ false) (fits : length s.outbox < s.capacity) where
  -- Before the third, a frame that is no envelope, on an open socket with room, is counted and
  -- answered by an error frame with the parser's message; nothing else changes.
  pub early_strike :
      suc s.protocol_strikes < max_strikes
      → receive_json cx content s ≡ (ok tt, with_envelope (report message s) (struck s))
  early_strike few =
      malformed_received cx content message s malformed
      ∙ malformed_reports cx message s opened fits
      ∙ rw (lt→leb_false max_strikes (s.protocol_strikes + 1) (omega arith)) refl

  -- From the third malformed frame on, on an open socket with room for its report and a writer
  -- whose sends succeed within the drain, the client receives all that was queued, the error frame
  -- last, and then the close 4400.
  pub last_strike :
      (n : ℕ)
      → max_strikes ≤ suc s.protocol_strikes
      → s.writer ≡ true
      → cx.draining ≡ successes (rounds_held s.in_flight (s.outbox ++ report message s ∷ []) n)
      → receive_json cx content s ≡ (
        ok tt,
        record s {
          protocol_strikes = s.protocol_strikes + 1;
          closing = true;
          writer = true;
          in_flight = none;
          outbox = [];
          trace =
              (s.trace ++ map send (pending s.in_flight (s.outbox ++ report message s ∷ [])))
              ++ close close_protocol_error ∷ [];
        },
      )
  last_strike n many w drains =
      malformed_received cx content message s malformed
      ∙ malformed_reports cx message s opened fits
      ∙ rw (le→leb max_strikes (s.protocol_strikes + 1) (omega arith)) (
          ap
            (λ bs.
              drain_then_close bs close_protocol_error
                (with_envelope (report message s) (struck s)))
            drains
          ∙ drained close_protocol_error n (with_envelope (report message s) (struck s)) w)
