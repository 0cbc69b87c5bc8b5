-- ===== src/Consumer/Lifecycle/Trust.antt =====
-- The trust that a verdict leaves (`_authorize_cached`, consumers.py), and its end.
use stapel_realtime.Prelude.{
  ℕ, ◌+◌, ◌*◌, ◌<◌, ◌≤◌, String, Bool, true, false, lt→ltb, le→ltb_false, none, [], ◌∷◌, ◌++◌, map,
  length, sym, eq_iff, ◌≡◌, refl, ap, ◌∙◌,
}
use stapel_realtime.Prelude.Int.{pos_part}
use stapel_realtime.Python.{Fields, units, Result, ok}
use stapel_realtime.CloseCodes.{close_forbidden}
use stapel_realtime.Envelope.{Frame, hello, error_frame, error_unauthorized}
use stapel_realtime.Consumer.State.{send, close, Socket, Context, ◌>>=◌, continue}
use stapel_realtime.Consumer.Outbound.{drain_then_close}
use stapel_realtime.Consumer.Outbound.Queued.{with_envelope, error_plain}
use stapel_realtime.Consumer.Outbound.Drained.{successes, rounds_held, pending, drained}
use stapel_realtime.Consumer.Lifecycle.{authorize, remember, after_asking, authorize_cached}
use stapel_realtime.Consumer.Inbound.{greet, on_frame}

abbrev denial_message : String
denial_message = "no longer authorized for this stream"

abbrev pub denial : Socket → Fields
denial s = error_frame error_unauthorized denial_message s.stream_key

-- How long a verdict is trusted.
abbrev pub window : Context → ℕ
window cx = pos_part cx.settings.authorize_cache_s * units

asked :
    (cx : Context) (s : Socket)
    → authorize cx s.stream_key ≡ ok true
    → authorize_cached cx true s ≡ (ok true, remember cx true s)
unfolding authorize_cached
asked cx s h = ap (λ r. after_asking cx r s) h

pub trusted :
    (later : Context) (s : Socket)
    → later.monotonic < s.authorized_until
    → authorize_cached later false s ≡ (ok true, s)
unfolding authorize_cached
trusted later s soon = rw (lt→ltb later.monotonic s.authorized_until soon) refl

asked_again :
    (later : Context) (s : Socket)
    → s.authorized_until ≤ later.monotonic
    → authorize_cached later false s ≡ after_asking later (authorize later s.stream_key) s
unfolding authorize_cached
asked_again later s late = rw (le→ltb_false later.monotonic s.authorized_until late) refl

-- Within the window of a yes, the authorizer is not asked, whatever it would say by now.
trust_holds :
    (cx later : Context) (s : Socket)
    → authorize cx s.stream_key ≡ ok true
    → later.monotonic < cx.monotonic + window cx
    → authorize_cached later false (authorize_cached cx true s).1
      ≡ (ok true, (authorize_cached cx true s).1)
trust_holds cx later s h soon =
    ap (λ (r : Result Bool × Socket). authorize_cached later false r.1) (asked cx s h)
    ∙ trusted later (remember cx true s) soon
    ∙ ap (λ (r : Result Bool × Socket). (ok true, r.1)) (sym (asked cx s h))

-- A hello after the window of the last yes, when the authorizer now says no: on an open socket with
-- room and a writer whose sends succeed within the drain, the client receives all that was queued,
-- the error frame last, and then the close 4403; the resume is not started.
pub denied_hello_closes :
    (cx : Context) (f : Frame) (s : Socket) (n : ℕ)
    → f.kind ≡ hello
    → s.authorized_until ≤ cx.monotonic
    → authorize cx s.stream_key ≡ ok false
    → s.closing ≡ false
    → s.writer ≡ true
    → length s.outbox < s.capacity
    → cx.draining ≡ successes (rounds_held s.in_flight (s.outbox ++ denial s ∷ []) n)
    → on_frame cx f s ≡ (
      ok tt,
      record s {
        authorized_until = 0;
        closing = true;
        writer = true;
        in_flight = none;
        outbox = [];
        trace =
            (s.trace ++ map send (pending s.in_flight (s.outbox ++ denial s ∷ [])))
            ++ close close_forbidden ∷ [];
      },
    )
unfolding on_frame ◌>>=◌
denied_hello_closes cx f s n k late denied opened w fits drains = rw ((eq_iff f.kind hello).1 k) (
    ap (λ (r : Result Bool × Socket). continue r (greet cx f)) (asked_again cx s late)
    ∙ ap (λ r. continue (after_asking cx r s) (greet cx f)) denied
    ∙ ap
        (λ (r : Result (Unit {0}) × Socket).
          continue r (λ _. drain_then_close cx.draining close_forbidden))
        (error_plain error_unauthorized denial_message (remember cx false s) opened fits)
    ∙ ap
        (λ bs. drain_then_close bs close_forbidden (with_envelope (denial s) (remember cx false s)))
        drains
    ∙ drained close_forbidden n (with_envelope (denial s) (remember cx false s)) w)
