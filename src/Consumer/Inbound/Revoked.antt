-- ===== src/Consumer/Inbound/Revoked.antt =====
-- A revocation on its way (`revoke`, delivery.py) and at a socket (`realtime_revoke`, consumers.py).
use stapel_realtime.Prelude.{
  ℕ, ◌<◌, String, true, false, Option, none, some, List, [], ◌∷◌, ◌++◌, map, length, ◌≡◌, ◌≢◌, refl,
  ap, ◌∙◌, arith, eq_iff,
}
use stapel_realtime.Python.{Fields, str, end, field, Result, ok}
use stapel_realtime.Python.Convert.{text_of}
use stapel_realtime.CloseCodes.{close_revoked}
use stapel_realtime.Envelope.{frame, kick}
use stapel_realtime.Consumer.State.{send, close, Socket, Context, ◌>>=◌, continue}
use stapel_realtime.Consumer.Outbound.{drain_then_close}
use stapel_realtime.Consumer.Outbound.Queued.{with_frame, send_plain}
use stapel_realtime.Consumer.Outbound.Drained.{successes, rounds_held, pending, drained}
use stapel_realtime.Consumer.Heartbeat.{user_id}
use stapel_realtime.Consumer.Inbound.{spares, reason_or_default, on_revoke}

-- Whom a revocation hits: everybody, or the user whose id reads as its target.
pub data IsHit (cx : Context) : Option String → Type 0 where
  everyone : IsHit cx none
  own : IsHit cx (some (text_of cx.py (user_id cx)))

hit_not_spared :
    (cx : Context) (target : Option String) → IsHit cx target → spares cx target ≡ false
unfolding spares
hit_not_spared cx _ everyone = refl
hit_not_spared cx _ own =
    rw ((eq_iff (text_of cx.py (user_id cx)) (text_of cx.py (user_id cx))).1 refl) refl

other_spared :
    (cx : Context) (t : String) → t ≢ text_of cx.py (user_id cx) → spares cx (some t) ≡ true
unfolding spares
other_spared cx t h = ground (arith, eq_iff t (text_of cx.py (user_id cx)))

abbrev kick_payload : String → Fields
kick_payload reason = field "reason" (str (reason_or_default reason)) end

abbrev pub kick_frame : String → Socket → Fields
kick_frame reason s = frame "kick" (kick_payload reason) none s.stream_key

abbrev pub with_kick : String → Socket → List Fields
with_kick reason s = s.outbox ++ kick_frame reason s ∷ []

-- A revocation of another user leaves the socket as it is.
pub revoked_spares :
    (cx : Context) (t reason : String) (s : Socket)
    → t ≢ text_of cx.py (user_id cx)
    → on_revoke cx (some t) reason s ≡ (ok tt, s)
unfolding on_revoke
revoked_spares cx t reason s h = rw (other_spared cx t h) refl

-- A revocation that hits an open socket with room in its queue, whose sends succeed within the
-- drain: the client receives all that was queued, in order, then the kick, then the close 4410.
pub revoked_kicks :
    (cx : Context) (target : Option String) (reason : String) (s : Socket) (n : ℕ)
    → IsHit cx target
    → s.closing ≡ false
    → s.writer ≡ true
    → length s.outbox < s.capacity
    → cx.draining ≡ successes (rounds_held s.in_flight (with_kick reason s) n)
    → on_revoke cx target reason s ≡ (
      ok tt,
      record s {
        closing = true;
        writer = true;
        in_flight = none;
        outbox = [];
        trace =
            (s.trace ++ map send (pending s.in_flight (with_kick reason s)))
            ++ close close_revoked ∷ [];
      },
    )
unfolding on_revoke ◌>>=◌
revoked_kicks cx target reason s n h opened w fits drains = rw (hit_not_spared cx target h) (
    ap
      (λ (r : Result (Unit {0}) × Socket).
        continue r (λ _. drain_then_close cx.draining close_revoked))
      (send_plain kick (kick_payload reason) s opened fits)
    ∙ ap (λ bs. drain_then_close bs close_revoked (with_frame kick (kick_payload reason) s)) drains
    ∙ drained close_revoked n (with_frame kick (kick_payload reason) s) w)
