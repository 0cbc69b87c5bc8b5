-- ===== src/Consumer/Heartbeat/Round.antt =====
-- Rounds of the heartbeat (`_heartbeat_loop`, consumers.py): an expired token, a pong that comes,
-- and one that does not.
use mathlib.Core.List.{append-nil}
use stapel_realtime.Prelude.{
  not, sym, if◌then◌else◌, ℕ, ◌*◌, ◌<◌, ◌≤◌, ◌^◌, String, Bool, true, false, Option, none, some,
  List, [], ◌∷◌, ◌++◌, length, ◌≡◌, refl, arith, lt→leb_false, ap, ◌∙◌,
}
use stapel_realtime.Prelude.Int.{pos, leb_ℤ}
use stapel_realtime.Python.{Value, int, units, get, end, overflow_error, finite, Result, ok, raise}
use stapel_realtime.Python.Convert.{float_of_value}
use stapel_realtime.CloseCodes.{close_unauthenticated, close_heartbeat_timeout}
use stapel_realtime.Envelope.{frame, ping}
use stapel_realtime.Consumer.State.{
  Effect, presence_heartbeat, close, stopped, sleeping, writing, waiting, emit, Socket, Context,
  beat_due, write_done, pong_due,
}
use stapel_realtime.Consumer.Outbound.Queued.{send_plain}
use stapel_realtime.Consumer.Heartbeat.{
  counted, expired_at, token_expired, beat_from, beat, renew, presence_family, user_id, on_beat_due,
  on_write_done, on_pong_due, background, backgrounds,
}
use stapel_realtime.Consumer.Inbound.{on_pong}

pos_leb : (a b : ℕ) → a ≤ b → leb_ℤ (pos a) (pos b) ≡ true
pos_leb a b h = ground arith

token_expired_int :
    (cx : Context) (n : ℕ)
    → get "exp" cx.scope.claims ≡ some (int (pos n))
    → n < 2 ^ 1024
    → n * units ≤ cx.time
    → token_expired cx ≡ ok true
unfolding token_expired float_of_value
token_expired_int cx n e small past =
    ap
      (λ o. elim o as (λ _. Result Bool) [
        | none ↦ ok false
        | some Value.null ↦ ok false
        | some v ↦ expired_at (float_of_value cx.py v) cx.time
      ])
      e
    ∙ ap
        (λ b.
          expired_at (if b then raise overflow_error else ok (finite (pos (n * units)))) cx.time)
        (lt→leb_false (2 ^ 1024) n small)
    ∙ ap ok (pos_leb (n * units) cx.time past)

abbrev pub lease : Context → Option String → Option String → List Effect
lease cx none family = []
lease cx (some session) family = presence_heartbeat (user_id cx) session family ∷ []

module _ (cx : Context) (s : Socket) (family : Option String) (asleep : s.heartbeat ≡ sleeping)
    (opened : s.closing ≡ false) (fresh : token_expired cx ≡ ok false)
    (known : presence_family cx s.stream_key ≡ ok family)
    (fits : length s.outbox < s.capacity) where
  abbrev renewed : Socket
  renewed = record s {
    heartbeat = writing;
    trace = s.trace ++ lease cx (counted s.presence_session) family;
  }

  renew_lem :
      (session : Option String)
      → renew cx (ok family) session s
        ≡ record s { heartbeat = writing; trace = s.trace ++ lease cx session family }
  renew_lem none = ap (λ t. record s { heartbeat = writing; trace = t }) (sym (append-nil s.trace))
  renew_lem (some session) = refl

  beat_renews : on_beat_due cx s ≡ renewed
  unfolding on_beat_due
  beat_renews =
      ap (λ b. beat_from cx b s) asleep
      ∙ ap (λ b. if b then record s { heartbeat = stopped } else beat cx (token_expired cx) s)
          opened
      ∙ ap (λ r. beat cx r s) fresh
      ∙ ap (λ r. renew cx r (counted s.presence_session) s) known
      ∙ renew_lem (counted s.presence_session)

  abbrev pub pinged : Socket
  pinged = record s {
    pong_pending = true;
    heartbeat = waiting;
    outbox = s.outbox ++ frame ping end none s.stream_key ∷ [];
    trace = s.trace ++ lease cx (counted s.presence_session) family;
  }

  write_pings : on_write_done renewed ≡ pinged
  unfolding on_write_done
  write_pings =
      ap (λ (r : Result (Unit {0}) × Socket). r.1)
        (send_plain ping end (record renewed { pong_pending = true; heartbeat = waiting }) opened
          fits)

  abbrev pub timed_out : Socket
  timed_out =
      emit (close close_heartbeat_timeout) (record pinged { closing = true; heartbeat = stopped })

  round_unanswered : backgrounds cx (beat_due ∷ write_done ∷ pong_due ∷ []) s ≡ timed_out
  unfolding backgrounds background on_pong_due
  round_unanswered =
      ap (λ u. on_pong_due (on_write_done u)) beat_renews
      ∙ ap on_pong_due write_pings
      ∙ ap
          (λ b.
            if not b
            then emit (close close_heartbeat_timeout)
                (record pinged { closing = true; heartbeat = stopped })
            else record pinged { heartbeat = sleeping })
          opened

  round_answered :
      on_pong_due (on_pong (backgrounds cx (beat_due ∷ write_done ∷ []) s)).1
      ≡ record pinged { pong_pending = false; heartbeat = sleeping }
  unfolding backgrounds background on_pong_due on_pong
  round_answered =
      ap (λ u. on_pong_due (on_pong (on_write_done u)).1) beat_renews
      ∙ ap (λ u. on_pong_due (on_pong u).1) write_pings

  -- A round of the heartbeat, on an open socket with an unexpired token and room: the beat renews the
  -- lease of its session and queues a ping; when no pong has come by the deadline, the socket is
  -- closed with 4408 and its heartbeat is over, and when one comes in between, the socket stays open
  -- and its heartbeat sleeps until the next beat.
  pub round_ends :
      (backgrounds cx (beat_due ∷ write_done ∷ pong_due ∷ []) s ≡ timed_out)
      × (on_pong_due (on_pong (backgrounds cx (beat_due ∷ write_done ∷ []) s)).1
          ≡ record pinged { pong_pending = false; heartbeat = sleeping })
  round_ends = (round_unanswered, round_answered)

-- A beat whose token's `exp`, a whole number of seconds below 2^1024, is not in the future: the
-- socket is closed with 4401, without another ping or a renewed lease.
pub beat_expired :
    (cx : Context) (s : Socket) (n : ℕ)
    → s.heartbeat ≡ sleeping
    → s.closing ≡ false
    → get "exp" cx.scope.claims ≡ some (int (pos n))
    → n < 2 ^ 1024
    → n * units ≤ cx.time
    → on_beat_due cx s ≡ record s {
      closing = true;
      heartbeat = stopped;
      trace = s.trace ++ close close_unauthenticated ∷ [];
    }
unfolding on_beat_due
beat_expired cx s n asleep opened e small past =
    ap (λ b. beat_from cx b s) asleep
    ∙ ap (λ b. if b then record s { heartbeat = stopped } else beat cx (token_expired cx) s) opened
    ∙ ap (λ r. beat cx r s) (token_expired_int cx n e small past)
