-- ===== src/Consumer/Moves/Pulse.antt =====
-- How the heartbeat of a closing socket ends (`_heartbeat_loop`, consumers.py): no task is cancelled
-- when a socket begins to close, so the loop has to come round to its test of the closing flag.
use stapel_realtime.Prelude.{
  ℕ, zero, suc, ◌≤◌, ◌≡◌, refl, Bool, true, false, List, ◌∷◌, arith, ◌&&◌, not, if◌then◌else◌,
}
use stapel_realtime.Consumer.State.{
  Socket, Context, Background, beat_due, write_done, pong_due, Beat, stopped, sleeping, writing,
  waiting,
}
use stapel_realtime.Python.{end}
use stapel_realtime.Envelope.{ping}
use stapel_realtime.Consumer.Heartbeat.{
  background, on_beat_due, on_write_done, on_pong_due, beat_from, ping_from, judge_from,
}
use stapel_realtime.Consumer.Machine.{Event, scheduled, handle, run}
use stapel_realtime.Consumer.Moves.{settled, awaits, le_refl, Moves, here, next, Move-frame}
use stapel_realtime.Consumer.Moves.Run.{AreLater, handle-Moves, run-Moves}
use stapel_realtime.Consumer.Moves.Outbound.{Runs-send_frame}

Moves-pulse :
    {s t : Socket}
    → Moves settled s t
    → s.closing ≡ true
    → (t.closing ≡ true) × (awaits t.heartbeat ≤ awaits s.heartbeat)
Moves-pulse here c = (c, le_refl _)
Moves-pulse (next p m) c =
    let (c', le) = Moves-pulse p c in
    let f = Move-frame m in
    let le' : _ ≤ _ = f.pulse refl c' in (f.closing c', omega (arith, le, le'))

-- What the heartbeat awaits when it has `n` awaits more to pass after it.
abbrev pub await_end : ℕ → Background
await_end zero = beat_due
await_end (suc zero) = pong_due
await_end (suc (suc _)) = write_done

-- The last `n` awaits of a round end among some events, in their order.
pub data Passes : ℕ → List (Context × Event) → Type 0 where
  all_passed : {events : List (Context × Event)} → Passes zero events
  other :
      {n : ℕ} {event : Context × Event} {events : List (Context × Event)}
      → Passes n events
      → Passes n (event ∷ events)
  passed :
      {n : ℕ} {cx : Context} {events : List (Context × Event)}
      → Passes n events
      → Passes (suc n) ((cx, scheduled (await_end n)) ∷ events)

-- The end of an await brings a closing loop one await nearer its end.
beat_pulse :
    (cx : Context) (b : Beat) (s : Socket)
    → s.heartbeat ≡ b
    → s.closing ≡ true
    → awaits b ≤ 1
    → awaits (beat_from cx b s).heartbeat ≤ 0
beat_pulse cx stopped s h c le = rw h (le_refl 0)
beat_pulse cx sleeping s h c le = rw c (le_refl 0)
beat_pulse cx waiting s h c le = absurd (omega arith)
beat_pulse cx writing s h c le = absurd (omega arith)

pulse-if :
    (b : Bool) (s t : Socket) (n : ℕ)
    → awaits s.heartbeat ≤ n
    → awaits t.heartbeat ≤ n
    → awaits (if b then s else t).heartbeat ≤ n
pulse-if true s t n h k = h
pulse-if false s t n h k = k

judge_pulse :
    (b : Beat) (s : Socket) → s.heartbeat ≡ b → awaits b ≤ 2 → awaits (judge_from b s).heartbeat ≤ 1
judge_pulse stopped s h le = rw h (omega arith)
judge_pulse sleeping s h le = rw h (omega arith)
judge_pulse waiting s h le =
    pulse-if (s.pong_pending && not s.closing) _ _ 1 (omega arith) (omega arith)
judge_pulse writing s h le = absurd (omega arith)

ping_pulse :
    (b : Beat) (s : Socket)
    → s.heartbeat ≡ b
    → s.closing ≡ true
    → awaits (ping_from b s).heartbeat ≤ 2
ping_pulse stopped s h c = rw h (omega arith)
ping_pulse sleeping s h c = rw h (omega arith)
ping_pulse waiting s h c = rw h (omega arith)
ping_pulse writing s h c = (Moves-pulse ((Runs-send_frame ping end refl).at _) c).1

await_pulse :
    (n : ℕ) (cx : Context) (s : Socket)
    → s.closing ≡ true
    → awaits s.heartbeat ≤ suc n
    → awaits (background cx (await_end n) s).heartbeat ≤ n
unfolding background on_beat_due on_write_done on_pong_due
await_pulse zero cx s c le = beat_pulse cx s.heartbeat s refl c le
await_pulse (suc zero) cx s c le = judge_pulse s.heartbeat s refl le
await_pulse (suc (suc n)) cx s c le = omega (arith, ping_pulse s.heartbeat s refl c)

Passes-end :
    {n : ℕ} {events : List (Context × Event)} (s : Socket)
    → Passes n events
    → s.closing ≡ true
    → AreLater events
    → awaits s.heartbeat ≤ n
    → awaits (run events s).heartbeat ≤ 0
unfolding run handle
Passes-end {events = events} s all_passed c later le =
    omega (arith, (Moves-pulse (run-Moves {late = true} events s later) c).1)
Passes-end s (other {event = (cx, event)} p) c (first, later) le =
    let (c', le') = Moves-pulse (handle-Moves cx event s first) c in
    Passes-end (handle cx event s).1 p c' later (omega (arith, le, le'))
Passes-end s (passed {n = n} {cx = cx} p) c (first, later) le =
    let (c', _) = Moves-pulse (handle-Moves cx (scheduled (await_end n)) s first) c in
    Passes-end (background cx (await_end n) s) p c' later (await_pulse n cx s c le)

is_over : (b : Beat) → awaits b ≤ 0 → b ≡ stopped
is_over stopped h = refl
is_over sleeping h = absurd (omega arith)
is_over waiting h = absurd (omega arith)
is_over writing h = absurd (omega arith)

-- The heartbeat of a closing socket comes to an end: whatever is received, delivered and written
-- meanwhile, its loop is over once the awaits have ended that it had yet to pass in its round, in
-- their order (the write of the lease, the wait for the pong, the sleep). (The socket connects no
-- more, and no signal bears a journal type.)
pub heartbeat_ends :
    (events : List (Context × Event)) (s : Socket)
    → s.closing ≡ true
    → AreLater events
    → Passes (awaits s.heartbeat) events
    → (run events s).heartbeat ≡ stopped
heartbeat_ends events s c later p =
    is_over (run events s).heartbeat (Passes-end s p c later (le_refl (awaits s.heartbeat)))
