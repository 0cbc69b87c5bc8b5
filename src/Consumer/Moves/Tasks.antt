-- ===== src/Consumer/Moves/Tasks.antt =====
-- The background tasks of a socket make moves only (`Consumer.Heartbeat`).
use stapel_realtime.Prelude.{
  arith, ◌≤◌, String, ◌≡◌, refl, Bool, true, false, Option, none, some, List, [], ◌∷◌, ◌&&◌, not,
  str_eq, Bool-cases, inl, inr,
}
use stapel_realtime.CloseCodes.{has_code}
use stapel_realtime.Python.{end, Result, ok, raise}
use stapel_realtime.Envelope.{ping}
use stapel_realtime.Consumer.State.{
  Socket, Context, Beat, stopped, sleeping, writing, waiting, Background, writer_step, beat_due,
  write_done, pong_due, close, presence_heartbeat,
}
use stapel_realtime.Consumer.Heartbeat.{
  counted, token_expired, presence_family, user_id, renew, beat, beat_from, ping_from, judge_from,
  background, backgrounds,
}
use stapel_realtime.Consumer.Moves.{
  awaits, sent_frames, Mode, Stays, calm, ended, renewed, Moves, here, Moves-trans,
}
use stapel_realtime.Consumer.Moves.Actions.{Moves-if_state}
use stapel_realtime.Consumer.Moves.Outbound.{Moves-same, emit-Moves, Runs-send_frame, ≤ℤ_refl}
use stapel_realtime.Consumer.Moves.Writer.{write_step-Moves}

-- A change of fields that are no frames and no effects.
pub still-Moves :
    {mode : Mode} (s t : Socket)
    → t.capacity ≡ s.capacity
    → (s.closing ≡ true → t.closing ≡ true)
    → (mode.late ≡ true → s.writer ≡ false → t.writer ≡ false)
    → (mode.late ≡ true → s.closing ≡ true → awaits t.heartbeat ≤ awaits s.heartbeat)
    → t.max_seq_sent ≡ s.max_seq_sent
    → t.outbox ≡ s.outbox
    → t.in_flight ≡ s.in_flight
    → t.trace ≡ s.trace
    → (mode.staying ≡ true → Stays s t)
    → Moves mode s t
still-Moves s t c k w p m o i e st =
    Moves-same s t (record { capacity = c; closing = k; writer = w; pulse = p; stay = st })
      (rw m (≤ℤ_refl s.max_seq_sent)) o i (rw e)

counted-some : (o : Option String) (session : String) → counted o ≡ some session → o ≡ some session
counted-some none session h = absurd cc
counted-some (some name) session h = elim (Bool-cases (str_eq name "")) [
  | inl e ↦ absurd (ground arith)
  | inr e ↦ ground arith
]

renew-Moves :
    {mode : Mode} (cx : Context) (r : Result (Option String)) (session : Option String) (s : Socket)
    → s.closing ≡ false
    → counted s.presence_session ≡ session
    → Moves mode s (renew cx r session s)
unfolding sent_frames
renew-Moves cx (ok family) (some session) s o known =
    Moves-trans
      (still-Moves s (record s { heartbeat = writing }) refl (λ c. c) (λ _ w. w) (λ _ c. absurd cc)
        refl refl refl refl (λ _. calm refl refl refl))
      (emit-Moves _ (presence_heartbeat (user_id cx) session family) refl (λ _.
        renewed (user_id cx) session family (counted-some s.presence_session session known) refl))
renew-Moves cx (raise e) (some session) s o known =
    still-Moves s _ refl (λ c. c) (λ _ w. w) (λ _ c. absurd cc) refl refl refl refl
      (λ _. calm refl refl refl)
renew-Moves cx _ none s o known =
    still-Moves s _ refl (λ c. c) (λ _ w. w) (λ _ c. absurd cc) refl refl refl refl
      (λ _. calm refl refl refl)

beat-Moves :
    {mode : Mode} (cx : Context) (r : Result Bool) (s : Socket)
    → s.closing ≡ false
    → Moves mode s (beat cx r s)
unfolding sent_frames has_code
beat-Moves cx (raise e) s o =
    still-Moves s _ refl (λ c. c) (λ _ w. w) (λ _ c. absurd cc) refl refl refl refl
      (λ _. calm refl refl refl)
beat-Moves cx (ok true) s o =
    Moves-trans
      (still-Moves s (record s { closing = true; heartbeat = stopped }) refl (λ c. refl) (λ _ w. w)
        (λ _ _. omega arith) refl refl refl refl (λ _. calm refl refl refl))
      (emit-Moves _ (close _) refl (λ _. ended _ refl refl refl))
beat-Moves cx (ok false) s o =
    renew-Moves cx (presence_family cx s.stream_key) (counted s.presence_session) s o refl

beat_from-Moves :
    {mode : Mode} (cx : Context) (b : Beat) (s : Socket)
    → s.heartbeat ≡ b
    → Moves mode s (beat_from cx b s)
beat_from-Moves cx sleeping s h =
    Moves-if_state s s.closing _ _
      (λ c.
        still-Moves s _ refl (λ c. c) (λ _ w. w) (λ _ _. omega arith) refl refl refl refl
          (λ _. calm refl refl refl))
      (beat-Moves cx (token_expired cx) s)
beat_from-Moves cx _ s h = here

ping_from-Moves :
    {mode : Mode} (b : Beat) (s : Socket) → s.heartbeat ≡ b → Moves mode s (ping_from b s)
ping_from-Moves writing s h =
    Moves-trans
      (still-Moves s (record s { pong_pending = true; heartbeat = waiting }) refl (λ c. c)
        (λ _ w. w) (λ _ _. rw h (omega arith)) refl refl refl refl (λ _. calm refl refl refl))
      ((Runs-send_frame ping end refl).at _)
ping_from-Moves _ s h = here

judge_from-Moves :
    {mode : Mode} (b : Beat) (s : Socket) → s.heartbeat ≡ b → Moves mode s (judge_from b s)
unfolding sent_frames has_code
judge_from-Moves waiting s h =
    Moves-if_state s (s.pong_pending && not s.closing) _ _
      (λ late.
        Moves-trans
          (still-Moves s (record s { closing = true; heartbeat = stopped }) refl (λ c. refl)
            (λ _ w. w) (λ _ _. omega arith) refl refl refl refl (λ _. calm refl refl refl))
          (emit-Moves _ (close _) refl (λ _. ended _ refl refl refl)))
      (λ fine.
        still-Moves s _ refl (λ c. c) (λ _ w. w) (λ _ _. rw h (omega arith)) refl refl refl refl
          (λ _. calm refl refl refl))
judge_from-Moves _ s h = here

pub background-Moves :
    {mode : Mode} (cx : Context) (b : Background) (s : Socket) → Moves mode s (background cx b s)
unfolding background
background-Moves cx (writer_step sent) s = write_step-Moves sent s
background-Moves cx beat_due s = beat_from-Moves cx s.heartbeat s refl
background-Moves cx write_done s = ping_from-Moves s.heartbeat s refl
background-Moves cx pong_due s = judge_from-Moves s.heartbeat s refl

pub backgrounds-Moves :
    {mode : Mode} (cx : Context) (bs : List Background) (s : Socket)
    → Moves mode s (backgrounds cx bs s)
unfolding backgrounds
backgrounds-Moves cx [] s = here
backgrounds-Moves cx (b ∷ bs) s =
    Moves-trans (background-Moves cx b s) (backgrounds-Moves cx bs (background cx b s))
