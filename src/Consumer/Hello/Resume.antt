-- ===== src/Consumer/Hello/Resume.antt =====
-- `ResumableStreamConsumer.on_hello` as a whole (consumers.py): the resume of a journal on each of
-- its branches.
use mathlib.Core.Path.{subst}
use stapel_realtime.Prelude.{
  suc, ◌+◌, ◌≤◌, ◌<◌, String, ◌≡◌, refl, Bool, true, false, none, List, [], ◌∷◌, ◌++◌, length,
  length-append, length-map, map, arith, ap, sym, ◌∙◌, if◌then◌else◌,
}
use stapel_realtime.Prelude.Int.{ℤ, ◌-ℤ◌, ltb_ℤ, max_ℤ}
use stapel_realtime.Python.{Fields, end, field, int, Result, ok, raise}
use stapel_realtime.Envelope.{Frame, frame, welcome, replay_done, resync}
use stapel_realtime.Consumer.State.{
  Socket, Context, JournalRow, resumable, Step, modify, continue, close, ◌>>=◌, ◌>>◌,
}
use stapel_realtime.Consumer.Outbound.{send_frame}
use stapel_realtime.Consumer.Outbound.Queued.{with_frame, send_plain}
use stapel_realtime.Consumer.Heartbeat.{backgrounds}
use stapel_realtime.Consumer.Hello.{
  last_seq_of, wait_for_hook, replay_all, resync_payload, catch_up, resume, hello_from, on_hello_of,
  on_hello,
}
use stapel_realtime.Consumer.Hello.Replay.{
  unseen, replay_frame, with_rows, replay_all_fits, replay_all_overflows, Overflowed,
}

abbrev pub seq_payload : String → ℤ → Fields
seq_payload name n = field name (int n) end

if_apply : (b : Bool) (m k : Step) (s : Socket) → (if b then m else k) s ≡ (if b then m s else k s)
if_apply true m k s = refl
if_apply false m k s = refl

-- The handler, once the frame's `last_seq` and the server's sequence are known.
module _ (cx : Context) (f : Frame) (s : Socket) (l n : ℤ) where
  on_hello_resumes :
      cx.kind ≡ resumable
      → last_seq_of cx f ≡ ok l
      → cx.server_seq ≡ ok n
      → on_hello cx f s ≡ resume cx l n s
  unfolding on_hello on_hello_of ◌>>=◌
  on_hello_resumes k hl hn =
      ap (λ q. on_hello_of cx q f s) k
      ∙ ap (λ r. hello_from cx r s) hl
      ∙ ap (λ r. continue (r, s) (resume cx l)) hn

  abbrev pub greeted : Socket
  greeted = record s {
    outbox = s.outbox ++ frame welcome (seq_payload "server_seq" n) none s.stream_key ∷ [];
    max_seq_sent = max_ℤ s.max_seq_sent l;
  }

  resume_greets :
      s.closing ≡ false
      → length s.outbox < s.capacity
      → resume cx l n s ≡ (
          if ltb_ℤ cx.settings.max_replay (n -ℤ l)
          then send_frame resync (resync_payload l cx.settings.max_replay n) none greeted
          else catch_up cx l n greeted)
  unfolding resume ◌>>=◌
  resume_greets opened fits =
      ap
        (λ r. continue r λ _.
          modify (λ (u : Socket). record u { max_seq_sent = max_ℤ u.max_seq_sent l })
          >> (if ltb_ℤ cx.settings.max_replay (n -ℤ l)
              then send_frame resync (resync_payload l cx.settings.max_replay n) none
              else catch_up cx l n))
        (send_plain welcome (seq_payload "server_seq" n) s opened fits)
      ∙ if_apply (ltb_ℤ cx.settings.max_replay (n -ℤ l)) _ _ greeted

  greeted_room : length greeted.outbox ≡ suc (length s.outbox)
  greeted_room = omega (
    arith,
    length-append s.outbox (frame welcome (seq_payload "server_seq" n) none s.stream_key ∷ []),
  )

-- The catch-up: what the hook answers, after what the other tasks did meanwhile.
finish : ℤ → List JournalRow → Step
finish n rows = replay_all rows >> send_frame replay_done (seq_payload "up_to_seq" n) none

catch_up_lem :
    (cx : Context) (l n : ℤ) (u : Socket)
    → catch_up cx l n u
      ≡ continue (cx.replay_rows l cx.settings.max_replay, backgrounds cx cx.meanwhile u) (finish n)
unfolding catch_up wait_for_hook finish ◌>>=◌
catch_up_lem cx l n u = refl

finish_fits :
    (n : ℤ) (rows : List JournalRow) (u : Socket)
    → u.closing ≡ false
    → suc (length u.outbox + length (unseen u.max_seq_sent rows)) ≤ u.capacity
    → finish n rows u
      ≡ (ok tt, with_frame replay_done (seq_payload "up_to_seq" n) (with_rows rows u))
unfolding finish ◌>>=◌
finish_fits n rows u opened fits =
    ap (λ r. continue r (λ _. send_frame replay_done (seq_payload "up_to_seq" n) none))
      (replay_all_fits rows u opened (omega arith))
    ∙ send_plain replay_done (seq_payload "up_to_seq" n) (with_rows rows u) opened (
        omega (
          arith,
          length-append u.outbox (map (replay_frame u.stream_key) (unseen u.max_seq_sent rows)),
          length-map (unseen u.max_seq_sent rows) (replay_frame u.stream_key),
        ))

send_plain_closing :
    (t : String) (p : Fields) (s u : Socket)
    → Overflowed s u
    → Overflowed s (send_frame t p none u).1
unfolding send_frame
send_plain_closing t p s u h = ground arith

finish_ok :
    (n : ℤ) (s : Socket) (r : Result (Unit {0}) × Socket)
    → Overflowed s r.1
    → Overflowed s (continue r (λ _. send_frame replay_done (seq_payload "up_to_seq" n) none)).1
finish_ok n s (ok _, u) h = send_plain_closing replay_done (seq_payload "up_to_seq" n) s u h
finish_ok n s (raise _, u) h = h

finish_overflows :
    (n : ℤ) (rows : List JournalRow) (u : Socket)
    → u.closing ≡ false
    → u.capacity < length (unseen u.max_seq_sent rows)
    → length u.outbox ≤ u.capacity
    → Overflowed u (finish n rows u).1
unfolding finish ◌>>=◌
finish_overflows n rows u opened over room =
    finish_ok n u (replay_all rows u) (replay_all_overflows rows u opened (omega arith) room)

-- The outcomes of a hello whose `last_seq` and server sequence are `l` and `n`.
module _ (cx : Context) (f : Frame) (s : Socket) (l n : ℤ) (k : cx.kind ≡ resumable)
    (hl : last_seq_of cx f ≡ ok l) (hn : cx.server_seq ≡ ok n) (opened : s.closing ≡ false) where
  -- Past the window, on an open socket with room for two frames, a hello is answered by the welcome
  -- and the resync with the gap, the window and the server's sequence; no row is replayed, and the
  -- socket stays open.
  pub hello_resyncs :
      ltb_ℤ cx.settings.max_replay (n -ℤ l) ≡ true
      → suc (length s.outbox) < s.capacity
      → on_hello cx f s ≡ (
        ok tt,
        with_frame resync
            (field "gap"
              (int (n -ℤ l))
              (field "window" (int cx.settings.max_replay) (field "server_seq" (int n) end)))
            (greeted cx f s l n),
      )
  unfolding resync_payload
  hello_resyncs wide fits =
      on_hello_resumes cx f s l n k hl hn
      ∙ resume_greets cx f s l n opened (omega arith)
      ∙ rw wide
          (send_plain resync _ (greeted cx f s l n) opened (omega (arith, greeted_room cx f s l n)))

  module _ (rows : List JournalRow) (narrow : ltb_ℤ cx.settings.max_replay (n -ℤ l) ≡ false)
      (answer : cx.replay_rows l cx.settings.max_replay ≡ ok rows) where
    abbrev cursor : ℤ
    cursor = max_ℤ s.max_seq_sent l

    hello_finishes :
        length s.outbox < s.capacity
        → on_hello cx f s ≡ finish n rows (backgrounds cx cx.meanwhile (greeted cx f s l n))
    hello_finishes fits =
        on_hello_resumes cx f s l n k hl hn
        ∙ resume_greets cx f s l n opened fits
        ∙ rw narrow (catch_up_lem cx l n (greeted cx f s l n))
        ∙ ap (λ r. continue (r, backgrounds cx cx.meanwhile (greeted cx f s l n)) (finish n)) answer

    -- Within the window, on an open socket with room for the welcome, the rows past the cursor and
    -- the end of the replay, and nothing else running meanwhile, a hello queues exactly these: the
    -- rows with a `seq` above all that was sent or acknowledged before, in order, each once.
    pub hello_catches_up :
        cx.meanwhile ≡ []
        → length s.outbox + length (unseen cursor rows) + 2 ≤ s.capacity
        → on_hello cx f s ≡ (
          ok tt,
          with_frame replay_done (seq_payload "up_to_seq" n) (with_rows rows (greeted cx f s l n)),
        )
    hello_catches_up alone fits =
        hello_finishes (omega arith)
        ∙ ap (λ bs. finish n rows (backgrounds cx bs (greeted cx f s l n))) alone
        ∙ unfold backgrounds in
          finish_fits n rows (greeted cx f s l n) opened (omega (arith, greeted_room cx f s l n))

    -- A replay of more rows past the cursor than the queue holds closes an open socket, which has
    -- room for the welcome and nothing else running meanwhile, even within the window and with an
    -- empty queue: the rows are queued without a pause for the writer. What the hello does beyond
    -- its queue is the one close, 4413; nothing is sent, and the socket is closing.
    pub hello_overflows :
        cx.meanwhile ≡ []
        → length s.outbox < s.capacity
        → s.capacity < length (unseen cursor rows)
        → ((on_hello cx f s).1.closing ≡ true)
          × ((on_hello cx f s).1.trace ≡ s.trace ++ close 4413 ∷ [])
    hello_overflows alone fits over =
        subst (λ (r : Result (Unit {0}) × Socket). Overflowed s r.1)
          (sym (
            hello_finishes fits
            ∙ ap (λ bs. finish n rows (backgrounds cx bs (greeted cx f s l n))) alone))
          (unfold backgrounds in
            finish_overflows n rows (greeted cx f s l n) opened over
              (omega (arith, greeted_room cx f s l n)))
