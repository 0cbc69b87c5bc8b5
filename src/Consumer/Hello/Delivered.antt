-- ===== src/Consumer/Hello/Delivered.antt =====
-- From the hello of a client to the last frame of its replay on the wire (consumers.py): the hooks
-- answer as `ResumableStreamConsumer` documents them, and the writer task goes on.
use mathlib.Core.List.{append_assoc}
use stapel_realtime.Prelude.{
  ℕ, ◌+◌, ◌≤◌, ◌<◌, ◌≡◌, refl, Bool, true, false, none, List, [], ◌∷◌, ◌++◌, length, map, arith, ap,
  ◌∙◌, eq_iff,
}
use stapel_realtime.Prelude.Int.{ℤ, ◌-ℤ◌, ltb_ℤ, leb_ℤ, max_ℤ, ◌≤ℤ◌, ◌<ℤ◌}
use stapel_realtime.Python.{Value, Fields, Result, ok}
use stapel_realtime.Envelope.{Frame, frame, parse_frame, hello, welcome, replay_done}
use stapel_realtime.Consumer.State.{
  Socket, Context, JournalRow, resumable, writer_step, continue, ◌>>=◌,
}
use stapel_realtime.Consumer.Outbound.{write_steps}
use stapel_realtime.Consumer.Outbound.Queued.{with_frame}
use stapel_realtime.Consumer.Outbound.Drained.{
  successes, rounds_held, pending, sent_all, all_drains,
}
use stapel_realtime.Consumer.Heartbeat.{background}
use stapel_realtime.Consumer.Lifecycle.Trust.{trusted}
use stapel_realtime.Consumer.Hello.{last_seq_of, on_hello}
use stapel_realtime.Consumer.Hello.Replay.{unseen, last_seen, replay_frame, with_rows}
use stapel_realtime.Consumer.Hello.Resume.{seq_payload, greeted, hello_catches_up}
use stapel_realtime.Consumer.Inbound.{greet, on_frame, receive_parsed, receive_json}
use stapel_realtime.Consumer.Machine.{Event, received, scheduled, handle, run}

-- "rows with `seq > after_seq`, ascending"
abbrev pub Ascending : ℤ → List JournalRow → Type 0
Ascending after_seq [] = Unit
Ascending after_seq (row ∷ rows) = (after_seq <ℤ row.seq) × Ascending row.seq rows

leb_of_lt : (a b : ℤ) → b <ℤ a → leb_ℤ a b ≡ false
leb_of_lt a b h = ground arith

pub unseen_all : (n : ℤ) (rows : List JournalRow) → Ascending n rows → unseen n rows ≡ rows
unfolding unseen
unseen_all n [] h = refl
unseen_all n (row ∷ rows) h =
    rw (leb_of_lt row.seq n h.0) (ap (λ rest. row ∷ rest) (unseen_all row.seq rows h.1))

-- A schedule in which the writer task alone runs, each of its sends with its outcome.
unfoldable pub writes : Context → List Bool → List (Context × Event)
writes cx [] = []
writes cx (sent ∷ rest) = (cx, scheduled (writer_step sent)) ∷ writes cx rest

run-writes : (cx : Context) (bs : List Bool) (s : Socket) → run (writes cx bs) s ≡ write_steps bs s
unfolding writes run write_steps background
run-writes cx [] s = refl
run-writes cx (sent ∷ rest) s = run-writes cx rest _

pub hello_received :
    (cx : Context) (content : Value) (f : Frame) (s : Socket)
    → parse_frame cx.py content ≡ ok f
    → f.kind ≡ hello
    → cx.monotonic < s.authorized_until
    → handle cx (received content) s ≡ on_hello cx f s
unfolding handle receive_json on_frame ◌>>=◌
hello_received cx content f s parsed k soon =
    ap (λ r. receive_parsed cx r s) parsed
    ∙ rw ((eq_iff f.kind hello).1 k)
        (ap (λ (r : Result Bool × Socket). continue r (greet cx f)) (trusted cx s soon))

max_of_le : (a b : ℤ) → a ≤ℤ b → max_ℤ a b ≡ b
max_of_le a b h = ground arith

module _ (cx : Context) (f : Frame) (s : Socket) (l n : ℤ) (rows : List JournalRow) where
  -- What is to be sent: the queue, the welcome, every row, and the end of the replay.
  abbrev pub caught_up : List Fields
  caught_up =
      s.outbox
      ++ frame welcome (seq_payload "server_seq" n) none s.stream_key
        ∷ (map (replay_frame s.stream_key) rows
            ++ frame replay_done (seq_payload "up_to_seq" n) none s.stream_key ∷ [])

  abbrev pub all_queued : Socket
  all_queued = record s { outbox = caught_up; max_seq_sent = last_seen l rows }

  abbrev pub all_sent : Socket
  all_sent = sent_all (pending s.in_flight caught_up) all_queued

  module _ (k : cx.kind ≡ resumable) (hl : last_seq_of cx f ≡ ok l) (hn : cx.server_seq ≡ ok n)
      (opened : s.closing ≡ false) (narrow : ltb_ℤ cx.settings.max_replay (n -ℤ l) ≡ false)
      (answer : cx.replay_rows l cx.settings.max_replay ≡ ok rows) (ascending : Ascending l rows)
      (alone : cx.meanwhile ≡ []) (seen : s.max_seq_sent ≤ℤ l)
      (fits : length s.outbox + length rows + 2 ≤ s.capacity) where
    unseen_here : unseen (max_ℤ s.max_seq_sent l) rows ≡ rows
    unseen_here = rw (max_of_le s.max_seq_sent l seen) (unseen_all l rows ascending)

    abbrev done_payload : Fields
    done_payload = seq_payload "up_to_seq" n

    abbrev welcomed : ℤ → Socket
    welcomed cursor = record (greeted cx f s l n) { max_seq_sent = cursor }

    pub queues_all : on_hello cx f s ≡ (ok tt, all_queued)
    queues_all =
        hello_catches_up cx f s l n k hl hn opened rows narrow answer alone
          (rw unseen_here (omega arith))
        ∙ ap (λ c. (ok tt, with_frame replay_done done_payload (with_rows rows (welcomed c))))
            (max_of_le s.max_seq_sent l seen)
        ∙ ap (λ ds. (ok tt, record s { outbox = ds; max_seq_sent = last_seen l rows }))
            (rw (unseen_all l rows ascending) (simp append_assoc))

    -- The replay reaches the client, where the cursor `_max_seq_sent` is not above what the client
    -- has last seen: when a hello of an authorized client comes within the window, nothing else
    -- runs while the handler waits for its hooks, and the hook answers rows that ascend from what
    -- the client has last seen, on an open socket with room for them, with a writer whose sends
    -- succeed, then so many half-rounds of the writer put on the wire all that was queued, the
    -- welcome, every row of the answer once and in order, and the end of the replay; nothing is
    -- left in the queue, and the socket is still open.
    pub resume_delivered :
        (content : Value) (extra : ℕ)
        → parse_frame cx.py content ≡ ok f
        → f.kind ≡ hello
        → cx.monotonic < s.authorized_until
        → s.writer ≡ true
        → run
            ((cx, received content)
              ∷ writes cx (successes (rounds_held s.in_flight caught_up extra)))
            s
          ≡ all_sent
    unfolding run
    resume_delivered content extra parsed greeting soon w =
        let schedule = successes (rounds_held s.in_flight caught_up extra) in
        ap (λ (r : Result (Unit {0}) × Socket). run (writes cx schedule) r.1)
          (hello_received cx content f s parsed greeting soon ∙ queues_all)
        ∙ run-writes cx schedule all_queued
        ∙ ap (λ b. write_steps schedule (record all_queued { writer = b })) w
        ∙ all_drains s.in_flight caught_up extra all_queued
