-- ===== src/Consumer/Hello/Overlap.antt =====
-- A replay and the live frames after it (consumers.py), numbered by the journal one by one: what the
-- client gets of both.
use mathlib.Core.Path.{subst}
use stapel_realtime.Prelude.{
  ◌+◌, ◌≤◌, ◌<◌, String, ◌≡◌, refl, false, none, List, [], ◌∷◌, ◌++◌, length, length-append,
  length-map, map, arith, ap, sym, ◌∙◌, Bool-cases, inl, inr,
}
use stapel_realtime.Prelude.Int.{
  ℤ, pos, negsuc, pos_part, neg_part, ◌-ℤ◌, ltb_ℤ, leb_ℤ, leb_ℤ→>, ◌≤ℤ◌, ◌<ℤ◌,
}
use stapel_realtime.Python.{Value, Fields, Result, ok}
use stapel_realtime.Envelope.{Frame, frame, parse_frame, hello, live, replay, welcome, replay_done}
use stapel_realtime.Delivery.{realtime_frame}
use stapel_realtime.Consumer.State.{Socket, Context, JournalRow, resumable}
use stapel_realtime.Consumer.Hello.{last_seq_of, on_hello}
use stapel_realtime.Consumer.Hello.Replay.{
  unseen, last_seen, row_frame, send_all, with_sent, send_all_fits,
}
use stapel_realtime.Consumer.Hello.Resume.{seq_payload}
use stapel_realtime.Consumer.Hello.Delivered.{
  Ascending, unseen_all, caught_up, all_queued, queues_all, hello_received,
}
use stapel_realtime.Consumer.Inbound.{on_message, on_journal}
use stapel_realtime.Consumer.Machine.{Event, received, messaged, handle, run}

-- `b` is one more than `a`.
abbrev pub IsNext : ℤ → ℤ → Type 0
IsNext a b = pos_part b + neg_part a ≡ pos_part a + neg_part b + 1

-- Rows that are numbered one by one, after `a` up to `b`.
abbrev pub Consecutive : ℤ → List JournalRow → ℤ → Type 0
Consecutive a [] b = a ≡ b
Consecutive a (row ∷ rows) b = IsNext a row.seq × Consecutive row.seq rows b

le_antisym : (a b : ℤ) → a ≤ℤ b → b ≤ℤ a → a ≡ b
le_antisym (pos m) (pos n) h k = ap pos (omega arith)
le_antisym (pos m) (negsuc n) h k = absurd (omega arith)
le_antisym (negsuc m) (pos n) h k = absurd (omega arith)
le_antisym (negsuc m) (negsuc n) h k = ap negsuc (omega arith)

Consecutive-Ascending : (a b : ℤ) (rows : List JournalRow) → Consecutive a rows b → Ascending a rows
Consecutive-Ascending a b [] h = tt
Consecutive-Ascending a b (row ∷ rows) h = (omega arith, Consecutive-Ascending row.seq b rows h.1)

Consecutive-append :
    (a b c : ℤ) (xs ys : List JournalRow)
    → Consecutive a xs b
    → Consecutive b ys c
    → Consecutive a (xs ++ ys) c
Consecutive-append a b c [] ys h k = subst (λ x. Consecutive x ys c) (sym h) k
Consecutive-append a b c (x ∷ xs) ys h k = (h.0, Consecutive-append x.seq b c xs ys h.1 k)

last_seen_end : (a b : ℤ) (rows : List JournalRow) → Consecutive a rows b → last_seen a rows ≡ b
unfolding last_seen
last_seen_end a b [] h = h
last_seen_end a b (row ∷ rows) h = rw (above a row.seq h.0) (last_seen_end row.seq b rows h.1)
  where
    above : (a b : ℤ) → IsNext a b → leb_ℤ b a ≡ false
    above a b h = ground arith

IsNext-raise : (a n b : ℤ) → IsNext a b → a ≤ℤ n → n <ℤ b → IsNext n b
IsNext-raise a n b h low high = omega arith

-- Of live rows that begin at or below the cursor, those past it go on from the cursor.
unseen-Consecutive :
    (a n m : ℤ) (lives : List JournalRow)
    → Consecutive a lives m
    → a ≤ℤ n
    → n ≤ℤ m
    → Consecutive n (unseen n lives) m
unfolding unseen
unseen-Consecutive a n m [] h low high = le_antisym n m high (subst (λ x. x ≤ℤ n) h low)
unseen-Consecutive a n m (row ∷ lives) h low high = elim (Bool-cases (leb_ℤ row.seq n)) [
  | inl old ↦ rw old (unseen-Consecutive row.seq n m lives h.1 (ground arith) high)
  | inr new ↦
      rw (new, unseen_all row.seq lives (Consecutive-Ascending row.seq m lives h.1))
        (IsNext-raise a n row.seq h.0 low (leb_ℤ→> row.seq n new), h.1)
]

unfoldable pub live_events : Context → String → List JournalRow → List (Context × Event)
live_events cx key [] = []
live_events cx key (row ∷ rows) =
    (cx, messaged (realtime_frame key row.seq row.payload)) ∷ live_events cx key rows

run-live_events :
    (cx : Context) (key : String) (rows : List JournalRow) (s : Socket)
    → run (live_events cx key rows) s ≡ (send_all live rows s).1
unfolding live_events run handle on_message on_journal send_all
run-live_events cx key [] s = refl
run-live_events cx key (row ∷ rows) s = run-live_events cx key rows _

module _ (cx : Context) (f : Frame) (s : Socket) (l n first end_ m : ℤ)
    (rows lives : List JournalRow) where
  -- The live rows that the replay has not sent.
  abbrev pub news : List JournalRow
  news = unseen end_ lives

  abbrev pub with_news : List Fields
  with_news = caught_up cx f s l n rows ++ map (row_frame live s.stream_key) news

  caught_up_size : length (caught_up cx f s l n rows) ≡ length s.outbox + length rows + 2
  caught_up_size =
      let greeting = frame welcome (seq_payload "server_seq" n) none s.stream_key in
      let farewell = frame replay_done (seq_payload "up_to_seq" n) none s.stream_key in
      let replayed = map (row_frame replay s.stream_key) rows in
      omega (
        arith,
        length-append s.outbox (greeting ∷ (replayed ++ farewell ∷ [])),
        length-append replayed (farewell ∷ []),
        length-map rows (row_frame replay s.stream_key),
      )

  module _ (k : cx.kind ≡ resumable) (hl : last_seq_of cx f ≡ ok l) (hn : cx.server_seq ≡ ok n)
      (opened : s.closing ≡ false) (narrow : ltb_ℤ cx.settings.max_replay (n -ℤ l) ≡ false)
      (answer : cx.replay_rows l cx.settings.max_replay ≡ ok rows)
      (replayed : Consecutive l rows end_) (lived : Consecutive first lives m)
      (alone : cx.meanwhile ≡ []) (seen : s.max_seq_sent ≤ℤ l)
      (fits : length s.outbox + length rows + 2 + length news ≤ s.capacity) where
    replay_queued : on_hello cx f s ≡ (ok tt, all_queued cx f s l n rows)
    replay_queued =
        queues_all cx f s l n rows k hl hn opened narrow answer
          (Consecutive-Ascending l end_ rows replayed) alone seen (omega arith)

    abbrev after_replay : Socket
    after_replay = record s { outbox = caught_up cx f s l n rows; max_seq_sent = end_ }

    lives_sent : send_all live lives after_replay ≡ (ok tt, with_sent live lives after_replay)
    lives_sent = send_all_fits live lives after_replay opened (omega (arith, caught_up_size))

    -- No gap and no duplicate, where the cursor `_max_seq_sent` is not above what the client has
    -- last seen: the hello of an authorized client comes within the window, nothing else runs while
    -- the handler waits for its hooks, the hook answers the rows after what the client has last
    -- seen, one by one up to some `end_`, and then the group hands on live rows, one by one, that
    -- begin at or before the next row and reach `end_`. On an open socket with room for all, what
    -- is then queued is the welcome, the rows, the end of the replay, and those live rows that the
    -- replay did not have; rows and live rows together are numbered one by one, from after what the
    -- client had seen to the last live row.
    pub no_gap :
        (content : Value) (key : String)
        → parse_frame cx.py content ≡ ok f
        → f.kind ≡ hello
        → cx.monotonic < s.authorized_until
        → first ≤ℤ end_
        → end_ ≤ℤ m
        → ((run ((cx, received content) ∷ live_events cx key lives) s).outbox ≡ with_news)
          × Consecutive l (rows ++ news) m
    unfolding run
    no_gap content key parsed greeting soon low high = (
      ap (λ (u : Socket). u.outbox)
          (ap (λ (r : Result (Unit {0}) × Socket). run (live_events cx key lives) r.1)
              (hello_received cx content f s parsed greeting soon ∙ replay_queued)
            ∙ ap
                (λ c.
                  run (live_events cx key lives)
                    (record s { outbox = caught_up cx f s l n rows; max_seq_sent = c }))
                (last_seen_end l end_ rows replayed)
            ∙ run-live_events cx key lives after_replay
            ∙ ap (λ (r : Result (Unit {0}) × Socket). r.1) lives_sent),
      Consecutive-append l end_ m rows news replayed
          (unseen-Consecutive first end_ m lives lived low high),
    )
