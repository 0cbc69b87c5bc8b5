-- ===== src/Consumer/Hello/Starved.antt =====
-- A live frame between `connect` and `hello` (consumers.py): the group is joined before the client
-- has said what it last saw, and the live frame raises the cursor that the replay is held against.
use stapel_realtime.Prelude.{
  ◌+◌, ◌≤◌, ◌<◌, ◌≡◌, refl, true, false, none, some, List, [], ◌∷◌, ◌++◌, length, length-append,
  arith, ap, ◌∙◌,
}
use mathlib.Core.List.{append_assoc, append-nil}
use stapel_realtime.Prelude.Int.{ℤ, ◌-ℤ◌, ltb_ℤ, leb_ℤ, max_ℤ, ◌≤ℤ◌, ◌<ℤ◌}
use stapel_realtime.Python.{Fields, Result, ok}
use stapel_realtime.Envelope.{Frame, frame, live, welcome, replay_done}
use stapel_realtime.Consumer.State.{Socket, Context, JournalRow, resumable}
use stapel_realtime.Consumer.Outbound.{send_frame}
use stapel_realtime.Consumer.Outbound.Queued.{with_frame}
use stapel_realtime.Consumer.Hello.{last_seq_of, on_hello}
use stapel_realtime.Consumer.Hello.Replay.{unseen, last_seen, with_rows}
use stapel_realtime.Consumer.Hello.Resume.{seq_payload, greeted, hello_catches_up}
use stapel_realtime.Consumer.Inbound.{on_journal}

-- No row is numbered above `n`.
abbrev pub AllUpTo : ℤ → List JournalRow → Type 0
AllUpTo n [] = Unit
AllUpTo n (row ∷ rows) = (row.seq ≤ℤ n) × AllUpTo n rows

leb_of_le : (a b : ℤ) → a ≤ℤ b → leb_ℤ a b ≡ true
leb_of_le a b h = ground arith

unseen_none : (n : ℤ) (rows : List JournalRow) → AllUpTo n rows → unseen n rows ≡ []
unfolding unseen
unseen_none n [] h = refl
unseen_none n (row ∷ rows) h = rw (leb_of_le row.seq n h.0) (unseen_none n rows h.1)

last_seen_none : (n : ℤ) (rows : List JournalRow) → AllUpTo n rows → last_seen n rows ≡ n
unfolding last_seen
last_seen_none n [] h = refl
last_seen_none n (row ∷ rows) h = rw (leb_of_le row.seq n h.0) (last_seen_none n rows h.1)

AllUpTo-max : (n l : ℤ) (rows : List JournalRow) → AllUpTo n rows → AllUpTo (max_ℤ n l) rows
AllUpTo-max n l [] h = tt
AllUpTo-max n l (row ∷ rows) h = (ground arith, AllUpTo-max n l rows h.1)

module _ (s : Socket) (m : ℤ) (p : Fields) where
  abbrev live_frame : Fields
  live_frame = frame live p (some m) s.stream_key

  abbrev after_live : Socket
  after_live = record s { outbox = s.outbox ++ live_frame ∷ []; max_seq_sent = m }

  live_sent :
      s.max_seq_sent <ℤ m
      → s.closing ≡ false
      → length s.outbox < s.capacity
      → on_journal m p s ≡ (ok tt, after_live)
  unfolding on_journal send_frame
  live_sent new opened fits = ground arith

  abbrev pub starved : Fields → Fields → ℤ → Socket
  starved greeting farewell l = record s {
    outbox = s.outbox ++ live_frame ∷ greeting ∷ farewell ∷ [];
    max_seq_sent = max_ℤ m l;
  }

  without_rows :
      (u : Socket) (rows : List JournalRow) → AllUpTo u.max_seq_sent rows → with_rows rows u ≡ u
  without_rows u rows h =
      cc (
        unseen_none u.max_seq_sent rows h,
        last_seen_none u.max_seq_sent rows h,
        append-nil u.outbox,
      )

  -- A live frame that is delivered before the hello makes the replay empty: on an open socket with
  -- room, when the hello comes within the window and no row of the answer is numbered above the live
  -- frame, the client gets the live frame, the welcome and the end of the replay, and none of the
  -- rows, whatever it says it has last seen.
  pub replay_starved :
      (cx : Context) (f : Frame) (l n : ℤ) (rows : List JournalRow)
      → cx.kind ≡ resumable
      → last_seq_of cx f ≡ ok l
      → cx.server_seq ≡ ok n
      → s.closing ≡ false
      → ltb_ℤ cx.settings.max_replay (n -ℤ l) ≡ false
      → cx.replay_rows l cx.settings.max_replay ≡ ok rows
      → AllUpTo m rows
      → cx.meanwhile ≡ []
      → s.max_seq_sent <ℤ m
      → length s.outbox + 3 ≤ s.capacity
      → on_hello cx f (on_journal m p s).1 ≡ (
        ok tt,
        starved
            (frame welcome (seq_payload "server_seq" n) none s.stream_key)
            (frame replay_done (seq_payload "up_to_seq" n) none s.stream_key)
            l,
      )
  replay_starved cx f l n rows k hl hn opened narrow answer low alone new fits =
      ap (λ (r : Result (Unit {0}) × Socket). on_hello cx f r.1)
        (live_sent new opened (omega arith))
      ∙ hello_catches_up cx f after_live l n k hl hn opened rows narrow answer alone (
          rw (unseen_none (max_ℤ m l) rows (AllUpTo-max m l rows low))
            (omega (arith, length-append s.outbox (live_frame ∷ []))))
      ∙ ap (λ u. (ok tt, with_frame replay_done (seq_payload "up_to_seq" n) u))
          (without_rows (greeted cx f after_live l n) rows (AllUpTo-max m l rows low))
      ∙ ap (λ ds. (ok tt, record s { outbox = ds; max_seq_sent = max_ℤ m l }))
          (append_assoc (s.outbox ++ live_frame ∷ []) _ _
            ∙ append_assoc s.outbox (live_frame ∷ []) _)
