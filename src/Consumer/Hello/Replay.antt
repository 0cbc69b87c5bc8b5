-- ===== src/Consumer/Hello/Replay.antt =====
-- The replay of `ResumableStreamConsumer.on_hello` (consumers.py), against a plain description: which
-- rows it sends, when they fit the send queue, and what happens when they do not.
use mathlib.Core.List.{append_assoc, append-nil}
use stapel_realtime.Prelude.{
  ◌+◌, ◌≤◌, ◌<◌, String, ◌≡◌, true, false, Option, some, List, [], ◌∷◌, ◌++◌, refl, ◌∙◌, length,
  length-append, map, ltb, ltb→lt, ltb_false→le, Bool-cases, inl, inr, arith, if◌then◌else◌,
}
use stapel_realtime.Prelude.Int.{ℤ, leb_ℤ}
use stapel_realtime.Python.{Fields, ok}
use stapel_realtime.Envelope.{frame, replay}
use stapel_realtime.Consumer.State.{Socket, JournalRow, Step, close}
use stapel_realtime.Consumer.Outbound.{send_frame}
use stapel_realtime.Consumer.Hello.{replay_all}

-- The rows that rise above the cursor, each above those before it.
unfoldable pub unseen : ℤ → List JournalRow → List JournalRow
unseen cursor [] = []
unseen cursor (row ∷ rows) =
    let rest = unseen row.seq rows in
    if leb_ℤ row.seq cursor then unseen cursor rows else row ∷ rest

-- The cursor after them.
unfoldable pub last_seen : ℤ → List JournalRow → ℤ
last_seen cursor [] = cursor
last_seen cursor (row ∷ rows) = last_seen (if leb_ℤ row.seq cursor then cursor else row.seq) rows

-- A row as a frame of some type: `replay`, or `live`.
abbrev pub row_frame : String → Option String → JournalRow → Fields
row_frame t stream row = frame t row.payload (some row.seq) stream

abbrev pub replay_frame : Option String → JournalRow → Fields
replay_frame = row_frame replay

-- Rows that are sent one after another.
unfoldable pub send_all : String → List JournalRow → Step
send_all t [] s = (ok tt, s)
send_all t (row ∷ rows) s = send_all t rows (send_frame t row.payload (some row.seq) s).1

replay_all_sends :
    (rows : List JournalRow) (s : Socket) → replay_all rows s ≡ send_all replay rows s
unfolding replay_all send_all
replay_all_sends [] s = refl
replay_all_sends (row ∷ rows) s = replay_all_sends rows _

-- The socket is closed with 4413, once, and closing.
abbrev pub Overflowed : Socket → Socket → Type 0
Overflowed s t = (t.closing ≡ true) × (t.trace ≡ s.trace ++ close 4413 ∷ [])

module _ (t : String) (row : JournalRow) (s : Socket) where
  send_old : leb_ℤ row.seq s.max_seq_sent ≡ true → (send_frame t row.payload (some row.seq) s).1 ≡ s
  unfolding send_frame
  send_old h = ground arith

  abbrev with_row : Socket
  with_row = record s {
    outbox = s.outbox ++ row_frame t s.stream_key row ∷ [];
    max_seq_sent = row.seq;
  }

  send_new :
      leb_ℤ row.seq s.max_seq_sent ≡ false
      → s.closing ≡ false
      → length s.outbox < s.capacity
      → (send_frame t row.payload (some row.seq) s).1 ≡ with_row
  unfolding send_frame
  send_new h opened fits = ground arith

  send_full :
      leb_ℤ row.seq s.max_seq_sent ≡ false
      → s.closing ≡ false
      → s.capacity ≤ length s.outbox
      → Overflowed s (send_frame t row.payload (some row.seq) s).1
  unfolding send_frame
  send_full h opened full = ground arith

module _ (cursor : ℤ) (row : JournalRow) (rows : List JournalRow) where
  unseen_old : leb_ℤ row.seq cursor ≡ true → unseen cursor (row ∷ rows) ≡ unseen cursor rows
  unfolding unseen
  unseen_old h = rw h

  unseen_new : leb_ℤ row.seq cursor ≡ false → unseen cursor (row ∷ rows) ≡ row ∷ unseen row.seq rows
  unfolding unseen
  unseen_new h = rw h

  last_seen_old :
      leb_ℤ row.seq cursor ≡ true → last_seen cursor (row ∷ rows) ≡ last_seen cursor rows
  unfolding last_seen
  last_seen_old h = rw h

  last_seen_new :
      leb_ℤ row.seq cursor ≡ false → last_seen cursor (row ∷ rows) ≡ last_seen row.seq rows
  unfolding last_seen
  last_seen_new h = rw h

-- The state after the rows have been queued.
abbrev pub with_sent : String → List JournalRow → Socket → Socket
with_sent t rows s = record s {
  outbox = s.outbox ++ map (row_frame t s.stream_key) (unseen s.max_seq_sent rows);
  max_seq_sent = last_seen s.max_seq_sent rows;
}

abbrev pub with_rows : List JournalRow → Socket → Socket
with_rows = with_sent replay

with_sent_old :
    (t : String) (row : JournalRow) (rows : List JournalRow) (s : Socket)
    → leb_ℤ row.seq s.max_seq_sent ≡ true
    → with_sent t (row ∷ rows) s ≡ with_sent t rows s
with_sent_old t row rows s h =
    cc (unseen_old s.max_seq_sent row rows h, last_seen_old s.max_seq_sent row rows h)

with_sent_new :
    (t : String) (row : JournalRow) (rows : List JournalRow) (s : Socket)
    → leb_ℤ row.seq s.max_seq_sent ≡ false
    → with_sent t (row ∷ rows) s ≡ with_sent t rows (with_row t row s)
with_sent_new t row rows s h = cc (
  unseen_new s.max_seq_sent row rows h,
  last_seen_new s.max_seq_sent row rows h,
  append_assoc s.outbox (row_frame t s.stream_key row ∷ [])
      (map (row_frame t s.stream_key) (unseen row.seq rows)),
)

-- Rows that fit the queue of an open socket are all queued, in their order, but for those that the
-- cursor has passed.
pub send_all_fits :
    (t : String) (rows : List JournalRow) (s : Socket)
    → s.closing ≡ false
    → length s.outbox + length (unseen s.max_seq_sent rows) ≤ s.capacity
    → send_all t rows s ≡ (ok tt, with_sent t rows s)
unfolding send_all
send_all_fits t [] s h fits = unfold unseen last_seen in simp append-nil
send_all_fits t (row ∷ rows) s h fits = elim (Bool-cases (leb_ℤ row.seq s.max_seq_sent)) [
  | inl old ↦
      rw (send_old t row s old, with_sent_old t row rows s old)
        (send_all_fits t rows s h (rw (unseen_old s.max_seq_sent row rows old) at fits))
  | inr new ↦
      let fits' = rw (unseen_new s.max_seq_sent row rows new) at fits in
      rw (send_new t row s new h (omega arith), with_sent_new t row rows s new)
        (send_all_fits t rows (with_row t row s) h
          (omega (arith, length-append s.outbox (row_frame t s.stream_key row ∷ []))))
]

pub replay_all_fits :
    (rows : List JournalRow) (s : Socket)
    → s.closing ≡ false
    → length s.outbox + length (unseen s.max_seq_sent rows) ≤ s.capacity
    → replay_all rows s ≡ (ok tt, with_rows rows s)
replay_all_fits rows s h fits = replay_all_sends rows s ∙ send_all_fits replay rows s h fits

send_closing :
    (row : JournalRow) (s t : Socket)
    → Overflowed s t
    → Overflowed s (send_frame replay row.payload (some row.seq) t).1
unfolding send_frame
send_closing row s t h = ground arith

replay_all_closing :
    (rows : List JournalRow) (s t : Socket) → Overflowed s t → Overflowed s (replay_all rows t).1
unfolding replay_all
replay_all_closing [] s t h = h
replay_all_closing (row ∷ rows) s t h = replay_all_closing rows s _ (send_closing row s t h)

-- Rows that do not all fit the queue of an open socket close it, once.
pub replay_all_overflows :
    (rows : List JournalRow) (s : Socket)
    → s.closing ≡ false
    → s.capacity < length s.outbox + length (unseen s.max_seq_sent rows)
    → length s.outbox ≤ s.capacity
    → Overflowed s (replay_all rows s).1
unfolding replay_all
replay_all_overflows [] s opened over room = absurd (unfold unseen in omega arith)
replay_all_overflows (row ∷ rows) s opened over room =
    elim (Bool-cases (leb_ℤ row.seq s.max_seq_sent)) [
      | inl old ↦
          rw (send_old replay row s old, replay_all)
            (replay_all_overflows rows s opened
              (rw (unseen_old s.max_seq_sent row rows old) at over) room)
      | inr new ↦
          let over' = rw (unseen_new s.max_seq_sent row rows new) at over in
          elim (Bool-cases (ltb (length s.outbox) s.capacity)) [
            | inl fits ↦
                rw
                  (
                    send_new replay row s new opened (ltb→lt (length s.outbox) s.capacity fits),
                    replay_all,
                  )
                  (replay_all_overflows rows (with_row replay row s) opened
                    (omega (arith, length-append s.outbox (replay_frame s.stream_key row ∷ [])))
                    (omega (
                      arith,
                      length-append s.outbox (replay_frame s.stream_key row ∷ []),
                      ltb→lt (length s.outbox) s.capacity fits,
                    )))
            | inr full ↦
                replay_all_closing rows s _ (
                  send_full replay row s new opened
                    (ltb_false→le (length s.outbox) s.capacity full))
          ]
    ]
