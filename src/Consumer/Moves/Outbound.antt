-- ===== src/Consumer/Moves/Outbound.antt =====
-- The outbound half of a socket makes moves only (`Consumer.Outbound`, `Consumer.Heartbeat`).
use stapel_realtime.Prelude.{
  String, ◌≡◌, refl, true, false, Option, none, some, List, [], ◌∷◌, ◌++◌, length, arith, ltb→lt,
  ltb,
}
use stapel_realtime.Prelude.Int.{ℤ, pos, ◌≤ℤ◌, leb_ℤ, leb_ℤ→>}
use stapel_realtime.Python.{str, Fields, end, field}
use stapel_realtime.CloseCodes.{close_overflow, has_code}
use stapel_realtime.Envelope.{frame, error_frame, error}
use stapel_realtime.Envelope.Schema.{FitsSchema, frame-FitsSchema, frame-FitsSchema-some}
use stapel_realtime.Consumer.State.{Socket, Effect, send, close, emit}
use stapel_realtime.Consumer.Outbound.{enqueue, send_frame, send_error}
use stapel_realtime.Consumer.Moves.{
  sent_frames, journal_seq, is_journal_type, Numbered, plain, numbered, SameFrame, alike, stays,
  calm, ended, le_refl, News, Mode, quiet, queued, Moves, here, Moves-one,
}
use stapel_realtime.Consumer.Moves.Actions.{Runs, Moves-if}

-- An effect that is no send.
abbrev pub IsQuiet : Effect → Type 0
IsQuiet e = sent_frames (e ∷ []) ≡ []

pub sent_frames-quiet :
    (es : List Effect) (e : Effect) → IsQuiet e → sent_frames (es ++ e ∷ []) ≡ sent_frames es
unfolding sent_frames
sent_frames-quiet [] e h = h
sent_frames-quiet (send envelope ∷ es) e h = ground (arith, sent_frames-quiet es e h)
sent_frames-quiet (_ ∷ es) e h = sent_frames-quiet es e h

-- What leaves the frames alone makes a quiet move; an effect that is no send is quiet too.
pub Moves-same :
    {mode : Mode} (s t : Socket)
    → SameFrame mode s t
    → s.max_seq_sent ≤ℤ t.max_seq_sent
    → t.outbox ≡ s.outbox
    → t.in_flight ≡ s.in_flight
    → sent_frames t.trace ≡ sent_frames s.trace
    → Moves mode s t
Moves-same s t f c o i e = Moves-one (quiet f c o i e)

-- Queuing an envelope from a state `t` that differs from `s` in the cursor only, or in what is no
-- frame, is a move from `s`.
pub enqueue-Moves :
    {mode : Mode} (envelope : Fields) (s : Socket) (cursor : ℤ)
    → Numbered s.max_seq_sent envelope cursor
    → s.max_seq_sent ≤ℤ cursor
    → (mode.strict ≡ true → pos 0 ≤ℤ s.max_seq_sent → FitsSchema envelope)
    → Moves mode s (enqueue envelope (record s { max_seq_sent = cursor })).1
unfolding enqueue sent_frames has_code
enqueue-Moves envelope s cursor n le g =
    Moves-if s s.closing _ _
      (λ closed.
        Moves-same s _ (alike _ _ refl (λ h. h) refl refl (calm refl refl refl)) le refl refl refl)
      (λ opened.
        Moves-if s (ltb (length s.outbox) s.capacity) _ _
          (λ fits. Moves-one (
            queued envelope (alike _ _ refl (λ h. h) refl refl (calm refl refl refl)) opened
              (ltb→lt _ _ fits) n g refl refl refl))
          (λ full.
            Moves-same s _
              (alike _ _ refl (λ h. refl) refl refl
                (stays refl refl (ended close_overflow refl refl refl)))
              le refl refl (sent_frames-quiet s.trace (close close_overflow) refl)))

-- A frame that is no journal frame has no number, whatever its payload.
abbrev pub IsPlain : String → Type 0
IsPlain t = is_journal_type (str t) ≡ false

journal_seq-frame :
    (t : String) (p : Fields) (stream : Option String)
    → IsPlain t
    → journal_seq (frame t p none stream) ≡ none
unfolding journal_seq frame
journal_seq-frame t p none h = ground arith
journal_seq-frame t p (some s) h = ground arith

-- A journal frame has the number that it is built with.
abbrev pub IsJournal : String → Type 0
IsJournal t = is_journal_type (str t) ≡ true

journal_seq-frame_some :
    (t : String) (p : Fields) (n : ℤ) (stream : Option String)
    → IsJournal t
    → journal_seq (frame t p (some n) stream) ≡ some n
unfolding journal_seq frame
journal_seq-frame_some t p n none h = ground arith
journal_seq-frame_some t p n (some s) h = ground arith

pub ≤ℤ_refl : (z : ℤ) → z ≤ℤ z
≤ℤ_refl z = omega arith

module _ (t : String) (p : Fields) where
  pub Runs-send_frame : {mode : Mode} → IsPlain t → Runs mode (send_frame t p none)
  unfolding send_frame
  Runs-send_frame h = record {
    at = λ s.
        enqueue-Moves (frame t p none s.stream_key) s s.max_seq_sent
          (plain (journal_seq-frame t p s.stream_key h) refl) (≤ℤ_refl s.max_seq_sent)
          (λ _ _. frame-FitsSchema t p s.stream_key);
  }

  pub Runs-send_frame-some :
      {mode : Mode} (n : ℤ) → IsJournal t → Runs mode (send_frame t p (some n))
  unfolding send_frame
  Runs-send_frame-some n h = record {
    at = λ s.
        Moves-if s (leb_ℤ n s.max_seq_sent) _ _ (λ old. here)
          (λ new.
            enqueue-Moves (frame t p (some n) s.stream_key) s n
              (numbered (journal_seq-frame_some t p n s.stream_key h)
                (leb_ℤ→> n s.max_seq_sent new))
              (omega (arith, leb_ℤ→> n s.max_seq_sent new))
              (λ _ from.
                frame-FitsSchema-some t p n s.stream_key
                  (omega (arith, from, leb_ℤ→> n s.max_seq_sent new))));
  }

abbrev error_payload : String → String → Fields
error_payload code message = field "code" (str code) (field "message" (str message) end)

pub Runs-send_error : {mode : Mode} (code message : String) → Runs mode (send_error code message)
unfolding send_error error_frame
Runs-send_error code message = record {
  at = λ s.
      enqueue-Moves (error_frame code message s.stream_key) s s.max_seq_sent
        (plain (journal_seq-frame error (error_payload code message) s.stream_key refl) refl)
        (≤ℤ_refl s.max_seq_sent)
        (λ _ _. frame-FitsSchema error (error_payload code message) s.stream_key);
}

-- A forwarded signal is queued as it is; it has no number if its type is no journal type.
pub Runs-enqueue :
    {mode : Mode} (envelope : Fields)
    → journal_seq envelope ≡ none
    → (mode.strict ≡ true → FitsSchema envelope)
    → Runs mode (enqueue envelope)
Runs-enqueue envelope h g = record {
  at = λ s.
      enqueue-Moves envelope s s.max_seq_sent (plain h refl) (≤ℤ_refl s.max_seq_sent)
        (λ on _. g on);
}

-- What sets `closing` and issues effects that are no sends moves no frame.
pub emit-Moves :
    {mode : Mode} (s : Socket) (e : Effect)
    → IsQuiet e
    → (mode.staying ≡ true → News s (emit e s))
    → Moves mode s (emit e s)
emit-Moves s e h n =
    Moves-same s (emit e s)
      (record {
        capacity = refl;
        closing = λ c. c;
        writer = λ _ w. w;
        pulse = λ _ _. le_refl _;
        stay = λ on. stays refl refl (n on);
      })
      (≤ℤ_refl s.max_seq_sent) refl refl (sent_frames-quiet s.trace e h)
