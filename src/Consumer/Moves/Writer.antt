-- ===== src/Consumer/Moves/Writer.antt =====
-- The writer of a socket, and the drain before a close, make moves only (`Consumer.Outbound`).
use stapel_realtime.Prelude.{ℕ, ◌≡◌, refl, Bool, true, false, Option, none, some, List, [], ◌∷◌}
use stapel_realtime.Python.{Fields}
use stapel_realtime.CloseCodes.{is_canonical}
use stapel_realtime.Consumer.State.{Socket, close, emit}
use stapel_realtime.Consumer.Outbound.{
  write_step, write_steps, drain_then_close, take_next, write_out,
}
use stapel_realtime.Consumer.Moves.{
  sent_frames, sent_frames-send, alike, stays, calm, transmitted, ended, Mode, le_refl, taken,
  written, lost, Moves, here, Moves-one, Moves-trans, Moves-flag, settled,
}
use stapel_realtime.Consumer.Moves.Actions.{Runs, Moves-if_state}
use stapel_realtime.Consumer.Moves.Outbound.{Moves-same, emit-Moves, ≤ℤ_refl}

take_next-Moves :
    {mode : Mode} (s : Socket) (o : List Fields)
    → s.in_flight ≡ none
    → s.outbox ≡ o
    → Moves mode s (take_next o s)
unfolding take_next
take_next-Moves s [] h e = here
take_next-Moves s (envelope ∷ rest) h e =
    Moves-one
      (taken envelope (alike _ _ refl (λ c. c) refl refl (calm refl refl refl)) refl h e refl refl)

write_out-Moves :
    {mode : Mode} (s : Socket) (envelope : Fields) (sent : Bool)
    → s.writer ≡ true
    → s.in_flight ≡ some envelope
    → Moves mode s (write_out (some envelope) sent s)
unfolding write_out
write_out-Moves s envelope true on h = Moves-one (
    written envelope
      (alike _ _ refl (λ c. c) refl refl (stays refl refl (transmitted envelope refl))) refl h refl
      refl (sent_frames-send s.trace envelope) on)
write_out-Moves s envelope false on h = Moves-one (
    lost envelope
      (record {
        capacity = refl;
        closing = λ c. c;
        writer = λ _ _. refl;
        pulse = λ _ _. le_refl _;
        stay = λ _. calm refl refl refl;
      })
      refl h refl refl refl refl)

write_some-Moves :
    {mode : Mode} (s : Socket) (f : Option Fields) (sent : Bool)
    → s.writer ≡ true
    → s.in_flight ≡ f
    → Moves mode s (elim f [ none ↦ take_next s.outbox s | some e ↦ write_out (some e) sent s ])
write_some-Moves s none sent on h = take_next-Moves s s.outbox h refl
write_some-Moves s (some envelope) sent on h = write_out-Moves s envelope sent on h

pub write_step-Moves : {mode : Mode} (sent : Bool) (s : Socket) → Moves mode s (write_step sent s)
unfolding write_step
write_step-Moves sent s =
    Moves-if_state s s.writer _ s (λ on. write_some-Moves s s.in_flight sent on refl) (λ off. here)

pub write_steps-Moves :
    {mode : Mode} (sents : List Bool) (s : Socket) → Moves mode s (write_steps sents s)
unfolding write_steps
write_steps-Moves [] s = here
write_steps-Moves (sent ∷ rest) s =
    Moves-trans (write_step-Moves sent s) (write_steps-Moves rest (write_step sent s))

-- The closing flag stays up while the writer goes on.
write_steps_closing :
    (sents : List Bool) (s : Socket) → s.closing ≡ true → (write_steps sents s).closing ≡ true
write_steps_closing sents s h = Moves-flag (write_steps-Moves {mode = settled} sents s) h

drained-Moves :
    {mode : Mode} (draining : List Bool) (code : ℕ)
    → is_canonical code ≡ true
    → (s : Socket) → s.closing ≡ true
    → Moves mode s (emit (close code) (write_steps draining s))
unfolding sent_frames
drained-Moves draining code known s h =
    Moves-trans (write_steps-Moves draining s) (
      emit-Moves _ (close code) refl
        (λ _. ended code known (write_steps_closing draining s h) refl))

pub Runs-drain_then_close :
    {mode : Mode} (draining : List Bool) (code : ℕ)
    → is_canonical code ≡ true
    → Runs mode (drain_then_close draining code)
unfolding drain_then_close sent_frames
Runs-drain_then_close draining code known = record {
  at = λ s.
      Moves-trans
        (Moves-same s (record s { closing = true })
          (alike _ _ refl (λ c. refl) refl refl (calm refl refl refl)) (≤ℤ_refl s.max_seq_sent) refl
          refl refl)
        (drained-Moves draining code known (record s { closing = true }) refl);
}
