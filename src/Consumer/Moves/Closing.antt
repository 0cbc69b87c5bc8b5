-- ===== src/Consumer/Moves/Closing.antt =====
-- Sockets that are closing, and what is on their line (consumers.py).
use mathlib.Core.List.{Sublist}
use mathlib.Core.List.Sublist
use stapel_realtime.Prelude.{◌≡◌, true, none, some, List, [], ◌∷◌, ◌++◌}
use stapel_realtime.Python.{Fields}
use stapel_realtime.Consumer.State.{Socket, Context}
use stapel_realtime.Consumer.Machine.{Event, run}
use stapel_realtime.Consumer.Moves.{
  Mode, sent_frames, Move, quiet, queued, taken, written, lost, Moves, here, next,
}
use stapel_realtime.Consumer.Moves.Order.{line, line_same, line_taken, line_written}
use stapel_realtime.Consumer.Moves.Run.{AreLater, run-Moves}

sublist_of_eq : {xs ys : List Fields} → xs ≡ ys → Sublist xs ys
sublist_of_eq e = rw e (Sublist.refl _)

drop_middle : (xs ys zs : List Fields) → Sublist (xs ++ zs) (xs ++ (ys ++ zs))
drop_middle [] [] zs = Sublist.refl zs
drop_middle [] (y ∷ ys) zs = Sublist.cons y (drop_middle [] ys zs)
drop_middle (x ∷ xs) ys zs = Sublist.cons-cons x (drop_middle xs ys zs)

line_lost :
    (s t : Socket) (d : Fields)
    → s.in_flight ≡ some d
    → t.outbox ≡ s.outbox
    → t.in_flight ≡ none
    → sent_frames t.trace ≡ sent_frames s.trace
    → Sublist (line t) (line s)
unfolding line
line_lost s t d i o i' e = simp (i, o, i', e) (drop_middle (sent_frames s.trace) (d ∷ []) s.outbox)

Move-closing :
    {mode : Mode} {s t : Socket}
    → Move mode s t
    → s.closing ≡ true
    → (t.closing ≡ true) × Sublist (line t) (line s)
Move-closing {s} {t} (quiet f c o i e) h = (f.closing h, sublist_of_eq (line_same s t o i e))
Move-closing (queued d f open_ fits n g o i e) h = absurd (cc)
Move-closing {s} {t} (taken d f c i o i' e) h =
    (f.closing h, sublist_of_eq (line_taken s t d i o i' e))
Move-closing {s} {t} (written d f c i o i' e w) h =
    (f.closing h, sublist_of_eq (line_written s t d i o i' e))
Move-closing {s} {t} (lost d f c i o i' e w) h = (f.closing h, line_lost s t d i o i' e)

Moves-closing :
    {mode : Mode} {s t : Socket}
    → Moves mode s t
    → s.closing ≡ true
    → (t.closing ≡ true) × Sublist (line t) (line s)
Moves-closing {s} here h = (h, Sublist.refl (line s))
Moves-closing (next p m) h =
    let (c, sub) = Moves-closing p h in
    let (c', sub') = Move-closing m c in (c', Sublist.trans sub' sub)

-- A socket that is closing stays so, whatever its later events and schedule; and all that it has on
-- the wire, in its writer's hands and in its queue is a sublist, in order, of what it had there when
-- the closing began: no frame is added. (It connects no more, and no signal bears a journal type.)
pub silent_after_closing :
    (events : List (Context × Event)) (s : Socket)
    → s.closing ≡ true
    → AreLater events
    → ((run events s).closing ≡ true) × Sublist (line (run events s)) (line s)
silent_after_closing events s h later = Moves-closing (run-Moves {late = true} events s later) h
