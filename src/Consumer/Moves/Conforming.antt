-- ===== src/Consumer/Moves/Conforming.antt =====
-- What a socket puts on the wire, against the published schema of a frame (consumers.py,
-- envelope.py, schemas/wire/envelope.v1.json).
use stapel_realtime.Prelude.{◌≡◌, refl, Bool, true, false, none, some, List, [], ◌∷◌, ◌++◌, arith}
use stapel_realtime.Prelude.Int.{ℤ, pos, ◌≤ℤ◌}
use stapel_realtime.Python.{Fields}
use stapel_realtime.Envelope.Schema.{FitsSchema}
use stapel_realtime.Consumer.State.{Socket, Context, fresh}
use stapel_realtime.Consumer.Lifecycle.{connect}
use stapel_realtime.Consumer.Machine.{Event, run}
use stapel_realtime.Consumer.Moves.{
  mode_of, sent_frames, Numbered, plain, numbered, Move, quiet, queued, taken, written, lost, Moves,
  here, next, Moves-trans,
}
use stapel_realtime.Consumer.Moves.Order.{
  held, line, line_same, line_queued, line_taken, line_written,
}
use stapel_realtime.Consumer.Moves.Run.{AreLawful, connect-Moves, events-Moves}

abbrev pub AllFitSchema : List Fields → Type 0
AllFitSchema [] = Unit
AllFitSchema (d ∷ ds) = FitsSchema d × AllFitSchema ds

AllFitSchema-append :
    (ds es : List Fields) → AllFitSchema ds → AllFitSchema es → AllFitSchema (ds ++ es)
AllFitSchema-append [] es h k = k
AllFitSchema-append (d ∷ ds) es h k = (h.0, AllFitSchema-append ds es h.1 k)

AllFitSchema-left : (ds es : List Fields) → AllFitSchema (ds ++ es) → AllFitSchema ds
AllFitSchema-left [] es h = tt
AllFitSchema-left (d ∷ ds) es h = (h.0, AllFitSchema-left ds es h.1)

AllFitSchema-without :
    (ds : List Fields) (d : Fields) (es : List Fields)
    → AllFitSchema (ds ++ d ∷ es)
    → AllFitSchema (ds ++ es)
AllFitSchema-without [] d es h = h.1
AllFitSchema-without (e ∷ ds) d es h = (h.0, AllFitSchema-without ds d es h.1)

-- A socket whose frames the schema admits, with a cursor that is no negative number.
record IsConforming (s : Socket) : Type 0 where
  from : pos 0 ≤ℤ s.max_seq_sent
  frames : AllFitSchema (line s)

Numbered-from : {a : ℤ} {d : Fields} {b : ℤ} → Numbered a d b → pos 0 ≤ℤ a → pos 0 ≤ℤ b
Numbered-from (plain h e) k = rw e k
Numbered-from (numbered h lt) k = omega arith

AllFitSchema-lost :
    (s t : Socket) (d : Fields)
    → s.in_flight ≡ some d
    → t.outbox ≡ s.outbox
    → t.in_flight ≡ none
    → sent_frames t.trace ≡ sent_frames s.trace
    → AllFitSchema (line s)
    → AllFitSchema (line t)
unfolding line
AllFitSchema-lost s t d i o i' e h =
    rw (o, i', e) (AllFitSchema-without (sent_frames s.trace) d s.outbox (rw i at h))

Move-IsConforming :
    {late : Bool} {s t : Socket} → Move (mode_of late true) s t → IsConforming s → IsConforming t
Move-IsConforming {s} {t} (quiet f m o i e) c = record {
  from = let k : pos 0 ≤ℤ s.max_seq_sent = c.from in omega arith;
  frames = rw (line_same s t o i e) c.frames;
}
Move-IsConforming {s} {t} (queued d f opened fits n g o i e) c = record {
  from = Numbered-from n c.from;
  frames =
      rw (line_queued s t d o i e)
        (AllFitSchema-append (line s) (d ∷ []) c.frames (g refl c.from, tt));
}
Move-IsConforming {s} {t} (taken d f m i o i' e) c = record {
  from = rw m c.from;
  frames = rw (line_taken s t d i o i' e) c.frames;
}
Move-IsConforming {s} {t} (written d f m i o i' e w) c = record {
  from = rw m c.from;
  frames = rw (line_written s t d i o i' e) c.frames;
}
Move-IsConforming {s} {t} (lost d f m i o i' e w) c = record {
  from = rw m c.from;
  frames = AllFitSchema-lost s t d i o i' e c.frames;
}

Moves-IsConforming :
    {s t : Socket} → Moves (mode_of false true) s t → IsConforming s → IsConforming t
Moves-IsConforming here c = c
Moves-IsConforming (next p m) c = Move-IsConforming m (Moves-IsConforming p c)

fresh-IsConforming : (cx : Context) → IsConforming (fresh cx)
unfolding fresh line sent_frames
fresh-IsConforming cx = record { from = omega arith; frames = tt }

-- Every frame that a socket puts on the wire in its life is one that the published schema admits:
-- version 1, a text as its type, an object as its payload, a `seq` that is no negative number or
-- none, a text as its stream or none, and no other key. (The socket connects once, and every signal
-- that its group hands it bears no journal type, names its stream, and is one that the schema
-- admits.)
pub sent-AllFitSchema :
    (cx : Context) (events : List (Context × Event)) (s : Socket)
    → AreLawful true events
    → AllFitSchema (sent_frames (run events (connect cx s).1).trace)
unfolding line
sent-AllFitSchema cx events s h =
    let t = run events (connect cx s).1 in
    AllFitSchema-left (sent_frames t.trace) (held t.in_flight ++ t.outbox)
      (Moves-IsConforming
        (Moves-trans (connect-Moves cx s) (events-Moves events (connect cx s).1 h))
        (fresh-IsConforming cx)).frames
