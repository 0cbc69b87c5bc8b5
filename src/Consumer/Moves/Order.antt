-- ===== src/Consumer/Moves/Order.antt =====
-- What the moves keep (consumers.py): the bound of the send queue, and the order of the journal
-- frames.
use stapel_realtime.Prelude.{
  ◌≤◌, ◌≡◌, refl, Option, none, some, List, [], ◌∷◌, ◌++◌, length, length-append, arith, ap,
}
use mathlib.Core.List.{append_assoc, append-nil}
use stapel_realtime.Prelude.Int.{ℤ, pos, ◌≤ℤ◌, ◌<ℤ◌}
use stapel_realtime.Python.{Fields}
use stapel_realtime.Consumer.State.{Socket, Context, fresh, queue_size}
use stapel_realtime.Consumer.Lifecycle.{connect}
use stapel_realtime.Consumer.Machine.{Event, run}
use stapel_realtime.Consumer.Moves.{
  Mode, sent_frames, journal_seq, Numbered, plain, numbered, Move, quiet, queued, taken, written,
  lost, Moves, here, next, Moves-capacity,
}
use stapel_realtime.Consumer.Moves.Run.{AreLater, life-Moves}

-- `xs` rises strictly from above `lo`, and ends at or below `hi`.
abbrev pub Rises : ℤ → List ℤ → ℤ → Type 0
Rises lo [] hi = lo ≤ℤ hi
Rises lo (x ∷ xs) hi = (lo <ℤ x) × Rises x xs hi

Rises-weaken : (lo : ℤ) (xs : List ℤ) (hi hi' : ℤ) → Rises lo xs hi → hi ≤ℤ hi' → Rises lo xs hi'
Rises-weaken lo [] hi hi' r h = omega arith
Rises-weaken lo (x ∷ xs) hi hi' r h = (r.0, Rises-weaken x xs hi hi' r.1 h)

Rises-snoc :
    (lo : ℤ) (xs : List ℤ) (hi n : ℤ) → Rises lo xs hi → hi <ℤ n → Rises lo (xs ++ n ∷ []) n
Rises-snoc lo [] hi n r h = (omega arith, omega arith)
Rises-snoc lo (x ∷ xs) hi n r h = (r.0, Rises-snoc x xs hi n r.1 h)

Rises-lower : (lo lo' : ℤ) (xs : List ℤ) (hi : ℤ) → lo ≤ℤ lo' → Rises lo' xs hi → Rises lo xs hi
Rises-lower lo lo' [] hi h r = omega arith
Rises-lower lo lo' (x ∷ xs) hi h r = (omega arith, r.1)

Rises-le : (lo : ℤ) (xs : List ℤ) (hi : ℤ) → Rises lo xs hi → lo ≤ℤ hi
Rises-le lo [] hi r = r
Rises-le lo (x ∷ xs) hi r = omega (arith, Rises-le x xs hi r.1)

Rises-drop :
    (lo : ℤ) (xs : List ℤ) (ys zs : List ℤ) (hi : ℤ)
    → Rises lo (xs ++ (ys ++ zs)) hi
    → Rises lo (xs ++ zs) hi
Rises-drop lo [] [] zs hi r = r
Rises-drop lo [] (y ∷ ys) zs hi r =
    Rises-drop lo [] ys zs hi (Rises-lower lo y (ys ++ zs) hi (omega arith) r.1)
Rises-drop lo (x ∷ xs) ys zs hi r = (r.0, Rises-drop x xs ys zs hi r.1)

Rises-prefix : (lo : ℤ) (xs ys : List ℤ) (hi : ℤ) → Rises lo (xs ++ ys) hi → Rises lo xs hi
Rises-prefix lo [] ys hi r = Rises-le lo ys hi r
Rises-prefix lo (x ∷ xs) ys hi r = (r.0, Rises-prefix x xs ys hi r.1)

abbrev number : Option ℤ → List ℤ
number none = []
number (some n) = n ∷ []

-- The numbers of the journal frames among some frames.
unfoldable pub journal_seqs : List Fields → List ℤ
journal_seqs [] = []
journal_seqs (d ∷ ds) = number (journal_seq d) ++ journal_seqs ds

journal_seqs-append :
    (ds es : List Fields) → journal_seqs (ds ++ es) ≡ journal_seqs ds ++ journal_seqs es
unfolding journal_seqs
journal_seqs-append [] es = refl
journal_seqs-append (d ∷ ds) es = rw (journal_seqs-append ds es, append_assoc)

abbrev pub held : Option Fields → List Fields
held none = []
held (some d) = d ∷ []

-- The frames of a socket in their order: on the wire, in the writer's hands, and waiting.
unfoldable pub line : Socket → List Fields
line s = sent_frames s.trace ++ (held s.in_flight ++ s.outbox)

pub record IsOrderly (s : Socket) : Type 0 where
  pub rises : Rises (pos 0) (journal_seqs (line s)) s.max_seq_sent
  pub room : length s.outbox ≤ s.capacity

-- A quiet move and the two halves of a write leave the line as it is.
pub line_same :
    (s t : Socket)
    → t.outbox ≡ s.outbox
    → t.in_flight ≡ s.in_flight
    → sent_frames t.trace ≡ sent_frames s.trace
    → line t ≡ line s
unfolding line
line_same s t o i e = rw (o, i, e)

pub line_queued :
    (s t : Socket) (d : Fields)
    → t.outbox ≡ s.outbox ++ d ∷ []
    → t.in_flight ≡ s.in_flight
    → sent_frames t.trace ≡ sent_frames s.trace
    → line t ≡ line s ++ d ∷ []
unfolding line
line_queued s t d o i e = rw (o, i, e) (simp append_assoc)

pub line_taken :
    (s t : Socket) (d : Fields)
    → s.in_flight ≡ none
    → s.outbox ≡ d ∷ t.outbox
    → t.in_flight ≡ some d
    → sent_frames t.trace ≡ sent_frames s.trace
    → line t ≡ line s
unfolding line
line_taken s t d i o i' e = simp (i, o, i', e)

pub line_written :
    (s t : Socket) (d : Fields)
    → s.in_flight ≡ some d
    → t.outbox ≡ s.outbox
    → t.in_flight ≡ none
    → sent_frames t.trace ≡ sent_frames s.trace ++ d ∷ []
    → line t ≡ line s
unfolding line
line_written s t d i o i' e = simp (i, o, i', e, append_assoc)

-- A lost frame leaves a gap in the line, and no disorder.
Rises-lost :
    (s t : Socket) (d : Fields) (hi : ℤ)
    → s.in_flight ≡ some d
    → t.outbox ≡ s.outbox
    → t.in_flight ≡ none
    → sent_frames t.trace ≡ sent_frames s.trace
    → Rises (pos 0) (journal_seqs (line s)) hi
    → Rises (pos 0) (journal_seqs (line t)) hi
unfolding line journal_seqs
Rises-lost s t d hi i o i' e r =
    simp (o, i', e, journal_seqs-append)
      (Rises-drop (pos 0) (journal_seqs (sent_frames s.trace)) (journal_seqs (d ∷ []))
        (journal_seqs s.outbox) hi (simp (i, journal_seqs-append) at r))

Numbered-Rises :
    (xs : List ℤ) (d : Fields) {before after : ℤ}
    → Numbered before d after
    → Rises (pos 0) xs before
    → Rises (pos 0) (xs ++ journal_seqs (d ∷ [])) after
unfolding journal_seqs
Numbered-Rises xs d (plain h e) r = simp (h, append-nil, e) r
Numbered-Rises xs d {before} {after} (numbered h lt) r =
    simp h (Rises-snoc (pos 0) xs before after r lt)

Move-Rises :
    {mode : Mode} {s t : Socket}
    → Move mode s t
    → Rises (pos 0) (journal_seqs (line s)) s.max_seq_sent
    → Rises (pos 0) (journal_seqs (line t)) t.max_seq_sent
Move-Rises {s} {t} (quiet f c o i e) r =
    rw (line_same s t o i e) (Rises-weaken (pos 0) _ s.max_seq_sent t.max_seq_sent r c)
Move-Rises {s} {t} (queued d f open_ fits n g o i e) r =
    rw (line_queued s t d o i e, journal_seqs-append) (Numbered-Rises _ d n r)
Move-Rises {s} {t} (taken d f c i o i' e) r = rw (line_taken s t d i o i' e, c) r
Move-Rises {s} {t} (written d f c i o i' e w) r = rw (line_written s t d i o i' e, c) r
Move-Rises {s} {t} (lost d f c i o i' e w) r = simp c (Rises-lost s t d s.max_seq_sent i o i' e r)

Move-room :
    {mode : Mode} {s t : Socket}
    → Move mode s t
    → length s.outbox ≤ s.capacity
    → length t.outbox ≤ t.capacity
Move-room (quiet f c o i e) h = rw (o, f.capacity) h
Move-room {s} {t} (queued d f open_ fits n g o i e) h =
    rw (o, f.capacity) (omega (arith, length-append s.outbox (d ∷ [])))
Move-room {s} {t} (taken d f c i o i' e) h = rw f.capacity (omega (arith, ap length o))
Move-room (written d f c i o i' e w) h = rw (o, f.capacity) h
Move-room (lost d f c i o i' e w) h = rw (o, f.capacity) h

Moves-IsOrderly : {mode : Mode} {s t : Socket} → IsOrderly s → Moves mode s t → IsOrderly t
Moves-IsOrderly h here = h
Moves-IsOrderly h (next p m) =
    let k = Moves-IsOrderly h p in
    record { rises = Move-Rises m k.rises; room = Move-room m k.room }

fresh-IsOrderly : (cx : Context) → IsOrderly (fresh cx)
unfolding fresh line sent_frames journal_seqs
fresh-IsOrderly cx = record { rises = omega arith; room = omega arith }

IsOrderly-sent :
    (t : Socket) → IsOrderly t → Rises (pos 0) (journal_seqs (sent_frames t.trace)) t.max_seq_sent
unfolding line
IsOrderly-sent t o =
    Rises-prefix (pos 0) (journal_seqs (sent_frames t.trace)) _ t.max_seq_sent
      (rw journal_seqs-append at o.rises)

-- In the life of a socket, whatever its events and however its tasks are scheduled, the numbers of
-- the journal frames that it sends rise strictly from above 0 and end at or below its cursor: none
-- is sent twice and none after a later one. (It connects once, and no signal bears a journal type.)
pub journal_order :
    (cx : Context) (events : List (Context × Event)) (s : Socket)
    → AreLater events
    → let t = run events (connect cx s).1 in
      Rises (pos 0) (journal_seqs (sent_frames t.trace)) t.max_seq_sent
journal_order cx events s h =
    IsOrderly-sent (run events (connect cx s).1)
      (Moves-IsOrderly (fresh-IsOrderly cx) (life-Moves cx events s h))

-- In the life of a socket no more frames wait in its send queue than `SEND_QUEUE_SIZE` (or 1 if
-- that is smaller) allows. (It connects once, and no signal bears a journal type.)
pub queue_bound :
    (cx : Context) (events : List (Context × Event)) (s : Socket)
    → AreLater events
    → length (run events (connect cx s).1).outbox ≤ queue_size cx.settings
unfolding fresh
queue_bound cx events s h =
    let m = life-Moves cx events s h in
    rw (← Moves-capacity m) (Moves-IsOrderly (fresh-IsOrderly cx) m).room
