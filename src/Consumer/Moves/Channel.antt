-- ===== src/Consumer/Moves/Channel.antt =====
-- What a socket promises to its stream, without its tasks, hooks and clocks (consumers.py): a bounded
-- channel that appends while it is open and hands on the frame in front while it is sending; a frame
-- that it loses ends the sending, and neither comes back. Every run of a socket is a run of such a
-- channel.
use mathlib.Core.List.{append_assoc}
use mathlib.Core.Path.{subst}
use stapel_realtime.Prelude.{
  ℕ, ◌≤◌, ◌<◌, ◌≡◌, refl, Bool, true, false, none, some, Option, List, [], ◌∷◌, ◌++◌, length, arith,
  sym, Bool-cases, inl, inr, ap, ◌∙◌,
}
use stapel_realtime.Prelude.Int.{ℤ, pos, ◌≤ℤ◌}
use stapel_realtime.Python.{Fields}
use stapel_realtime.Consumer.State.{Socket, Context}
use stapel_realtime.Consumer.Machine.{Event, run}
use stapel_realtime.Consumer.Moves.{
  settled, sent_frames, Numbered, SameFrame, Move, quiet, queued, taken, written, lost, Moves, here,
  next, Moves-capacity,
}
use stapel_realtime.Consumer.Moves.Order.{held}
use stapel_realtime.Consumer.Moves.Run.{AreLater, run-Moves}

pub record Channel : Type 0 where
  pub delivered : List Fields
  pub ahead : List Fields
  pub cursor : ℤ
  pub shut : Bool
  pub sending : Bool

pub data Advance (size : ℕ) (a b : Channel) : Type 0 where
  -- A new frame, behind the others: a channel holds its queue and one frame more.
  append :
      (d : Fields) (n : ℤ)
      → a.shut ≡ false
      → length a.ahead ≤ size
      → Numbered a.cursor d n
      → b ≡ record a { ahead = a.ahead ++ d ∷ []; cursor = n }
      → Advance size a b
  deliver :
      (d : Fields) (ds : List Fields)
      → a.sending ≡ true
      → a.ahead ≡ d ∷ ds
      → b ≡ record a { delivered = a.delivered ++ d ∷ []; ahead = ds }
      → Advance size a b
  lose :
      (d : Fields) (ds : List Fields)
      → a.ahead ≡ d ∷ ds
      → b ≡ record a { ahead = ds; sending = false }
      → Advance size a b
  skip : (n : ℤ) → a.cursor ≤ℤ n → b ≡ record a { cursor = n } → Advance size a b
  close : b ≡ record a { shut = true } → Advance size a b
  halt : b ≡ record a { sending = false } → Advance size a b

pub data Advances (size : ℕ) (a : Channel) : Channel → Type 0 where
  stay : Advances size a a
  go : {b c : Channel} → Advances size a b → Advance size b c → Advances size a c

-- The socket seen so: what its writer holds is still ahead.
unfoldable pub view : Socket → Channel
unfolding sent_frames
view s = record {
  delivered = sent_frames s.trace;
  ahead = held s.in_flight ++ s.outbox;
  cursor = s.max_seq_sent;
  shut = s.closing;
  sending = s.writer;
}

-- A channel that has not been used; it sends or it does not.
abbrev pub unused : Bool → Channel
unused sending = record {
  delivered = [];
  ahead = [];
  cursor = pos 0;
  shut = false;
  sending = sending;
}

-- A channel whose end is known, but for being shut.
settle :
    (size : ℕ) (a b : Channel)
    → (a.shut ≡ true → b.shut ≡ true)
    → Advances size a (record b { shut = a.shut })
    → Advances size a b
settle size a b keep path = elim (Bool-cases a.shut) [
  | inl h ↦ subst (λ x. Advances size a (record b { shut = x })) (h ∙ sym (keep h)) path
  | inr h ↦ elim (Bool-cases b.shut) [
    | inl h' ↦ go path (close (ap (λ x. record b { shut = x }) h'))
    | inr h' ↦ subst (λ x. Advances size a (record b { shut = x })) (h ∙ sym h') path
  ]
]

-- So too for the sending.
settle_both :
    (size : ℕ) (a b : Channel)
    → (a.shut ≡ true → b.shut ≡ true)
    → (a.sending ≡ false → b.sending ≡ false)
    → Advances size a (record b { shut = a.shut; sending = a.sending })
    → Advances size a b
settle_both size a b keep over path = elim (Bool-cases a.sending) [
  | inr h ↦ settle size a b keep (
      subst (λ x. Advances size a (record b { shut = a.shut; sending = x })) (h ∙ sym (over h))
        path)
  | inl h ↦ elim (Bool-cases b.sending) [
    | inl h' ↦
        settle size a b keep
          (subst (λ x. Advances size a (record b { shut = a.shut; sending = x })) (h ∙ sym h') path)
    | inr h' ↦
        settle size a b keep (go path (halt (ap (λ x. record b { shut = a.shut; sending = x }) h')))
  ]
]

held_room :
    (o : Option Fields) (ds : List Fields) (size : ℕ)
    → length ds < size
    → length (held o ++ ds) ≤ size
held_room none ds size h = omega arith
held_room (some d) ds size h = omega arith

module _ (size : ℕ) (s t : Socket) (same : SameFrame settled s t) where
  end_with :
      Advance size (view s) (record (view t) { shut = s.closing; sending = s.writer })
      → Advances size (view s) (view t)
  unfolding view
  end_with m = settle_both size (view s) (view t) same.closing (same.writer refl) (go stay m)

  end_same :
      view s ≡ record (view t) { shut = s.closing; sending = s.writer }
      → Advances size (view s) (view t)
  unfolding view
  end_same e =
      settle_both size (view s) (view t) same.closing (same.writer refl)
        (subst (λ b. Advances size (view s) b) e stay)

  end_over :
      Advance size (view s) (record (view t) { shut = s.closing }) → Advances size (view s) (view t)
  unfolding view
  end_over m = settle size (view s) (view t) same.closing (go stay m)

Move-Advances :
    (size : ℕ) {s t : Socket}
    → s.capacity ≡ size
    → Move settled s t
    → Advances size (view s) (view t)
unfolding view
Move-Advances size {s} {t} c (quiet same m o i e) =
    end_with size s t same (skip t.max_seq_sent m (rw (o, i, e)))
Move-Advances size {s} {t} c (queued d same opened fits n g o i e) = end_with size s t same (
    append d t.max_seq_sent opened (held_room s.in_flight s.outbox size (omega (arith, c))) n
      (rw (o, i, e) (simp append_assoc)))
Move-Advances size {s} {t} c (taken d same m i o i' e) =
    end_same size s t same (rw (o, i, i', e, m))
Move-Advances size {s} {t} c (written d same m i o i' e w) =
    end_with size s t same (deliver d s.outbox w (rw i) (rw (o, i', e, m)))
Move-Advances size {s} {t} c (lost d same m i o i' e w) =
    end_over size s t same (lose d s.outbox (rw i) (rw (o, i', e, m, w)))

Advances-trans :
    (size : ℕ) {a b c : Channel} → Advances size a b → Advances size b c → Advances size a c
Advances-trans size p stay = p
Advances-trans size p (go q m) = go (Advances-trans size p q) m

Moves-Advances :
    (size : ℕ) {s t : Socket}
    → s.capacity ≡ size
    → Moves settled s t
    → Advances size (view s) (view t)
Moves-Advances size c here = stay
Moves-Advances size c (next p m) =
    Advances-trans size (Moves-Advances size c p) (Move-Advances size (Moves-capacity p ∙ c) m)

-- Whatever its later events, a socket goes on as its channel may. (It connects no more, and no signal
-- bears a journal type.)
pub run_refines :
    (events : List (Context × Event)) (s : Socket)
    → AreLater events
    → Advances s.capacity (view s) (view (run events s))
run_refines events s later = Moves-Advances s.capacity refl (run-Moves {late = true} events s later)
