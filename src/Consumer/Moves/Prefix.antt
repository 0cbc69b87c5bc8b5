-- ===== src/Consumer/Moves/Prefix.antt =====
-- What a connection that fails does to the frames (consumers.py): the writer ends at the first send
-- that is lost, so the wire and the line that a socket held stay comparable.
use mathlib.Core.List.{append_assoc, append-nil}
use stapel_realtime.Prelude.{ℕ, ◌≡◌, refl, ◌⊎◌, inl, inr, false, List, [], ◌∷◌, ◌++◌, ap, sym, ◌∙◌}
use stapel_realtime.Python.{Fields}
use stapel_realtime.Consumer.State.{Socket, Context}
use stapel_realtime.Consumer.Machine.{Event, run}
use stapel_realtime.Consumer.Moves.{sent_frames}
use stapel_realtime.Consumer.Moves.Order.{line}
use stapel_realtime.Consumer.Moves.Run.{AreLater}
use stapel_realtime.Consumer.Moves.Channel.{
  Channel, Advance, append, deliver, lose, skip, close, halt, Advances, stay, go, view, run_refines,
}

abbrev pub IsPrefix : List Fields → List Fields → Type 0
IsPrefix ds es = (rest : List Fields) × (es ≡ ds ++ rest)

-- One of the two goes on where the other ends.
abbrev pub Comparable : List Fields → List Fields → Type 0
Comparable ds es = IsPrefix ds es ⊎ IsPrefix es ds

Comparable-cons :
    (d : Fields) (ds es : List Fields) → Comparable ds es → Comparable (d ∷ ds) (d ∷ es)
Comparable-cons d ds es (inl (rest, e)) = inl (rest, ap (λ x. d ∷ x) e)
Comparable-cons d ds es (inr (rest, e)) = inr (rest, ap (λ x. d ∷ x) e)

Comparable-append : (ds xs es ys : List Fields) → ds ++ xs ≡ es ++ ys → Comparable ds es
Comparable-append [] xs es ys h = inl (es, refl)
Comparable-append (d ∷ ds) xs [] ys h = inr (d ∷ ds, refl)
Comparable-append (d ∷ ds) xs (e ∷ es) ys h =
    let front : d ≡ e = cc in
    let back : ds ++ xs ≡ es ++ ys = cc in
    rw (← front) (Comparable-cons d ds es (Comparable-append ds xs es ys back))

-- A channel after some others held `ds`: it goes on along it, or it sends no more.
data Follows (ds : List Fields) (b : Channel) : Type 0 where
  along : (more : List Fields) → b.delivered ++ b.ahead ≡ ds ++ more → Follows ds b
  over : b.sending ≡ false → Comparable b.delivered ds → Follows ds b

Advance-Follows :
    {size : ℕ} (ds : List Fields) {b c : Channel} → Follows ds b → Advance size b c → Follows ds c
Advance-Follows ds {b} (along more h) (append d n s r m e) = rw e (
    along (more ++ d ∷ []) (
      sym (append_assoc b.delivered b.ahead (d ∷ []))
      ∙ (ap (λ x. x ++ d ∷ []) h ∙ append_assoc ds more (d ∷ []))))
Advance-Follows ds {b} (along more h) (deliver d rest s a e) =
    rw e (
      along more
        (append_assoc b.delivered (d ∷ []) rest ∙ (ap (λ x. b.delivered ++ x) (sym a) ∙ h)))
Advance-Follows ds {b} (along more h) (lose d rest a e) =
    rw e (over refl (Comparable-append b.delivered b.ahead ds more h))
Advance-Follows ds (along more h) (skip n r e) = rw e (along more h)
Advance-Follows ds (along more h) (close e) = rw e (along more h)
Advance-Follows ds (along more h) (halt e) = rw e (along more h)
Advance-Follows ds (over o h) (append d n s r m e) = rw e (over o h)
Advance-Follows ds (over o h) (deliver d rest s a e) = absurd cc
Advance-Follows ds (over o h) (lose d rest a e) = rw e (over refl h)
Advance-Follows ds (over o h) (skip n r e) = rw e (over o h)
Advance-Follows ds (over o h) (close e) = rw e (over o h)
Advance-Follows ds (over o h) (halt e) = rw e (over refl h)

Advances-Follows :
    {size : ℕ} (ds : List Fields) {b c : Channel} → Follows ds b → Advances size b c → Follows ds c
Advances-Follows ds f stay = f
Advances-Follows ds f (go p m) = Advance-Follows ds (Advances-Follows ds f p) m

Follows-Comparable : (ds : List Fields) (b : Channel) → Follows ds b → Comparable b.delivered ds
Follows-Comparable ds b (along more h) = Comparable-append b.delivered b.ahead ds more h
Follows-Comparable ds b (over o h) = h

-- No frame of a socket is passed over on the wire: whatever its later events and failed sends, what
-- is on the wire at their end is a beginning of the socket's line (its frames on the wire, in the
-- writer's hands and waiting, in order), or begins with the whole line. (It connects no more, and no
-- signal bears a journal type.)
pub no_skips :
    (events : List (Context × Event)) (s : Socket)
    → AreLater events
    → Comparable (sent_frames (run events s).trace) (line s)
unfolding view line
no_skips events s later =
    Follows-Comparable (line s) (view (run events s))
      (Advances-Follows (line s) (along [] (sym (append-nil _))) (run_refines events s later))
