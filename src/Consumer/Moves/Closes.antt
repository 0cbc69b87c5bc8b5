-- ===== src/Consumer/Moves/Closes.antt =====
-- The closes that an accepted socket issues (consumers.py), and the canon of codes (close_codes.py).
use mathlib.Core.List.{append-nil}
use stapel_realtime.Prelude.{
  ℕ, ◌≡◌, refl, ◌⊎◌, inl, inr, String, true, false, Option, none, some, List, [], ◌∷◌, ◌++◌, ap,
  ◌∙◌,
}
use stapel_realtime.Python.{ok}
use stapel_realtime.CloseCodes.{is_canonical}
use stapel_realtime.Consumer.State.{
  Socket, Context, Effect, group_discard, close, send, presence_heartbeat, presence_disconnect,
  fresh, stopped, ◌>>=◌,
}
use stapel_realtime.Consumer.Heartbeat.{presence_family, counted, user_id}
use stapel_realtime.Consumer.Lifecycle.{authorize_cached, join, connect, uncount, leave, disconnect}
use stapel_realtime.Consumer.Lifecycle.Connect.{IsAdmitted}
use stapel_realtime.Consumer.Machine.{
  Event, connected, disconnected, received, messaged, scheduled, handle, run,
}
use stapel_realtime.Consumer.Moves.{
  News, silent, transmitted, ended, renewed, Move-frame, Moves, here, next,
}
use stapel_realtime.Consumer.Moves.Run.{IsLater, AreLater, staying-Moves}
use stapel_realtime.Consumer.Moves.Counted.{staying}

unfoldable pub closes : List Effect → List ℕ
closes [] = []
closes (close code ∷ es) = code ∷ closes es
closes (_ ∷ es) = closes es

closes-append : (es fs : List Effect) → closes (es ++ fs) ≡ closes es ++ closes fs
unfolding closes
closes-append [] fs = refl
closes-append (close code ∷ es) fs = ap (λ cs. code ∷ cs) (closes-append es fs)
closes-append (_ ∷ es) fs = closes-append es fs

abbrev pub AreCanonical : List ℕ → Type 0
AreCanonical [] = Unit
AreCanonical (code ∷ codes) = (is_canonical code ≡ true) × AreCanonical codes

AreCanonical-append : (cs ds : List ℕ) → AreCanonical cs → AreCanonical ds → AreCanonical (cs ++ ds)
AreCanonical-append [] ds h k = k
AreCanonical-append (c ∷ cs) ds h k = (h.0, AreCanonical-append cs ds h.1 k)

-- The closes of a socket are of the canon, and where there is one, the socket is closing.
record IsFinal (s : Socket) : Type 0 where
  canon : AreCanonical (closes s.trace)
  flag : (closes s.trace ≡ []) ⊎ (s.closing ≡ true)

-- Nothing is closed, and the flag stays up.
keeps :
    (s t : Socket)
    → closes t.trace ≡ closes s.trace
    → (s.closing ≡ true → t.closing ≡ true)
    → IsFinal s
    → IsFinal t
keeps s t e k f = record {
  canon = rw e f.canon;
  flag = elim f.flag [ inl none_yet ↦ inl (e ∙ none_yet) | inr closing ↦ inr (k closing) ];
}

-- One effect more, which is no close.
past :
    (s t : Socket) (e : Effect)
    → closes (e ∷ []) ≡ []
    → t.trace ≡ s.trace ++ e ∷ []
    → closes t.trace ≡ closes s.trace
past s t e n h =
    ap closes h
    ∙ (closes-append s.trace (e ∷ [])
        ∙ (ap (λ cs. closes s.trace ++ cs) n ∙ append-nil (closes s.trace)))

News-IsFinal :
    (s t : Socket) → (s.closing ≡ true → t.closing ≡ true) → News s t → IsFinal s → IsFinal t
unfolding closes
News-IsFinal s t k (silent e) f = keeps s t (ap closes e) k f
News-IsFinal s t k (transmitted d e) f = keeps s t (past s t (send d) refl e) k f
News-IsFinal s t k (ended code known shut e) f = record {
  canon =
      rw (e, closes-append s.trace (close code ∷ []))
        (AreCanonical-append (closes s.trace) (code ∷ []) f.canon (known, tt));
  flag = inr shut;
}
News-IsFinal s t k (renewed user session family p e) f =
    keeps s t (past s t (presence_heartbeat user session family) refl e) k f

Moves-IsFinal : {s t : Socket} → Moves staying s t → IsFinal s → IsFinal t
Moves-IsFinal here f = f
Moves-IsFinal (next {t = t} {u = u} p m) f =
    News-IsFinal t u (Move-frame m).closing ((Move-frame m).stay refl).news (Moves-IsFinal p f)

uncount-IsFinal :
    (cx : Context) (o : Option String) (s : Socket) → IsFinal s → IsFinal (uncount cx o s)
unfolding closes
uncount-IsFinal cx none s f = f
uncount-IsFinal cx (some session) s f =
    keeps s (uncount cx (some session) s)
      (past s (uncount cx (some session) s) (presence_disconnect (user_id cx) session) refl refl)
      (λ c. c) f

leave-IsFinal : (o : Option String) (s : Socket) → IsFinal s → IsFinal (leave o s)
unfolding closes
leave-IsFinal none s f = f
leave-IsFinal (some group) s f =
    keeps s (leave (some group) s) (past s (leave (some group) s) (group_discard group) refl refl)
      (λ c. c) f

handle-IsFinal :
    (cx : Context) (event : Event) (s : Socket)
    → IsLater event
    → IsFinal s
    → IsFinal (handle cx event s).1
unfolding handle disconnect
handle-IsFinal cx connected s h f = absurd h
handle-IsFinal cx disconnected s h f =
    let over = record s { closing = true; writer = false; heartbeat = stopped } in
    leave-IsFinal s.group _
      (uncount-IsFinal cx (counted s.presence_session) over (keeps s over refl (λ _. refl) f))
handle-IsFinal cx (received content) s h f =
    Moves-IsFinal (staying-Moves cx (received content) s h refl) f
handle-IsFinal cx (messaged m) s h f =
    Moves-IsFinal (staying-Moves cx (messaged m) s (h, tt) refl) f
handle-IsFinal cx (scheduled b) s h f = Moves-IsFinal (staying-Moves cx (scheduled b) s h refl) f

run-IsFinal :
    (events : List (Context × Event)) (s : Socket)
    → AreLater events
    → IsFinal s
    → IsFinal (run events s)
unfolding run
run-IsFinal [] s h f = f
run-IsFinal ((cx, event) ∷ events) s h f =
    run-IsFinal events (handle cx event s).1 h.1 (handle-IsFinal cx event s h.0 f)

connect-IsFinal :
    (cx : Context) (s : Socket) (a : IsAdmitted cx) (family : Option String)
    → presence_family cx (some a.key) ≡ ok family
    → IsFinal (connect cx s).1
unfolding connect authorize_cached fresh join ◌>>=◌ closes
connect-IsFinal cx s a family f = record {
  canon = rw (a.known, a.resolved, a.authorized, a.named, f) tt;
  flag = inl (rw (a.known, a.resolved, a.authorized, a.named, f) refl);
}

-- In the life of an accepted socket, whatever its events, every close that it issues bears a code of
-- the canon, and once there is one, the socket is closing. (Its presence family is known, it connects
-- once, and no signal bears a journal type.)
pub closes_finally :
    (cx : Context) (s : Socket) (a : IsAdmitted cx) (family : Option String)
    (events : List (Context × Event))
    → presence_family cx (some a.key) ≡ ok family
    → AreLater events
    → let t = run events (connect cx s).1 in
      AreCanonical (closes t.trace) × ((closes t.trace ≡ []) ⊎ (t.closing ≡ true))
closes_finally cx s a family events f later =
    let final = run-IsFinal events (connect cx s).1 later (connect-IsFinal cx s a family f) in
    (final.canon, final.flag)
