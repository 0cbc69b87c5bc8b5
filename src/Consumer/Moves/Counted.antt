-- ===== src/Consumer/Moves/Counted.antt =====
-- The groups and the presence sessions that a socket is counted in (consumers.py), as its effects
-- tell: what each move of a socket that stays, and of one that is gone, does to them.
use stapel_realtime.Prelude.{
  ◌≡◌, refl, String, Bool, true, false, not, ◌||◌, Option, none, some, List, [], ◌∷◌, ◌++◌, ap, ◌∙◌,
  arith, eq_iff,
}
use stapel_realtime.Python.{Value}
use stapel_realtime.Envelope.{contains}
use stapel_realtime.Presence.Registry.{without}
use stapel_realtime.Consumer.State.{
  Socket, Effect, group_add, group_discard, close, send, presence_connect, presence_heartbeat,
  presence_disconnect,
}
use stapel_realtime.Consumer.Moves.{
  Mode, News, silent, transmitted, ended, renewed, Stays, Move-frame, Moves, here, next,
}

-- The groups and the sessions that a socket is counted in, and whether it has ever renewed or ended a
-- session that it was not counted in.
pub record Attendance : Type 0 where
  pub groups : List String
  pub sessions : List String
  pub stray : Bool

abbrev pub absent : Attendance
absent = record { groups = []; sessions = []; stray = false }

abbrev pub present : String → String → Attendance
present group session = record { groups = group ∷ []; sessions = session ∷ []; stray = false }

unfoldable pub attend : Attendance → Effect → Attendance
unfolding without contains
attend a (group_add group) = record a { groups = group ∷ without group a.groups }
attend a (group_discard group) = record a { groups = without group a.groups }
attend a (presence_connect user session family) = record a {
  sessions = session ∷ without session a.sessions;
}
attend a (presence_heartbeat user session family) = record a {
  stray = a.stray || not (contains session a.sessions);
}
attend a (presence_disconnect user session) = record a {
  sessions = without session a.sessions;
  stray = a.stray || not (contains session a.sessions);
}
attend a _ = a

unfoldable pub attended_from : Attendance → List Effect → Attendance
unfolding attend
attended_from a [] = a
attended_from a (e ∷ es) = attended_from (attend a e) es

-- What the effects of a socket come to.
unfoldable pub attendance : List Effect → Attendance
unfolding attended_from
attendance = attended_from absent

attended_from-snoc :
    (a : Attendance) (es : List Effect) (e : Effect)
    → attended_from a (es ++ e ∷ []) ≡ attend (attended_from a es) e
unfolding attended_from
attended_from-snoc a [] e = refl
attended_from-snoc a (f ∷ es) e = attended_from-snoc (attend a f) es e

attendance-snoc :
    (es : List Effect) (e : Effect) → attendance (es ++ e ∷ []) ≡ attend (attendance es) e
unfolding attendance
attendance-snoc = attended_from-snoc absent

-- A trace and a new effect, where the attendance so far is known.
pub attendance-next :
    (es fs : List Effect) {a : Attendance} (e : Effect)
    → fs ≡ es ++ e ∷ []
    → attendance es ≡ a
    → attendance fs ≡ attend a e
attendance-next es fs e h k = ap attendance h ∙ (attendance-snoc es e ∙ ap (λ a. attend a e) k)

pub record IsHere (group session : String) (s : Socket) : Type 0 where
  pub counted_as : s.presence_session ≡ some session
  pub member : s.group ≡ some group
  pub book : attendance s.trace ≡ present group session

pub record IsGone (s : Socket) : Type 0 where
  pub uncounted : s.presence_session ≡ none
  pub book : attendance s.trace ≡ absent

renewal :
    (group session : String) (user : Value) (family : Option String)
    → attend (present group session) (presence_heartbeat user session family)
      ≡ present group session
unfolding attend without contains
renewal group session user family = ground (arith, eq_iff session session)

News-here :
    (group session : String) {s t : Socket}
    → IsHere group session s
    → News s t
    → attendance t.trace ≡ present group session
unfolding attend
News-here group session h (silent e) = ap attendance e ∙ h.book
News-here group session h (transmitted d e) = attendance-next _ _ (send d) e h.book
News-here group session h (ended code known shut e) = attendance-next _ _ (close code) e h.book
News-here group session h (renewed user other family p e) =
    let same : other ≡ session = cc in
    attendance-next _ _ (presence_heartbeat user other family) e h.book
    ∙ rw same (renewal group session user family)

Stays-IsHere :
    (group session : String) {s t : Socket}
    → IsHere group session s
    → Stays s t
    → IsHere group session t
Stays-IsHere group session h st = record {
  counted_as = st.session ∙ h.counted_as;
  member = st.group ∙ h.member;
  book = News-here group session h st.news;
}

News-gone : {s t : Socket} → IsGone s → News s t → attendance t.trace ≡ absent
unfolding attend
News-gone g (silent e) = ap attendance e ∙ g.book
News-gone g (transmitted d e) = attendance-next _ _ (send d) e g.book
News-gone g (ended code known shut e) = attendance-next _ _ (close code) e g.book
News-gone g (renewed user other family p e) = absurd cc

Stays-IsGone : {s t : Socket} → IsGone s → Stays s t → IsGone t
Stays-IsGone g st = record { uncounted = st.session ∙ g.uncounted; book = News-gone g st.news }

abbrev pub staying : Mode
staying = record { late = true; strict = false; staying = true }

pub Moves-IsHere :
    (group session : String) {s t : Socket}
    → IsHere group session s
    → Moves staying s t
    → IsHere group session t
Moves-IsHere group session h here = h
Moves-IsHere group session h (next p m) =
    Stays-IsHere group session (Moves-IsHere group session h p) ((Move-frame m).stay refl)

pub Moves-IsGone : {s t : Socket} → IsGone s → Moves staying s t → IsGone t
Moves-IsGone g here = g
Moves-IsGone g (next p m) = Stays-IsGone (Moves-IsGone g p) ((Move-frame m).stay refl)
