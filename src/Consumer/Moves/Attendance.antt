-- ===== src/Consumer/Moves/Attendance.antt =====
-- Where a socket is counted (consumers.py): the group that it joins and the presence session that it
-- opens, renews and ends, as the others see it from what it does, over its whole life.
use stapel_realtime.Prelude.{
  ◌≡◌, ◌≢◌, refl, String, true, false, Option, none, some, List, [], ◌∷◌, ap, ◌∙◌, arith, eq_iff,
}
use stapel_realtime.Python.{Value, ok}
use stapel_realtime.Envelope.{contains}
use stapel_realtime.Presence.Registry.{without}
use stapel_realtime.Consumer.State.{
  Socket, Context, group_discard, presence_disconnect, fresh, stopped, ◌>>=◌,
}
use stapel_realtime.Consumer.Heartbeat.{presence_family, counted, user_id}
use stapel_realtime.Consumer.Lifecycle.{authorize_cached, join, connect, uncount, leave, disconnect}
use stapel_realtime.Consumer.Lifecycle.Connect.{IsAdmitted}
use stapel_realtime.Consumer.Machine.{
  Event, connected, disconnected, received, messaged, scheduled, handle, run,
}
use stapel_realtime.Consumer.Moves.Run.{IsLater, AreLater, is_staying, lax, staying-Moves}
use stapel_realtime.Consumer.Moves.Counted.{
  attend, attended_from, attendance, attendance-next, absent, present, IsHere, IsGone, Moves-IsHere,
  Moves-IsGone,
}

connect-IsHere :
    (cx : Context) (s : Socket) (a : IsAdmitted cx) (family : Option String)
    → presence_family cx (some a.key) ≡ ok family
    → IsHere a.group cx.channel_name (connect cx s).1
unfolding connect authorize_cached fresh join ◌>>=◌ attendance attended_from attend without
connect-IsHere cx s a family f = record {
  counted_as = rw (a.known, a.resolved, a.authorized, a.named, f) refl;
  member = rw (a.known, a.resolved, a.authorized, a.named, f) refl;
  book = rw (a.known, a.resolved, a.authorized, a.named, f) refl;
}

-- None of the events is the disconnect.
abbrev pub AreStaying : List (Context × Event) → Type 0
AreStaying [] = Unit
AreStaying ((_, event) ∷ events) = (is_staying event ≡ true) × AreStaying events

run-IsHere :
    (group session : String) (events : List (Context × Event)) (s : Socket)
    → AreLater events
    → AreStaying events
    → IsHere group session s
    → IsHere group session (run events s)
unfolding run
run-IsHere group session [] s later stay h = h
run-IsHere group session ((cx, event) ∷ events) s later stay h =
    run-IsHere group session events (handle cx event s).1 later.1 stay.1
      (Moves-IsHere group session h (staying-Moves cx event s (lax event later.0) stay.0))

leave-IsGone : (group : Option String) (s : Socket) → IsGone s → IsGone (leave group s)
unfolding attend without
leave-IsGone none s g = g
leave-IsGone (some group) s g = record {
  uncounted = g.uncounted;
  book = attendance-next _ _ (group_discard group) refl g.book;
}

uncount-IsGone :
    (cx : Context) (o : Option String) (s : Socket) → o ≡ none → IsGone s → IsGone (uncount cx o s)
uncount-IsGone cx none s h g = g
uncount-IsGone cx (some session) s h g = absurd cc

handle-IsGone :
    (cx : Context) (event : Event) (s : Socket)
    → IsLater event
    → IsGone s
    → IsGone (handle cx event s).1
unfolding handle disconnect
handle-IsGone cx connected s h g = absurd h
handle-IsGone cx disconnected s h g = leave-IsGone s.group _ (
    uncount-IsGone cx (counted s.presence_session)
      (record s { closing = true; writer = false; heartbeat = stopped }) (ap counted g.uncounted)
      (record { uncounted = g.uncounted; book = g.book }))
handle-IsGone cx (received content) s h g =
    Moves-IsGone g (staying-Moves cx (received content) s h refl)
handle-IsGone cx (messaged m) s h g = Moves-IsGone g (staying-Moves cx (messaged m) s (h, tt) refl)
handle-IsGone cx (scheduled b) s h g = Moves-IsGone g (staying-Moves cx (scheduled b) s h refl)

run-IsGone :
    (events : List (Context × Event)) (s : Socket)
    → AreLater events
    → IsGone s
    → IsGone (run events s)
unfolding run
run-IsGone [] s h g = g
run-IsGone ((cx, event) ∷ events) s h g =
    run-IsGone events (handle cx event s).1 h.1 (handle-IsGone cx event s h.0 g)

last_two :
    (group session : String) (user : Value)
    → attend
        (attend (present group session) (presence_disconnect user session))
        (group_discard group)
      ≡ absent
unfolding attend without contains
last_two group session user = ground (arith, eq_iff session session, eq_iff group group)

leaves :
    (cx : Context) (group session : String) (o g : Option String) (s : Socket)
    → o ≡ some session
    → g ≡ some group
    → attendance s.trace ≡ present group session
    → IsGone (leave g (uncount cx o s))
leaves cx group session none g s h k b = absurd cc
leaves cx group session (some _) none s h k b = absurd cc
leaves cx group session (some other) (some place) s h k b =
    let same : other ≡ session = cc in
    let there : place ≡ group = cc in
    record {
      uncounted = refl;
      book =
          attendance-next _ _ (group_discard place) refl
            (attendance-next _ _ (presence_disconnect (user_id cx) other) refl b)
          ∙ rw (same, there) (last_two group session (user_id cx));
    }

named : (session : String) → session ≢ "" → counted (some session) ≡ some session
named session n = ground (arith, eq_iff session "")

disconnect-IsGone :
    (cx : Context) (group session : String) (s : Socket)
    → session ≢ ""
    → IsHere group session s
    → IsGone (disconnect cx s)
unfolding disconnect
disconnect-IsGone cx group session s n h =
    leaves cx group session (counted s.presence_session) s.group
      (record s { closing = true; writer = false; heartbeat = stopped })
      (ap counted h.counted_as ∙ named session n) h.member h.book

-- From its connect to its disconnect, whatever happens in between, an admitted socket is in its group
-- and counted once, under its channel's name; from the disconnect on, whatever still happens, it is
-- in no group and counted nowhere; and at no time does it renew or end a session that is not counted.
-- (Its channel has a name and its presence family is known, it connects once, and no signal bears a
-- journal type.)
pub attends :
    (cx leaving : Context) (s : Socket) (a : IsAdmitted cx) (family : Option String)
    (stay later : List (Context × Event))
    → cx.channel_name ≢ ""
    → presence_family cx (some a.key) ≡ ok family
    → AreLater stay
    → AreStaying stay
    → AreLater later
    → let t = run stay (connect cx s).1 in
      (attendance t.trace ≡ present a.group cx.channel_name)
      × (attendance (run ((leaving, disconnected) ∷ later) t).trace ≡ absent)
unfolding run handle
attends cx leaving s a family stay later n f h k l =
    let in_group =
      run-IsHere a.group cx.channel_name stay (connect cx s).1 h k
        (connect-IsHere cx s a family f) in
    (
      in_group.book,
      (run-IsGone later _ l (disconnect-IsGone leaving a.group cx.channel_name _ n in_group)).book,
    )
