-- ===== src/Consumer/Moves/Run.antt =====
-- The whole life of a socket makes moves only, from the fresh socket of its `connect` (consumers.py).
use stapel_realtime.Prelude.{
  arith, ℕ, String, refl, Bool, true, false, Option, none, some, List, [], ◌∷◌, ◌≡◌, if◌then◌else◌,
}
use stapel_realtime.Python.{Result, ok, raise}
use stapel_realtime.Authorize.{authenticated}
use stapel_realtime.CloseCodes.{close_unauthenticated, close_stream_unknown, close_forbidden}
use stapel_realtime.Delivery.{Message}
use stapel_realtime.Consumer.State.{
  Socket, Context, group_add, group_discard, accept, close, presence_connect, presence_disconnect,
  fresh, throw, stopped,
}
use stapel_realtime.Consumer.Heartbeat.{counted, user_id}
use stapel_realtime.Consumer.Lifecycle.{
  get_stream_key, is_unresolved, close_with, join, admit, connect_on, connect, uncount, leave,
  disconnect,
}
use stapel_realtime.Consumer.Machine.{
  Event, connected, disconnected, received, messaged, scheduled, handle, run,
}
use stapel_realtime.Consumer.Moves.{Mode, mode_of, le_refl, sent_frames, Moves, here, Moves-trans}
use stapel_realtime.Consumer.Moves.Actions.{
  Runs, Runs-bind, Runs-lift, Runs-modify, Runs-if, Moves-if,
}
use stapel_realtime.Consumer.Moves.Outbound.{emit-Moves}
use stapel_realtime.Consumer.Moves.Tasks.{still-Moves, background-Moves}
use stapel_realtime.Consumer.Moves.Handlers.{
  IsHonest, IsWhole, Runs-authorize_cached, Runs-receive_json, Runs-on_message,
}

Runs-close_with : {strict : Bool} (code : ℕ) → Runs (mode_of false strict) (close_with code)
unfolding sent_frames
Runs-close_with code = Runs-modify _ (λ s. emit-Moves s (close code) refl (λ h. cc))

Runs-join :
    {strict : Bool} (cx : Context) (key : String) → Runs (mode_of false strict) (join cx key)
unfolding join sent_frames
Runs-join cx key = Runs-bind _ _ (Runs-lift _) λ group.
    Runs-bind _ _
      (Runs-modify _ (λ s.
        Moves-trans
          (still-Moves s (record s { group = some group }) refl (λ c. c) (λ _ w. w)
            (λ _ _. le_refl _) refl refl refl refl (λ h. cc))
          (emit-Moves _ (group_add group) refl (λ h. cc))))
      λ _. Runs-bind _ _ (Runs-modify _ (λ s. emit-Moves s accept refl (λ h. cc))) λ _.
        Runs-bind _ _
          (Runs-modify _ (λ s.
            still-Moves s _ refl (λ c. c) (λ _ w. w) (λ _ _. le_refl _) refl refl refl refl
              (λ h. cc)))
          λ _. Runs-bind _ _ (Runs-lift _) λ family.
            Runs-bind _ _
              (Runs-modify _ (λ s.
                emit-Moves s (presence_connect (user_id cx) cx.channel_name family) refl (λ h. cc)))
              λ _. Runs-modify _ (λ s.
                still-Moves s _ refl (λ c. c) (λ h. cc) (λ h. cc) refl refl refl refl (λ h. cc))

Runs-admit :
    {strict : Bool} (cx : Context) (key : String) (allowed : Bool)
    → Runs (mode_of false strict) (admit cx key allowed)
Runs-admit cx key true = Runs-join cx key
Runs-admit cx key false = Runs-close_with close_forbidden

Runs-connect_on :
    {strict : Bool} (cx : Context) (r : Result String)
    → Runs (mode_of false strict) (connect_on cx r)
Runs-connect_on cx (ok key) =
    Runs-bind _ _
      (Runs-modify _ (λ s.
        still-Moves s _ refl (λ c. c) (λ _ w. w) (λ _ _. le_refl _) refl refl refl refl (λ h. cc)))
      λ _. Runs-bind _ _ (Runs-authorize_cached cx true) (Runs-admit cx key)
Runs-connect_on cx (raise e) =
    Runs-if (is_unresolved e) (close_with close_stream_unknown) (throw e)
      (Runs-close_with close_stream_unknown) (Runs-lift (raise e))

pub connect-Moves :
    {strict : Bool} (cx : Context) (s : Socket)
    → Moves (mode_of false strict) (fresh cx) (connect cx s).1
unfolding connect
connect-Moves cx s =
    Moves-if (fresh cx) (authenticated cx.scope.user) _ _
      (λ known. (Runs-connect_on cx (get_stream_key cx)).at (fresh cx))
      (λ unknown. (Runs-close_with close_unauthenticated).at (fresh cx))

uncount-Moves :
    {late strict : Bool} (cx : Context) (o : Option String) (s : Socket)
    → Moves (mode_of late strict) s (uncount cx o s)
unfolding sent_frames
uncount-Moves cx none s = here
uncount-Moves cx (some session) s =
    Moves-trans
      (still-Moves s (record s { presence_session = none }) refl (λ c. c) (λ _ w. w)
        (λ _ _. le_refl _) refl refl refl refl (λ h. cc))
      (emit-Moves _ (presence_disconnect (user_id cx) session) refl (λ h. cc))

leave-Moves :
    {late strict : Bool} (o : Option String) (s : Socket)
    → Moves (mode_of late strict) s (leave o s)
unfolding sent_frames
leave-Moves none s = here
leave-Moves (some group) s = emit-Moves s (group_discard group) refl (λ h. cc)

disconnect-Moves :
    {late strict : Bool} (cx : Context) (s : Socket)
    → Moves (mode_of late strict) s (disconnect cx s)
unfolding disconnect
disconnect-Moves cx s =
    Moves-trans
      (still-Moves s (record s { closing = true; writer = false; heartbeat = stopped }) refl
        (λ c. refl) (λ _ _. refl) (λ _ _. omega arith) refl refl refl refl (λ h. cc))
      (Moves-trans (uncount-Moves cx (counted s.presence_session) _) (leave-Moves s.group _))

-- An event after `connect` whose signal, if it is one, bears no journal type.
abbrev pub IsLater : Event → Type 0
IsLater connected = ⊥
IsLater (messaged m) = IsHonest m
IsLater _ = Unit

abbrev pub AreLater : List (Context × Event) → Type 0
AreLater [] = Unit
AreLater ((_, event) ∷ events) = IsLater event × AreLater events

-- So too with signals that the schema of the wire admits, if the moves are to be `strict`.
abbrev pub IsLawful : Bool → Event → Type 0
IsLawful strict (messaged m) = IsHonest m × (if strict then IsWhole m else Unit)
IsLawful strict event = IsLater event

abbrev pub AreLawful : Bool → List (Context × Event) → Type 0
AreLawful strict [] = Unit
AreLawful strict ((_, event) ∷ events) = IsLawful strict event × AreLawful strict events

-- Nothing but an honest signal is asked of the others.
pub lax : (event : Event) → IsLater event → IsLawful false event
lax connected h = h
lax disconnected h = h
lax (received content) h = h
lax (messaged m) h = (h, tt)
lax (scheduled b) h = h

lax_all : (events : List (Context × Event)) → AreLater events → AreLawful false events
lax_all [] h = h
lax_all ((cx, event) ∷ events) (first, later) = (lax event first, lax_all events later)

whole :
    (strict : Bool) (m : Message) → (if strict then IsWhole m else Unit) → strict ≡ true → IsWhole m
whole true m h on = h
whole false m h on = absurd cc

abbrev pub is_staying : Event → Bool
is_staying disconnected = false
is_staying event = true

-- Whatever happens to a socket but its disconnect, in any mode.
pub staying-Moves :
    {mode : Mode} (cx : Context) (event : Event) (s : Socket)
    → IsLawful mode.strict event
    → is_staying event ≡ true
    → Moves mode s (handle cx event s).1
unfolding handle
staying-Moves cx connected s h k = absurd h
staying-Moves cx disconnected s h k = absurd cc
staying-Moves cx (received content) s h k = (Runs-receive_json cx content).at s
staying-Moves {mode = mode} cx (messaged m) s h k =
    (Runs-on_message cx m h.0 (whole mode.strict m h.1)).at s
staying-Moves cx (scheduled b) s h k = background-Moves cx b s

event-Moves :
    {late strict : Bool} (cx : Context) (event : Event) (s : Socket)
    → IsLawful strict event
    → Moves (mode_of late strict) s (handle cx event s).1
unfolding handle
event-Moves cx connected s h = absurd h
event-Moves cx disconnected s h = disconnect-Moves cx s
event-Moves cx (received content) s h = staying-Moves cx (received content) s h refl
event-Moves cx (messaged m) s h = staying-Moves cx (messaged m) s h refl
event-Moves cx (scheduled b) s h = staying-Moves cx (scheduled b) s h refl

pub events-Moves :
    {late strict : Bool} (events : List (Context × Event)) (s : Socket)
    → AreLawful strict events
    → Moves (mode_of late strict) s (run events s)
unfolding run
events-Moves [] s h = here
events-Moves ((cx, event) ∷ events) s h =
    Moves-trans (event-Moves cx event s h.0) (events-Moves events (handle cx event s).1 h.1)

pub handle-Moves :
    {late : Bool} (cx : Context) (event : Event) (s : Socket)
    → IsLater event
    → Moves (mode_of late false) s (handle cx event s).1
handle-Moves cx event s h = event-Moves {strict = false} cx event s (lax event h)

pub run-Moves :
    {late : Bool} (events : List (Context × Event)) (s : Socket)
    → AreLater events
    → Moves (mode_of late false) s (run events s)
run-Moves events s h = events-Moves {strict = false} events s (lax_all events h)

-- From `connect` on, every run of a socket is a sequence of moves from the fresh socket.
pub life-Moves :
    (cx : Context) (events : List (Context × Event)) (s : Socket)
    → AreLater events
    → Moves (mode_of false false) (fresh cx) (run events (connect cx s).1)
life-Moves cx events s h = Moves-trans (connect-Moves cx s) (run-Moves events (connect cx s).1 h)
