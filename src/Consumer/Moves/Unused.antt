-- ===== src/Consumer/Moves/Unused.antt =====
-- `connect` leaves the frames of a socket alone (consumers.py): its channel is unused.
use mathlib.Core.Path.{subst}
use stapel_realtime.Prelude.{
  ℕ, String, ◌≡◌, refl, Bool, true, false, none, some, [], List, ap, ◌∙◌, if◌then◌else◌,
}
use stapel_realtime.Prelude.Int.{pos}
use stapel_realtime.Python.{Result, Exn, ok, raise}
use stapel_realtime.Authorize.{authenticated}
use stapel_realtime.CloseCodes.{close_unauthenticated, close_stream_unknown, close_forbidden}
use stapel_realtime.Consumer.State.{
  Socket, Context, Effect, fresh, queue_size, emit, group_add, accept, close, presence_connect,
  Action, Step, continue, lift, modify, throw, ◌>>=◌,
}
use stapel_realtime.Consumer.Heartbeat.{user_id}
use stapel_realtime.Consumer.Lifecycle.{
  get_stream_key, is_unresolved, close_with, authorize, after_asking, authorize_cached, join, admit,
  connect_on, connect,
}
use stapel_realtime.Consumer.Machine.{Event, run}
use stapel_realtime.Consumer.Moves.{sent_frames, Moves-capacity}
use stapel_realtime.Consumer.Moves.Outbound.{IsQuiet, sent_frames-quiet}
use stapel_realtime.Consumer.Moves.Run.{AreLater, connect-Moves}
use stapel_realtime.Consumer.Moves.Channel.{Advances, unused, view, run_refines}

record IsUnused (s : Socket) : Type 0 where
  outbox : s.outbox ≡ []
  in_flight : s.in_flight ≡ none
  sent : sent_frames s.trace ≡ []
  cursor : s.max_seq_sent ≡ pos 0
  open_ : s.closing ≡ false

-- An action that keeps an unused socket unused.
record Leaves {A : Type 0} (m : Action A) : Type 0 where
  at : (s : Socket) → IsUnused s → IsUnused (m s).1

module _ {A B : Type 0} where
  continue-IsUnused :
      (t : Socket) (r : Result A) (f : A → Action B)
      → IsUnused t
      → ((a : A) → Leaves (f a))
      → IsUnused (continue (r, t) f).1
  continue-IsUnused t (ok a) f u rest = (rest a).at t u
  continue-IsUnused t (raise e) f u rest = u

  Leaves-bind :
      (m : Action A) (f : A → Action B) → Leaves m → ((a : A) → Leaves (f a)) → Leaves (m >>= f)
  unfolding ◌>>=◌
  Leaves-bind m f h rest = record {
    at = λ s u. let (r, t) = m s in continue-IsUnused t r f (h.at s u) rest;
  }

Leaves-lift : {A : Type 0} (r : Result A) → Leaves (lift r)
Leaves-lift r = record { at = λ s u. u }

Leaves-modify :
    (f : Socket → Socket) → ((s : Socket) → IsUnused s → IsUnused (f s)) → Leaves (modify f)
Leaves-modify f h = record { at = h }

emit-IsUnused : (e : Effect) (s : Socket) → IsQuiet e → IsUnused s → IsUnused (emit e s)
emit-IsUnused e s q u = record {
  outbox = u.outbox;
  in_flight = u.in_flight;
  sent = sent_frames-quiet s.trace e q ∙ u.sent;
  cursor = u.cursor;
  open_ = u.open_;
}

-- A change of other attributes.
same-IsUnused :
    (s t : Socket)
    → t.outbox ≡ s.outbox
    → t.in_flight ≡ s.in_flight
    → t.trace ≡ s.trace
    → t.max_seq_sent ≡ s.max_seq_sent
    → t.closing ≡ s.closing
    → IsUnused s
    → IsUnused t
same-IsUnused s t o i e c k u = record {
  outbox = o ∙ u.outbox;
  in_flight = i ∙ u.in_flight;
  sent = ap sent_frames e ∙ u.sent;
  cursor = c ∙ u.cursor;
  open_ = k ∙ u.open_;
}

after_asking-IsUnused :
    (cx : Context) (r : Result Bool) (s : Socket) → IsUnused s → IsUnused (after_asking cx r s).1
after_asking-IsUnused cx (ok true) s u = same-IsUnused s _ refl refl refl refl refl u
after_asking-IsUnused cx (ok false) s u = same-IsUnused s _ refl refl refl refl refl u
after_asking-IsUnused cx (raise e) s u = u

Leaves-authorize : (cx : Context) → Leaves (authorize_cached cx true)
unfolding authorize_cached
Leaves-authorize cx = record {
  at = λ s u. after_asking-IsUnused cx (authorize cx s.stream_key) s u;
}

Leaves-join : (cx : Context) (key : String) → Leaves (join cx key)
unfolding join sent_frames
Leaves-join cx key = Leaves-bind _ _ (Leaves-lift _) λ group.
    Leaves-bind _ _
      (Leaves-modify _ (λ s u.
        emit-IsUnused (group_add group) _ refl
          (same-IsUnused s (record s { group = some group }) refl refl refl refl refl u)))
      λ _. Leaves-bind _ _ (Leaves-modify _ (λ s u. emit-IsUnused accept s refl u)) λ _.
        Leaves-bind _ _ (Leaves-modify _ (λ s u. same-IsUnused s _ refl refl refl refl refl u)) λ _.
          Leaves-bind _ _ (Leaves-lift _) λ family.
            Leaves-bind _ _
              (Leaves-modify _ (λ s u.
                emit-IsUnused (presence_connect (user_id cx) cx.channel_name family) s refl u))
              λ _. Leaves-modify _ (λ s u. same-IsUnused s _ refl refl refl refl refl u)

Leaves-close_with : (code : ℕ) → Leaves (close_with code)
unfolding sent_frames
Leaves-close_with code = Leaves-modify _ (λ s u. emit-IsUnused (close code) s refl u)

Leaves-admit : (cx : Context) (key : String) (allowed : Bool) → Leaves (admit cx key allowed)
Leaves-admit cx key true = Leaves-join cx key
Leaves-admit cx key false = Leaves-close_with close_forbidden

module _ {A : Type 0} where
  either-IsUnused :
      (b : Bool) (x y : A × Socket) → IsUnused x.1 → IsUnused y.1 → IsUnused (if b then x else y).1
  either-IsUnused true x y h h' = h
  either-IsUnused false x y h h' = h'

Leaves-if : (b : Bool) (m k : Step) → Leaves m → Leaves k → Leaves (if b then m else k)
Leaves-if true m k h h' = h
Leaves-if false m k h h' = h'

Leaves-throw : (e : Exn) → Leaves {A = Unit} (throw e)
Leaves-throw e = record { at = λ s u. u }

connect_on-IsUnused :
    (cx : Context) (r : Result String) (s : Socket) → IsUnused s → IsUnused (connect_on cx r s).1
connect_on-IsUnused cx (ok key) s u =
    (Leaves-bind _ _ (Leaves-modify _ (λ s u. same-IsUnused s _ refl refl refl refl refl u))
        λ _. Leaves-bind _ _ (Leaves-authorize cx) (Leaves-admit cx key)).at
      s u
connect_on-IsUnused cx (raise e) s u =
    (Leaves-if (is_unresolved e) _ _ (Leaves-close_with close_stream_unknown) (Leaves-throw e)).at s
      u

fresh-IsUnused : (cx : Context) → IsUnused (fresh cx)
unfolding fresh sent_frames
fresh-IsUnused cx = record {
  outbox = refl;
  in_flight = refl;
  sent = refl;
  cursor = refl;
  open_ = refl;
}

connect-IsUnused : (cx : Context) (s : Socket) → IsUnused (connect cx s).1
unfolding connect
connect-IsUnused cx s =
    either-IsUnused (authenticated cx.scope.user) (connect_on cx (get_stream_key cx) (fresh cx))
      (close_with close_unauthenticated (fresh cx))
      (connect_on-IsUnused cx (get_stream_key cx) (fresh cx) (fresh-IsUnused cx))
      ((Leaves-close_with close_unauthenticated).at (fresh cx) (fresh-IsUnused cx))

view-unused : (s : Socket) → IsUnused s → view s ≡ unused s.writer
unfolding view
view-unused s u = rw (u.outbox, u.in_flight, u.sent, u.cursor, u.open_)

connect_size : (cx : Context) (s : Socket) → (connect cx s).1.capacity ≡ queue_size cx.settings
unfolding fresh
connect_size cx s = Moves-capacity (connect-Moves {strict = false} cx s)

-- From its connect on, whatever the events, a socket is a run of the abstract channel that holds
-- `queue_size` frames and one more, from an unused one: it appends while it is open, hands on or
-- loses the frame in front, sends no more once it has lost one, and never opens again. (It connects
-- once, and no signal bears a journal type.)
pub life_refines :
    (cx : Context) (events : List (Context × Event)) (s : Socket)
    → AreLater events
    → (sending : Bool) × (view (connect cx s).1 ≡ unused sending)
      × Advances (queue_size cx.settings) (unused sending) (view (run events (connect cx s).1))
life_refines cx events s later =
    let t = (connect cx s).1 in
    let first = view-unused t (connect-IsUnused cx s) in
    (
      t.writer,
      first,
      subst (λ n. Advances n (unused t.writer) (view (run events t))) (connect_size cx s)
          (subst (λ a. Advances t.capacity a (view (run events t))) first
            (run_refines events t later)),
    )
