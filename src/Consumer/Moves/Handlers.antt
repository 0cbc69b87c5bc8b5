-- ===== src/Consumer/Moves/Handlers.antt =====
-- The handlers of what a client and its group send make moves only (`Consumer.Hello`,
-- `Consumer.Inbound`).
use stapel_realtime.Prelude.{
  String, ◌≡◌, refl, Bool, true, false, Option, none, some, List, [], ◌∷◌, leb, ltb, not, ◌&&◌,
  arith,
}
use stapel_realtime.Prelude.Int.{ℤ, ◌≤ℤ◌, max_ℤ}
use stapel_realtime.Python.{
  Value, str, Fields, end, field, type_error, value_error, invalid_envelope, get, get_or_null,
  get-put, set_default, is_empty, Result, ok, raise,
}
use stapel_realtime.Envelope.{
  Frame, pong, live, replay, replay_done, welcome, resync, kick, parse_frame,
}
use stapel_realtime.Envelope.Schema.{FitsSchema}
use stapel_realtime.CloseCodes.{has_code, close_protocol_error, close_revoked}
use stapel_realtime.Delivery.{Message, realtime_signal, realtime_frame, realtime_revoke}
use stapel_realtime.Consumer.State.{
  Socket, Context, JournalRow, Kind, base, ephemeral, resumable, pure,
}
use stapel_realtime.Consumer.Outbound.{send_frame, drain_then_close}
use stapel_realtime.Consumer.Hello.{
  last_seq_of, wait_for_hook, replay_all, wait_for_hook, catch_up, resume, hello_from, on_hello_of,
  on_hello,
}
use stapel_realtime.Consumer.Lifecycle.{authorize, after_asking, authorize_cached}
use stapel_realtime.Consumer.Inbound.{
  on_ping, on_pong, on_malformed, greet, on_frame, receive_parsed, receive_json, key_value,
  on_signal, on_journal, spares, on_revoke, on_message, max_strikes, reason_or_default,
}
use stapel_realtime.Consumer.Moves.{
  alike, calm, Mode, le_refl, journal_seq, is_journal_type, Moves, here, Moves-trans,
}
use stapel_realtime.Consumer.Moves.Actions.{
  Runs, Runs-bind, Runs-lift, Runs-gets, Runs-modify, Runs-if, Moves-if,
}
use stapel_realtime.Consumer.Moves.Outbound.{
  Moves-same, Runs-send_frame, Runs-send_frame-some, Runs-send_error, Runs-enqueue,
}
use stapel_realtime.Consumer.Moves.Writer.{Runs-drain_then_close}
use stapel_realtime.Consumer.Moves.Tasks.{still-Moves, backgrounds-Moves}

replay_all-Moves :
    {mode : Mode} (rows : List JournalRow) (s : Socket) → Moves mode s (replay_all rows s).1
unfolding replay_all
replay_all-Moves [] s = here
replay_all-Moves (row ∷ rows) s =
    Moves-trans ((Runs-send_frame-some replay row.payload row.seq refl).at s)
      (replay_all-Moves rows (send_frame replay row.payload (some row.seq) s).1)

max_ℤ_left : (a b : ℤ) → a ≤ℤ max_ℤ a b
max_ℤ_left a b = ground arith

Runs-wait_for_hook : {mode : Mode} (cx : Context) → Runs mode (wait_for_hook cx)
unfolding wait_for_hook
Runs-wait_for_hook cx = Runs-modify _ (backgrounds-Moves cx cx.meanwhile)

Runs-catch_up :
    {mode : Mode} (cx : Context) (last_seq server_seq : ℤ)
    → Runs mode (catch_up cx last_seq server_seq)
unfolding catch_up
Runs-catch_up cx last_seq server_seq = Runs-bind _ _ (Runs-wait_for_hook cx) λ _.
    Runs-bind _ _ (Runs-lift _) λ rows.
      Runs-bind _ _ (record { at = replay_all-Moves rows }) λ _. Runs-send_frame replay_done _ refl

Runs-resume :
    {mode : Mode} (cx : Context) (last_seq server_seq : ℤ)
    → Runs mode (resume cx last_seq server_seq)
unfolding resume
Runs-resume cx last_seq server_seq = Runs-bind _ _ (Runs-send_frame welcome _ refl) λ _.
    Runs-bind _ _
      (Runs-modify _ (λ s.
        Moves-same s _ (alike _ _ refl (λ c. c) refl refl (calm refl refl refl))
          (max_ℤ_left s.max_seq_sent last_seq) refl refl refl))
      λ _. Runs-if _ _ _ (Runs-send_frame resync _ refl) (Runs-catch_up cx last_seq server_seq)

Runs-hello_from : {mode : Mode} (cx : Context) (r : Result ℤ) → Runs mode (hello_from cx r)
Runs-hello_from cx (ok last_seq) = Runs-bind _ _ (Runs-lift cx.server_seq) (Runs-resume cx last_seq)
Runs-hello_from cx (raise type_error) = Runs-send_error _ _
Runs-hello_from cx (raise value_error) = Runs-send_error _ _
Runs-hello_from cx (raise e) = Runs-lift _

pub Runs-on_hello_of :
    {mode : Mode} (cx : Context) (k : Kind) (f : Frame) → Runs mode (on_hello_of cx k f)
unfolding on_hello_of
Runs-on_hello_of cx base f = Runs-send_frame welcome _ refl
Runs-on_hello_of cx ephemeral f = Runs-send_frame welcome _ refl
Runs-on_hello_of cx resumable f = Runs-hello_from cx (last_seq_of cx f)

after_asking-Moves :
    {mode : Mode} (cx : Context) (r : Result Bool) (s : Socket)
    → Moves mode s (after_asking cx r s).1
after_asking-Moves cx (ok true) s =
    still-Moves s _ refl (λ c. c) (λ _ w. w) (λ _ _. le_refl _) refl refl refl refl
      (λ _. calm refl refl refl)
after_asking-Moves cx (ok false) s =
    still-Moves s _ refl (λ c. c) (λ _ w. w) (λ _ _. le_refl _) refl refl refl refl
      (λ _. calm refl refl refl)
after_asking-Moves cx (raise e) s = here

pub Runs-authorize_cached :
    {mode : Mode} (cx : Context) (force : Bool) → Runs mode (authorize_cached cx force)
unfolding authorize_cached
Runs-authorize_cached cx force = record {
  at = λ s.
      Moves-if s (not force && ltb cx.monotonic s.authorized_until) _ _ (λ known. here)
        (λ unknown. after_asking-Moves cx (authorize cx s.stream_key) s);
}

Runs-greet :
    {mode : Mode} (cx : Context) (f : Frame) (allowed : Bool) → Runs mode (greet cx f allowed)
unfolding on_hello has_code
Runs-greet cx f true = Runs-on_hello_of cx cx.kind f
Runs-greet cx f false =
    Runs-bind _ _ (Runs-send_error _ _) λ _. Runs-drain_then_close cx.draining _ refl

Runs-on_frame : {mode : Mode} (cx : Context) (f : Frame) → Runs mode (on_frame cx f)
unfolding on_frame on_ping on_pong
Runs-on_frame cx f =
    Runs-if _ _ _ (Runs-bind _ _ (Runs-authorize_cached cx false) (Runs-greet cx f)) (
      Runs-if _ _ _ (Runs-send_frame pong end refl) (
        Runs-if _ _ _
          (Runs-modify _ (λ s.
            still-Moves s _ refl (λ c. c) (λ _ w. w) (λ _ _. le_refl _) refl refl refl refl
              (λ _. calm refl refl refl)))
          (Runs-send_error _ _)))

Runs-on_malformed :
    {mode : Mode} (cx : Context) (message : String) → Runs mode (on_malformed cx message)
unfolding on_malformed has_code
Runs-on_malformed cx message =
    Runs-bind _ _
      (Runs-modify _ (λ s.
        still-Moves s _ refl (λ c. c) (λ _ w. w) (λ _ _. le_refl _) refl refl refl refl
          (λ _. calm refl refl refl)))
      λ _. Runs-bind _ _ (Runs-send_error _ _) λ _. Runs-bind _ _ (Runs-gets _) λ strikes.
        Runs-if (leb max_strikes strikes) (drain_then_close cx.draining close_protocol_error)
          (pure tt) (Runs-drain_then_close cx.draining close_protocol_error refl)
          (Runs-lift (ok tt))

Runs-receive_parsed :
    {mode : Mode} (cx : Context) (r : Result Frame) → Runs mode (receive_parsed cx r)
Runs-receive_parsed cx (ok f) = Runs-on_frame cx f
Runs-receive_parsed cx (raise (invalid_envelope message)) = Runs-on_malformed cx message
Runs-receive_parsed cx (raise e) = Runs-lift _

pub Runs-receive_json :
    {mode : Mode} (cx : Context) (content : Value) → Runs mode (receive_json cx content)
unfolding receive_json
Runs-receive_json cx content = Runs-receive_parsed cx (parse_frame cx.py content)

-- A forwarded signal keeps its type, so it has no number unless its type is a journal type.
journal_seq-set_default :
    (v : Value) (d : Fields)
    → is_journal_type (get_or_null "type" d) ≡ false
    → journal_seq (set_default "stream" v d) ≡ none
unfolding journal_seq set_default get_or_null
journal_seq-set_default v d h = ground (arith, get-put "stream" "type" v d)

-- A message that is no signal in the disguise of a journal frame.
abbrev pub IsHonest : Message → Type 0
IsHonest (realtime_signal stream frame) = is_journal_type (get_or_null "type" frame) ≡ false
IsHonest _ = Unit

-- A signal that the schema of the wire admits, and that names its stream.
abbrev pub IsWhole : Message → Type 0
IsWhole (realtime_signal stream frame) =
    FitsSchema frame × (key : String) × (get "stream" frame ≡ some (str key))
IsWhole _ = Unit

set_default-FitsSchema :
    (v : Value) (frame : Fields)
    → FitsSchema frame × (key : String) × (get "stream" frame ≡ some (str key))
    → FitsSchema (set_default "stream" v frame)
unfolding set_default
set_default-FitsSchema v frame (whole, key, named) = rw (set_default, named) whole

Runs-on_signal :
    {mode : Mode} (stream : String) (frame : Fields)
    → IsHonest (realtime_signal stream frame)
    → (mode.strict ≡ true → IsWhole (realtime_signal stream frame))
    → Runs mode (on_signal frame)
unfolding on_signal
Runs-on_signal stream frame h g = record {
  at = λ s.
      Moves-if s (is_empty frame) _ _ (λ nothing. here)
        (λ something.
          (Runs-enqueue (set_default "stream" (key_value s.stream_key) frame)
              (journal_seq-set_default (key_value s.stream_key) frame h)
              (λ on. set_default-FitsSchema (key_value s.stream_key) frame (g on))).at
            s);
}

Runs-on_revoke :
    {mode : Mode} (cx : Context) (target : Option String) (reason : String)
    → Runs mode (on_revoke cx target reason)
unfolding on_revoke has_code
Runs-on_revoke cx target reason = Runs-if (spares cx target) (pure tt) _ (Runs-lift (ok tt)) (
    Runs-bind (send_frame kick (field "reason" (str (reason_or_default reason)) end) none)
      (λ _. drain_then_close cx.draining close_revoked) (Runs-send_frame kick _ refl)
      λ _. Runs-drain_then_close cx.draining close_revoked refl)

pub Runs-on_message :
    {mode : Mode} (cx : Context) (m : Message)
    → IsHonest m
    → (mode.strict ≡ true → IsWhole m)
    → Runs mode (on_message cx m)
unfolding on_message on_journal
Runs-on_message cx (realtime_signal stream frame) h g = Runs-on_signal stream frame h g
Runs-on_message cx (realtime_frame stream seq payload) h g =
    Runs-send_frame-some live payload seq refl
Runs-on_message cx (realtime_revoke stream target reason) h g = Runs-on_revoke cx target reason
