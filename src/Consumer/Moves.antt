-- ===== src/Consumer/Moves.antt =====
-- A socket as a bounded, numbered queue: what its code may do to the frames that it holds. Every
-- handler of consumers.py is a sequence of such moves (`Moves/Handlers`), so what holds along the
-- moves holds of every socket.
pub mod Actions
pub mod Outbound
pub mod Writer
pub mod Tasks
pub mod Handlers
pub mod Run
pub mod Order
pub mod Closing
pub mod Channel
pub mod Unused
pub mod Prefix
pub mod Pulse
pub mod Conforming
pub mod Counted
pub mod Attendance
pub mod Closes
use stapel_realtime.Prelude.{
  ℕ, suc, ◌≤◌, ◌<◌, ◌∙◌, String, ◌≡◌, refl, ◌⊎◌, Bool, true, false, Option, none, some, List, [],
  ◌∷◌, ◌++◌, length, ◌||◌, str_eq, if◌then◌else◌, arith,
}
use stapel_realtime.Prelude.Int.{ℤ, pos, ◌≤ℤ◌, ◌<ℤ◌}
use stapel_realtime.Python.{Value, int, str, Fields, get_or_null, ok, raise, Result}
use stapel_realtime.Envelope.{live, replay}
use stapel_realtime.CloseCodes.{is_canonical}
use stapel_realtime.Envelope.Schema.{FitsSchema}
use stapel_realtime.Consumer.State.{
  Socket, Beat, stopped, sleeping, writing, waiting, Effect, group_add, group_discard, accept,
  close, send, presence_connect, presence_heartbeat, presence_disconnect, emit, Action, Step,
  continue, pure, lift, gets, modify, ◌>>=◌,
}

-- The frames that reached the wire.
unfoldable pub sent_frames : List Effect → List Fields
sent_frames [] = []
sent_frames (send envelope ∷ es) = envelope ∷ sent_frames es
sent_frames (_ ∷ es) = sent_frames es

abbrev pub number_of : Value → Option ℤ
number_of (int n) = some n
number_of _ = none

abbrev pub is_journal_type : Value → Bool
is_journal_type (str t) = str_eq t live || str_eq t replay
is_journal_type _ = false

-- The `seq` of a journal frame: one whose type is `live` or `replay`.
unfoldable pub journal_seq : Fields → Option ℤ
unfolding get_or_null
journal_seq d =
    if is_journal_type (get_or_null "type" d) then number_of (get_or_null "seq" d) else none

-- How the cursor goes on past an envelope: it stays, or it is the envelope's new, greater number.
pub data Numbered (before : ℤ) (envelope : Fields) (after : ℤ) : Type 0 where
  plain : journal_seq envelope ≡ none → after ≡ before → Numbered before envelope after
  numbered : journal_seq envelope ≡ some after → before <ℤ after → Numbered before envelope after

-- The awaits that a heartbeat has yet to pass before it looks at the closing flag and ends.
abbrev pub awaits : Beat → ℕ
awaits stopped = 0
awaits sleeping = 1
awaits waiting = 2
awaits writing = 3

-- What is asked of the moves: `late`, once the socket has connected; `strict`, of what they queue;
-- and `staying`, until it disconnects.
pub record Mode : Type 0 where
  pub late : Bool
  pub strict : Bool
  pub staying : Bool

abbrev pub mode_of : Bool → Bool → Mode
mode_of late strict = record { late = late; strict = strict; staying = false }

abbrev pub settled : Mode
settled = mode_of true false

-- What a socket that stays does to its surroundings at once: nothing but a send, a close with a code
-- of the canon that closes it for good, and a renewal of the session that it has.
pub data News (s t : Socket) : Type 0 where
  silent : t.trace ≡ s.trace → News s t
  transmitted : (envelope : Fields) → t.trace ≡ s.trace ++ send envelope ∷ [] → News s t
  ended :
      (code : ℕ)
      → is_canonical code ≡ true
      → t.closing ≡ true
      → t.trace ≡ s.trace ++ close code ∷ []
      → News s t
  renewed :
      (user : Value) (session : String) (family : Option String)
      → s.presence_session ≡ some session
      → t.trace ≡ s.trace ++ presence_heartbeat user session family ∷ []
      → News s t

pub record Stays (s t : Socket) : Type 0 where
  pub session : t.presence_session ≡ s.presence_session
  pub group : t.group ≡ s.group
  pub news : News s t

pub stays :
    {s t : Socket}
    → t.presence_session ≡ s.presence_session
    → t.group ≡ s.group
    → News s t
    → Stays s t
stays p g n = record { session = p; group = g; news = n }

pub calm :
    {s t : Socket}
    → t.presence_session ≡ s.presence_session
    → t.group ≡ s.group
    → t.trace ≡ s.trace
    → Stays s t
calm p g e = stays p g (silent e)

-- What no move on the queue changes. In its `late` life, a writer that is over does not begin again,
-- and the heartbeat of a closing socket only comes nearer its end.
pub record SameFrame (mode : Mode) (s t : Socket) : Type 0 where
  pub capacity : t.capacity ≡ s.capacity
  pub closing : s.closing ≡ true → t.closing ≡ true
  pub writer : mode.late ≡ true → s.writer ≡ false → t.writer ≡ false
  pub pulse : mode.late ≡ true → s.closing ≡ true → awaits t.heartbeat ≤ awaits s.heartbeat
  pub stay : mode.staying ≡ true → Stays s t

pub le_refl : (n : ℕ) → n ≤ n
le_refl n = omega arith

pub alike :
    {mode : Mode} (s t : Socket)
    → t.capacity ≡ s.capacity
    → (s.closing ≡ true → t.closing ≡ true)
    → t.writer ≡ s.writer
    → t.heartbeat ≡ s.heartbeat
    → Stays s t
    → SameFrame mode s t
alike s t c k w h st = record {
  capacity = c;
  closing = k;
  writer = λ _ over. w ∙ over;
  pulse = λ _ _. rw h (le_refl (awaits s.heartbeat));
  stay = λ _. st;
}

-- A `strict` move only queues what the schema of the wire admits, from a cursor that is no negative
-- number on.
pub data Move (mode : Mode) (s t : Socket) : Type 0 where
  -- Nothing happens to the frames; the cursor may rise.
  quiet :
      SameFrame mode s t
      → s.max_seq_sent ≤ℤ t.max_seq_sent
      → t.outbox ≡ s.outbox
      → t.in_flight ≡ s.in_flight
      → sent_frames t.trace ≡ sent_frames s.trace
      → Move mode s t
  queued :
      (envelope : Fields)
      → SameFrame mode s t
      → s.closing ≡ false
      → length s.outbox < s.capacity
      → Numbered s.max_seq_sent envelope t.max_seq_sent
      → (mode.strict ≡ true → pos 0 ≤ℤ s.max_seq_sent → FitsSchema envelope)
      → t.outbox ≡ s.outbox ++ envelope ∷ []
      → t.in_flight ≡ s.in_flight
      → sent_frames t.trace ≡ sent_frames s.trace
      → Move mode s t
  taken :
      (envelope : Fields)
      → SameFrame mode s t
      → t.max_seq_sent ≡ s.max_seq_sent
      → s.in_flight ≡ none
      → s.outbox ≡ envelope ∷ t.outbox
      → t.in_flight ≡ some envelope
      → sent_frames t.trace ≡ sent_frames s.trace
      → Move mode s t
  written :
      (envelope : Fields)
      → SameFrame mode s t
      → t.max_seq_sent ≡ s.max_seq_sent
      → s.in_flight ≡ some envelope
      → t.outbox ≡ s.outbox
      → t.in_flight ≡ none
      → sent_frames t.trace ≡ sent_frames s.trace ++ envelope ∷ []
      → s.writer ≡ true
      → Move mode s t
  lost :
      (envelope : Fields)
      → SameFrame mode s t
      → t.max_seq_sent ≡ s.max_seq_sent
      → s.in_flight ≡ some envelope
      → t.outbox ≡ s.outbox
      → t.in_flight ≡ none
      → sent_frames t.trace ≡ sent_frames s.trace
      → t.writer ≡ false
      → Move mode s t

pub data Moves (mode : Mode) (s : Socket) : Socket → Type 0 where
  here : Moves mode s s
  next : {t u : Socket} → Moves mode s t → Move mode t u → Moves mode s u

pub Moves-trans : {mode : Mode} {s t u : Socket} → Moves mode s t → Moves mode t u → Moves mode s u
Moves-trans p here = p
Moves-trans p (next q m) = next (Moves-trans p q) m

pub Moves-one : {mode : Mode} {s t : Socket} → Move mode s t → Moves mode s t
Moves-one m = next here m

pub Move-frame : {mode : Mode} {s t : Socket} → Move mode s t → SameFrame mode s t
Move-frame (quiet f m o i e) = f
Move-frame (queued d f opened fits n g o i e) = f
Move-frame (taken d f m i o i' e) = f
Move-frame (written d f m i o i' e w) = f
Move-frame (lost d f m i o i' e w) = f

-- The closing flag stays up.
pub Moves-flag : {mode : Mode} {s t : Socket} → Moves mode s t → s.closing ≡ true → t.closing ≡ true
Moves-flag here h = h
Moves-flag (next p m) h = (Move-frame m).closing (Moves-flag p h)

-- The capacity is the setting's, all through.
pub Moves-capacity : {mode : Mode} {s t : Socket} → Moves mode s t → t.capacity ≡ s.capacity
Moves-capacity here = refl
Moves-capacity (next p m) = (Move-frame m).capacity ∙ Moves-capacity p

sent_frames-append :
    (es fs : List Effect) → sent_frames (es ++ fs) ≡ sent_frames es ++ sent_frames fs
unfolding sent_frames
sent_frames-append [] fs = refl
sent_frames-append (send envelope ∷ es) fs = ground (arith, sent_frames-append es fs)
sent_frames-append (_ ∷ es) fs = sent_frames-append es fs

pub sent_frames-send :
    (es : List Effect) (envelope : Fields)
    → sent_frames (es ++ send envelope ∷ []) ≡ sent_frames es ++ envelope ∷ []
unfolding sent_frames
sent_frames-send es envelope = sent_frames-append es (send envelope ∷ [])
