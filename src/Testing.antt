-- ===== src/Testing.antt =====
-- The test client of the packages that build on this one (`StreamClient`, testing.py). The
-- communicator of Channels is a list of the frames that the application has sent so far, the code
-- with which it closed after them if it did, and a list of what it was sent; a wait for what has not
-- come, and a failed assertion, are the exception `other`.
pub mod Drained
use stapel_realtime.Prelude.{
  ℕ, String, Bool, true, false, not, ◌||◌, ◌&&◌, Option, none, some, List, [], ◌∷◌, ◌++◌, str_eq,
  if◌then◌else◌,
}
use stapel_realtime.Prelude.Int.{ℤ}
use stapel_realtime.Python.{Value, int, obj, Fields, end, field, other, Result, ok, raise, Texts}
use stapel_realtime.Authorize.{User, Scope}
use stapel_realtime.Envelope.{Frame, frame, parse_frame, hello, welcome, ping, pong}

pub record Client : Type 0 where
  pub incoming : List Value
  pub outgoing : List Value
  pub closed_with : Option ℕ
  pub is_disconnected : Bool
  pub connected : Bool
  pub close_code : Option ℕ

-- `frame.type in _NOISE`
unfoldable pub is_noise : Frame → Bool
is_noise f = str_eq f.kind ping || str_eq f.kind pong

abbrev pub Reading : Type 0 → Type 0
Reading A = Result A × Client

-- `send`
unfoldable pub send : String → Fields → Client → Client
unfolding frame
send frame_type payload c = record c {
  outgoing = c.outgoing ++ obj (frame frame_type payload none none) ∷ [];
}

module _ (py : Texts) where
  abbrev pub take_if :
      Bool → Frame → Result Frame × List Value → List Value → Result Frame × List Value
  take_if noise f later rest = if noise then later else (ok f, rest)

  abbrev pub receive_next :
      Result Frame → Result Frame × List Value → List Value → Result Frame × List Value
  receive_next (ok f) later rest = take_if (is_noise f) f later rest
  receive_next (raise e) later rest = (raise e, rest)

  -- The loop of `receive`: the next frame that is no heartbeat.
  unfoldable pub receive_from : List Value → Result Frame × List Value
  unfolding is_noise parse_frame
  receive_from [] = (raise other, [])
  receive_from (raw ∷ rest) = receive_next (parse_frame py raw) (receive_from rest) rest

  abbrev with_incoming : {A : Type 0} → Client → Result A × List Value → Reading A
  with_incoming c (r, rest) = (r, record c { incoming = rest })

  unfoldable pub receive : Client → Reading Frame
  unfolding receive_from
  receive c = with_incoming c (receive_from c.incoming)

  abbrev raw_from : List Value → Result Frame × List Value
  raw_from [] = (raise other, [])
  raw_from (raw ∷ rest) = (parse_frame py raw, rest)

  unfoldable pub receive_raw : Client → Reading Frame
  unfolding parse_frame
  receive_raw c = with_incoming c (raw_from c.incoming)

  abbrev checked : String → Reading Frame → Reading Frame
  checked frame_type (ok f, c) = if str_eq f.kind frame_type then (ok f, c) else (raise other, c)
  checked frame_type (raise e, c) = (raise e, c)

  unfoldable pub expect : String → Client → Reading Frame
  unfolding receive
  expect frame_type c = checked frame_type (receive c)

  abbrev pub hello_payload : Option ℤ → Fields
  hello_payload none = end
  hello_payload (some last_seq) = field "last_seq" (int last_seq) end

  -- `hello`
  unfoldable pub say_hello : Option ℤ → Client → Reading Frame
  unfolding send expect
  say_hello last_seq c = expect welcome (send hello (hello_payload last_seq) c)

  abbrev pub prepend : Frame → Result (List Frame) × List Value → Result (List Frame) × List Value
  prepend f (ok fs, rest) = (ok (f ∷ fs), rest)
  prepend f (raise e, rest) = (raise e, rest)

  abbrev pub drain_next :
      Result Frame
      → Result (List Frame) × List Value
      → List Value
      → Result (List Frame) × List Value
  drain_next (ok f) later rest = if is_noise f then later else prepend f later
  drain_next (raise e) later rest = (raise e, rest)

  -- The loop of `drain`: all the frames that have come, without the heartbeats.
  unfoldable pub drain_from : List Value → Result (List Frame) × List Value
  unfolding is_noise parse_frame
  drain_from [] = (ok [], [])
  drain_from (raw ∷ rest) = drain_next (parse_frame py raw) (drain_from rest) rest

  unfoldable pub drain : Client → Reading (List Frame)
  unfolding drain_from
  drain c = with_incoming c (drain_from c.incoming)

abbrev is_nothing : List Value → Bool
is_nothing [] = true
is_nothing (raw ∷ rest) = false

-- `receive_nothing`
unfoldable pub receive_nothing : Client → Bool
receive_nothing c = is_nothing c.incoming

-- The code of a close, where it is the next thing that the application sent.
abbrev close_next : List Value → Option ℕ → Result ℕ
close_next [] (some code) = ok code
close_next [] none = raise other
close_next (raw ∷ rest) closed = raise other

-- What `receive_output` takes: a frame, or else the close.
abbrev without_next : Client → List Value → Client
without_next c [] = record c { closed_with = none }
without_next c (raw ∷ rest) = record c { incoming = rest }

-- `wait_closed`
unfoldable pub wait_closed : Client → Result ℕ × Client
wait_closed c = (close_next c.incoming c.closed_with, without_next c c.incoming)

-- `close`
unfoldable pub hang_up : Client → Client
hang_up c = record c { is_disconnected = true }

-- `claims or {}`, `url_kwargs or {}`
abbrev or_empty : Option Fields → Fields
or_empty none = end
or_empty (some d) = d

-- The scope that `open_stream` lays out.
unfoldable pub open_scope : Option User → Option Fields → Option Fields → Scope
open_scope user claims url_kwargs = record {
  user = user;
  claims = or_empty claims;
  url_kwargs = or_empty url_kwargs;
}

-- `open_stream`; `communicator.connect()` tells whether the scope was accepted, and with which code
-- it was closed if not.
abbrev opened : Bool → Bool × Option ℕ → Result Client
opened expect_accept (connected, detail) =
    if expect_accept && not connected
    then raise other
    else ok (record {
      incoming = [];
      outgoing = [];
      closed_with = none;
      is_disconnected = false;
      connected = connected;
      close_code = if connected then none else detail;
    })

unfoldable pub open_stream :
    (Scope → Bool × Option ℕ) → Option User → Option Fields → Option Fields → Bool → Result Client
unfolding open_scope
open_stream connect user claims url_kwargs expect_accept =
    opened expect_accept (connect (open_scope user claims url_kwargs))
