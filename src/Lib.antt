-- ===== src/Lib.antt =====
-- A model of stapel-realtime, a library of websocket consumers for Django Channels, and theorems on
-- it. Paths are from the repository's root.
--
-- A socket joins the group of its stream and relays to its client what the group is sent. The
-- transport (delivery.py) sends three kinds of messages to a group: signals, which are forwarded as
-- they are, journal frames, which bear a `seq`, and revocations. A socket (consumers.py) frames what
-- it sends as envelopes (envelope.py), queues it in a bounded queue that its writer task empties,
-- pings its client, renews its presence lease, and resumes a journal from the client's last `seq`.
-- Who may connect is up to an authorizer (authorize.py); streams.py parses stream keys and names
-- groups; close_codes.py and conf.py have the constants.
--
--   Prelude (Tests, Lists, Int): Boolean tests, lists and integers over the native numbers.
--   Python (Values, Dict, Convert, Text, Floats): Python's values, exceptions, dicts and conversions,
--     as far as the program uses them. A float is a whole number of 2^-22 seconds or units, an infinity or
--     NaN. `repr`, SHA-256 and the reading of numerals from text are a parameter (`Texts`).
--   Envelope: envelope.py. `parse_frame` is the chain of its checks, one function per field.
--     Accepted, Refused and RoundTrip are its theorems; Schema reads the published schema of a frame
--     (schemas/wire/envelope.v1.json) as a predicate.
--   Streams: streams.py. The core package's builder of keys is a parameter (`Core`). Parsed, Names.
--   CloseCodes: close_codes.py.  Conf: conf.py, the settings that the modelled parts read.
--   Authorize: authorize.py; the workspaces service is a parameter (`Workspaces`). Granted.
--   Delivery: delivery.py; the channel layer is a parameter (`Channels`). Reached.
--   Presence: the documents of presence.py, a cache and the formatting of times being parameters
--     (`Cache`, `iso`). A time is a whole number of units, so the rounding of floats is left out.
--     Registry has the operations, a write in two halves, the read and the write; Lease and Batch are
--     on one of them. Roster is the abstract view of a user's sessions, and its children (Noted,
--     Agreed, Mirrored, Told, Apart, Fleet, Lasting, Overlap) relate it to the documents, over the
--     writes of a fleet in the order of their times.
--   Asgi: the Origin guard of asgi.py; `urlsplit` and the site registry are a parameter (`Origins`).
--     Guarded has its theorems; Assembly: the patterns of the installed apps and the router.
--   Checks (Layer, Routes, Liveness, Origins): the eight checks of checks.py, on a record of what they
--     read of a deployment. Layer.Timeouts, Liveness.Lapse and Origins.Declared are theorems.
--   Functions: functions.py, on payloads that its schemas admit. Agreed.
--   Testing: the test client of testing.py, over a communicator that is two lists and the code of the
--     close after them; of `open_stream`, the handshake itself is a parameter. Drained.
--   Package: the lazy exports of __init__.py over `importlib` (`Importer`). Once.  App: what apps.py
--     registers at the start, `register_transport` and `register_checks` included, as a list.
--   E2e: the consumer of the end-to-end host (e2e/consumers.py) and its authorizer.
--   Consumer.State: the attributes of a consumer as the record `Socket`, what a socket does to its
--     surroundings as the list `trace`, a class with its hooks and the moment of an event as
--     `Context`. A handler is an action: a state to a result and a state; an exception that leaves
--     it keeps what it wrote.
--   Consumer.Outbound: `send_frame`, `_enqueue`, `_writer_loop`, `_drain_then_close`.
--   Consumer.Heartbeat: `_heartbeat_loop`, cut where it sleeps or waits; `_token_expired`.
--   Consumer.Hello: `on_hello` of the three classes.
--   Consumer.Lifecycle: `connect`, `disconnect`, `get_stream_key`, `_authorize_cached`.
--   Consumer.Inbound: `receive_json`, the frame handlers, and the group's messages.
--   Consumer.Machine: the events of one socket as a list. Moves and its children reduce every
--     handler to five kinds of moves on the queue, on which the invariants are proved.
--     Moves.Channel is the abstract channel that a socket implements, Unused its start, and Prefix,
--     Pulse and Conforming are on failed sends, the heartbeat of a closing socket and the schema;
--     Counted, Attendance and Closes are on its group, its presence session and its closes.
--   Consumer.Watched: the presence writes that a socket issues, done to the registry's cache; Since
--     puts them among those of a fleet.
--   Tests: the theorems at concrete values.
--
-- Interleavings. Channels runs one handler of a socket after another, so handlers are steps. The
-- writer and the heartbeat run where a handler waits: a `Context` has the list of what they do while
-- the rows of a journal are awaited (`meanwhile`) and of whether the sends during a drain succeed
-- (`draining`). Between handlers they are events of their own. Nothing in the model needs a bound or
-- fuel: every loop is over a list. A write of the presence registry is not atomic: other sockets may
-- write between its read and its write. `touch` and `record_disconnect` have nothing in between, and so
-- have the histories of Fleet and Since; Overlap is on what comes in between.
--
-- Two clocks stand in a `Context`, in units of 2^-22 seconds: `monotonic` and `time`.
--
-- Not modelled: the wait for a presence write that hangs, logging, how the core and Django keep what
-- is registered with them, `__dir__` of the package, the reading of the schema files of functions.py,
-- and, of the end-to-end host (e2e), its views, whose `signal` is the core's, its settings and routes,
-- and the script that drives it.
pub mod Prelude
pub mod Python
pub mod Envelope
pub mod Streams
pub mod CloseCodes
pub mod Conf
pub mod Authorize
pub mod Delivery
pub mod Asgi
pub mod Presence
pub mod Checks
pub mod Functions
pub mod Testing
pub mod Package
pub mod App
pub mod E2e
pub mod Consumer
pub mod Tests
