-- ===== src/Consumer/Watched.antt =====
-- A socket and the registry together: the presence writes that a socket issues (consumers.py), done
-- to the cache of the fleet (presence.py), and what another service is told (functions.py).
pub mod Since
use stapel_realtime.Prelude.{
  ℕ, ◌+◌, ◌*◌, ◌≤◌, String, Bool, true, false, not, ◌||◌, Option, none, some, List, [], ◌∷◌, ◌≡◌,
  refl, ap, ◌∙◌, str_eq, arith,
}
use stapel_realtime.Python.{Float, units, Value, str, Fields, end, field, get, get_or_null, ok}
use stapel_realtime.Python.Convert.{text_of}
use stapel_realtime.Authorize.{is_null}
use stapel_realtime.Presence.{Cache, Snapshot, user_key}
use stapel_realtime.Presence.Registry
use stapel_realtime.Presence.Registry.{is_skipped, is_off, touch, record_disconnect, ttl, answered}
use stapel_realtime.Functions
use stapel_realtime.Functions.{family_asked}
use stapel_realtime.Consumer.State.{
  Socket, Context, Effect, group_add, accept, presence_connect, presence_heartbeat,
  presence_disconnect, fresh, ◌>>=◌,
}
use stapel_realtime.Consumer.Heartbeat.{user_id, presence_family}
use stapel_realtime.Consumer.Lifecycle.{authorize_cached, join, connect}
use stapel_realtime.Consumer.Lifecycle.Connect.{IsAdmitted}

module _ (cx : Context) (iso : Float → Option String) (cache : Cache) (now : ℕ) where
  -- `_presence_write` of one effect; what the write answers is not looked at.
  unfoldable pub presence_write : Effect → cache.State → cache.State
  unfolding touch record_disconnect
  presence_write (presence_connect user session family) state =
      (touch cx.py iso cx.settings cache now user session family state).1
  presence_write (presence_heartbeat user session family) state =
      (touch cx.py iso cx.settings cache now user session family state).1
  presence_write (presence_disconnect user session) state =
      (record_disconnect cx.py iso cx.settings cache now user session state).1
  presence_write _ state = state

  unfoldable pub presence_writes : List Effect → cache.State → cache.State
  unfolding presence_write
  presence_writes [] state = state
  presence_writes (e ∷ es) state = presence_writes es (presence_write e state)

pub connect_trace :
    (cx : Context) (s : Socket) (a : IsAdmitted cx) (family : Option String)
    → presence_family cx (some a.key) ≡ ok family
    → (connect cx s).1.trace
      ≡ group_add a.group ∷ accept ∷ presence_connect (user_id cx) cx.channel_name family ∷ []
unfolding connect authorize_cached fresh join ◌>>=◌
connect_trace cx s a family f = rw (a.known, a.resolved, a.authorized, a.named, f) refl

-- The question of another service, by the text of the user's id.
abbrev pub question : Context → Fields
question cx = field "user_id" (str (text_of cx.py (user_id cx))) end

module _ (cx : Context) (iso : Float → Option String) (cache : Cache) (later : ℕ)
    (after : cache.State) where
  -- The id and its text have the same document.
  pub asked_by_text :
      is_null (user_id cx) ≡ false
      → Functions.is_live cx.py iso cx.settings cache later (question cx) after
        ≡ Registry.is_live cx.py iso cx.settings cache later (user_id cx) none after
  unfolding Functions.is_live family_asked get get_or_null Registry.is_live user_key text_of
  asked_by_text h = rw h refl
