-- ===== src/Consumer/Lifecycle.antt =====
-- The life of a socket (consumers.py): its stream key, its authorization, `connect`, `disconnect`.
pub mod Connect
pub mod Trust
use stapel_realtime.Prelude.{
  ℕ, ◌+◌, ◌*◌, String, Bool, true, false, not, ◌&&◌, Option, none, some, ltb, str_eq, if◌then◌else◌,
}
use stapel_realtime.Prelude.Int.{pos_part, pos, ltb_ℤ}
use stapel_realtime.Python.{
  Value, units, Fields, get, Exn, invalid_stream_key, key_error, value_error, invalid_envelope,
  not_implemented, Result, ok, raise,
}
use stapel_realtime.Python.Convert.{text_of}
use stapel_realtime.CloseCodes.{close_unauthenticated, close_stream_unknown, close_forbidden}
use stapel_realtime.Streams.{group_name}
use stapel_realtime.Authorize.{Authorizer, deny, authenticated}
use stapel_realtime.Consumer.State.{
  Socket, Context, group_add, group_discard, accept, close, presence_connect, presence_disconnect,
  fresh, emit, Step, Action, pure, throw, lift, modify, ◌>>=◌, ◌>>◌, stopped, sleeping,
}
use stapel_realtime.Consumer.Heartbeat.{counted, presence_family, user_id}

-- An attribute that is None or empty is not set.
abbrev pub is_set : Option String → Bool
is_set none = false
is_set (some s) = not (str_eq s "")

abbrev pub or_empty : Option String → String
or_empty none = ""
or_empty (some s) = s

-- `kwargs[self.stream_key_kwarg]`
abbrev pub url_kwarg : Option Value → Result Value
url_kwarg none = raise key_error
url_kwarg (some v) = ok v

abbrev pub key_for : Context → Result Value → Result String
key_for cx (ok scope_id) =
    cx.core.build_stream_key (or_empty cx.module_name) (or_empty cx.scope_type)
      (text_of cx.py scope_id) cx.topic
key_for cx (raise e) = raise e

-- `get_stream_key`: the declarative default, or the class's own.
unfoldable pub get_stream_key : Context → Result String
unfolding get text_of
get_stream_key cx = elim cx.get_stream_key_override [
  | some own ↦ own
  | none ↦
      if is_set cx.module_name && is_set cx.scope_type && is_set cx.stream_key_kwarg
      then key_for cx (url_kwarg (get (or_empty cx.stream_key_kwarg) cx.scope.url_kwargs))
      else raise not_implemented
]

-- `authorize`: with no authorizer, `deny`.
unfoldable pub authorize : Context → Option String → Result Bool
unfolding deny
authorize cx stream_key = elim cx.authorizer [
  | none ↦ deny cx.scope stream_key
  | some authorizer ↦ authorizer cx.scope stream_key
]

-- What `_authorize_cached` does with a verdict: `ttl` seconds of trust, or none.
abbrev pub remember : Context → Bool → Socket → Socket
remember cx true s = record s {
  authorized_until = cx.monotonic + pos_part cx.settings.authorize_cache_s * units;
}
remember cx false s = record s { authorized_until = 0 }

abbrev pub after_asking : Context → Result Bool → Action Bool
after_asking cx (ok allowed) s = (ok allowed, remember cx allowed s)
after_asking cx (raise e) s = (raise e, s)

-- `_authorize_cached(force=…)`
unfoldable pub authorize_cached : Context → Bool → Action Bool
unfolding authorize
authorize_cached cx force s =
    if not force && ltb cx.monotonic s.authorized_until
    then (ok true, s)
    else after_asking cx (authorize cx s.stream_key) s

-- `except (InvalidStreamKey, KeyError, ValueError)`
abbrev pub is_unresolved : Exn → Bool
is_unresolved invalid_stream_key = true
is_unresolved key_error = true
is_unresolved value_error = true
is_unresolved (invalid_envelope _) = true
is_unresolved _ = false

abbrev pub close_with : ℕ → Step
close_with code = modify (emit (close code))

-- After authorization: the group, `accept`, presence, and the two tasks. A family that cannot be
-- computed raises before the write and before the tasks start.
unfoldable pub join : Context → String → Step
unfolding group_name presence_family user_id
join cx stream_key = do
  group ← lift (group_name cx.core cx.py stream_key)
  modify (λ s. emit (group_add group) (record s { group = some group }))
  modify (emit accept)
  modify (λ s. record s { presence_session = some cx.channel_name })
  family ← lift (presence_family cx (some stream_key))
  modify (emit (presence_connect (user_id cx) cx.channel_name family))
  modify (λ s. record s {
    writer = true;
    heartbeat = if ltb_ℤ (pos 0) cx.settings.heartbeat_s then sleeping else stopped;
  })

abbrev pub admit : Context → String → Bool → Step
admit cx stream_key true = join cx stream_key
admit cx stream_key false = close_with close_forbidden

abbrev pub connect_on : Context → Result String → Step
connect_on cx (ok stream_key) = do
  modify (λ s. record s { stream_key = some stream_key })
  allowed ← authorize_cached cx true
  admit cx stream_key allowed
connect_on cx (raise e) = if is_unresolved e then close_with close_stream_unknown else throw e

-- `connect` sets every attribute anew.
unfoldable pub connect : Context → Step
unfolding fresh authenticated get_stream_key authorize_cached join
connect cx s =
    if authenticated cx.scope.user
    then connect_on cx (get_stream_key cx) (fresh cx)
    else close_with close_unauthenticated (fresh cx)

abbrev pub uncount : Context → Option String → Socket → Socket
uncount cx none s = s
uncount cx (some session) s =
    emit (presence_disconnect (user_id cx) session) (record s { presence_session = none })

abbrev pub leave : Option String → Socket → Socket
leave none s = s
leave (some group) s = emit (group_discard group) s

-- `disconnect`
unfoldable pub disconnect : Context → Socket → Socket
unfolding user_id
disconnect cx s = leave s.group (
    uncount cx (counted s.presence_session)
      (record s { closing = true; writer = false; heartbeat = stopped }))
