-- ===== src/Authorize.antt =====
-- The authorize seam (authorize.py): who is connecting, and whether they may watch a stream.
pub mod Granted
use stapel_realtime.Prelude.{String, Bool, true, false, Option, none, some, str_eq, if◌then◌else◌}
use stapel_realtime.Python.{Value, null, Fields, Exn, invalid_stream_key, Result, ok, raise, ◌>>=◌}
use stapel_realtime.Python.Convert.{or_else}
use stapel_realtime.Streams.{Core, StreamKey, workspace_scope, parse_stream_key}

-- `scope["user"]`: an attribute that the object lacks reads as its `getattr` default.
pub record User : Type 0 where
  pub is_authenticated : Bool
  pub pk : Value
  pub id : Value

-- The parts of the connection scope that the program reads; a missing mapping is the empty one.
pub record Scope : Type 0 where
  pub user : Option User
  pub claims : Fields
  pub url_kwargs : Fields

unfoldable pub authenticated : Option User → Bool
authenticated none = false
authenticated (some u) = u.is_authenticated

abbrev pub user_pk : Option User → Value
user_pk none = null
user_pk (some u) = or_else u.pk u.id

-- `None` is null.
unfoldable pub user_id_from_scope : Scope → Value
unfolding authenticated or_else
user_id_from_scope scope = if authenticated scope.user then user_pk scope.user else null

abbrev pub is_null : Value → Bool
is_null null = true
is_null _ = false

-- An authorizer: `async (scope, stream_key) -> bool`, which may raise.
abbrev pub Authorizer : Type 0
Authorizer = Scope → Option String → Result Bool

unfoldable pub deny : Authorizer
deny scope stream_key = ok false

-- `stapel_core.django.workspaces.require_capability`: whether it returned something, or raised.
pub record Workspaces : Type 0 where
  pub require_capability : String → Value → String → Result Bool

-- `except Exception`: no verdict is a denial.
unfoldable pub has_capability : Workspaces → String → Value → String → Bool
has_capability w workspace_id user_id capability =
    elim (w.require_capability workspace_id user_id capability) [ ok held ↦ held | raise _ ↦ false ]

-- `except InvalidStreamKey`
abbrev pub key_or_refused : Result StreamKey → Result (Option StreamKey)
key_or_refused (ok k) = ok (some k)
key_or_refused (raise invalid_stream_key) = ok none
key_or_refused (raise e) = raise e

module _ (core : Core) (w : Workspaces) (capability : String) where
  unfoldable pub verdict_on : Value → Option StreamKey → Bool
  unfolding has_capability
  verdict_on user_id none = false
  verdict_on user_id (some key) =
      if str_eq key.scope_type workspace_scope
      then has_capability w key.scope_id user_id capability
      else false

  -- `WorkspaceCapability(capability)(scope, stream_key)`
  unfoldable pub workspace_capability : Authorizer
  unfolding user_id_from_scope parse_stream_key verdict_on
  workspace_capability scope stream_key =
      if is_null (user_id_from_scope scope) then ok false else do
        key ← key_or_refused (parse_stream_key core stream_key)
        ok (verdict_on (user_id_from_scope scope) key)
