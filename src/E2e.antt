-- ===== src/E2e.antt =====
-- The consumer of the end-to-end host (e2e/consumers.py): an ephemeral stream of a workspace that
-- whoever is signed in may watch.
use stapel_realtime.Prelude.{String, true, none, some, ◌≡◌, refl, ap}
use stapel_realtime.Python.{Value, get, ok}
use stapel_realtime.Python.Convert.{text_of}
use stapel_realtime.Streams.{group_name}
use stapel_realtime.Authorize.{Authorizer, authenticated}
use stapel_realtime.Consumer.State.{Context, Socket, ephemeral}
use stapel_realtime.Consumer.Lifecycle.{authorize, get_stream_key, connect}
use stapel_realtime.Consumer.Lifecycle.Connect.{has_accept, connect_accepted_iff}

unfoldable any_signed_in_user : Authorizer
unfolding authenticated
any_signed_in_user scope stream_key = ok (authenticated scope.user)

-- `E2EConsumer`, with the hooks that it inherits.
unfoldable e2e_consumer : Context → Context
e2e_consumer cx = record cx {
  kind = ephemeral;
  module_name = some "e2e";
  scope_type = some "ws";
  topic = none;
  stream_key_kwarg = some "workspace_id";
  get_stream_key_override = none;
  authorizer = some any_signed_in_user;
}

-- Who is signed in is let in to each workspace whose key can be built and has a group.
signed_in_enters :
    (cx : Context) (s : Socket) (workspace : Value) (key group : String)
    → authenticated cx.scope.user ≡ true
    → get "workspace_id" cx.scope.url_kwargs ≡ some workspace
    → cx.core.build_stream_key "e2e" "ws" (text_of cx.py workspace) none ≡ ok key
    → group_name cx.core cx.py key ≡ ok group
    → has_accept (connect (e2e_consumer cx) s).1.trace ≡ true
unfolding e2e_consumer any_signed_in_user get_stream_key authorize
signed_in_enters cx s workspace key group known named built grouped =
    (connect_accepted_iff (e2e_consumer cx) s).1 (record {
      key = key;
      group = group;
      known = known;
      resolved = rw (named, built) refl;
      authorized = ap ok known;
      named = grouped;
    })
