-- ===== src/Asgi/Assembly.antt =====
-- The assembly of a host (asgi.py): the websocket patterns of the installed apps, and the router that
-- they end in. How Python finds and imports a module is a parameter.
use Prim.Native.String.{◌++◌ as append_text}
use stapel_realtime.Prelude.{String, Bool, Option, none, some, List, [], ◌∷◌, ◌++◌, if◌then◌else◌}
use stapel_realtime.Python.{value_error, Result, ok, raise, ◌>>=◌}

-- What `find_spec` says of a module: it is there or not, or the search raises ImportError, or
-- something else; and what importing it gives as its `websocket_urlpatterns`, empty for none.
pub data Spec : Type 0 where
  there missing import_error : Spec

pub record Modules : Type 1 where
  pub Pattern : Type 0
  pub find_spec : String → Result Spec
  pub urlpatterns : String → Result (List Pattern)

module _ (m : Modules) where
  abbrev imported : String → Result Spec → Result (List m.Pattern)
  imported name (ok Spec.there) = m.urlpatterns name
  imported name (ok missing) = ok []
  imported name (ok import_error) = ok []
  imported name (raise value_error) = ok []
  imported name (raise e) = raise e

  -- The patterns of one app.
  unfoldable pub patterns_of : String → Result (List m.Pattern)
  patterns_of app = let name = append_text app ".routing" in imported name (m.find_spec name)

  unfoldable pub collect_websocket_urlpatterns : List String → Result (List m.Pattern)
  unfolding patterns_of
  collect_websocket_urlpatterns [] = ok []
  collect_websocket_urlpatterns (app ∷ apps) = do
    found ← patterns_of app
    rest ← collect_websocket_urlpatterns apps
    ok (found ++ rest)

  -- `URLRouter`, `JWTAuthMiddlewareStack` and `OriginGuard`, each around what it calls.
  pub data Application : Type 0 where
    url_router : List m.Pattern → Application
    jwt_stack : Application → Application
    origin_guard : Option (List String) → Application → Application

  -- `ProtocolTypeRouter`
  pub record Router (Http : Type 0) : Type 0 where
    pub websocket : Application
    pub http : Option Http

  abbrev given_or_collected : Option (List m.Pattern) → List String → Result (List m.Pattern)
  given_or_collected (some patterns) apps = ok patterns
  given_or_collected none apps = collect_websocket_urlpatterns apps

  abbrev around : Bool → Application → Application
  around authenticate inner = if authenticate then jwt_stack inner else inner

  unfoldable pub build_websocket_application :
      {Http : Type 0}
      → Option (List m.Pattern)
      → Option Http
      → Option (List String)
      → Bool
      → List String
      → Result (Router Http)
  unfolding collect_websocket_urlpatterns
  build_websocket_application patterns http_application allowed_origins authenticate apps = do
    found ← given_or_collected patterns apps
    ok (record {
      websocket = origin_guard allowed_origins (around authenticate (url_router found));
      http = http_application;
    })
