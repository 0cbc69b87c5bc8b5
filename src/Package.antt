-- ===== src/Package.antt =====
-- The package itself (__init__.py): the public names, each taken from its module at its first use.
-- `importlib` is a parameter: it answers a module, or raises, and changes what has been imported.
pub mod Once
use stapel_realtime.Prelude.{
  String, Bool, true, false, Option, none, some, List, [], ◌∷◌, map, str_eq, eq_iff, ◌≡◌, refl, ap,
  sym, ◌∙◌, if◌then◌else◌, arith,
}
use stapel_realtime.Python.{attribute_error, Result, ok, raise}

-- `__all__`
abbrev pub all_names : List String
all_names =
    "realtime_settings" ∷ "deliver" ∷ "deliver_frame" ∷ "revoke" ∷ "BaseStreamConsumer"
    ∷ "EphemeralStreamConsumer" ∷ "ResumableStreamConsumer" ∷ "JournalRow" ∷ "WorkspaceCapability"
    ∷ "is_live" ∷ "live_batch" ∷ "build_websocket_application" ∷ "collect_websocket_urlpatterns"
    ∷ "StreamKey" ∷ "InvalidStreamKey" ∷ "build_stream_key" ∷ "parse_stream_key"
    ∷ "workspace_stream" ∷ "group_name" ∷ "WIRE_VERSION" ∷ "Frame" ∷ "InvalidEnvelope" ∷ "frame"
    ∷ "parse_frame" ∷ []

-- `_LAZY_EXPORTS`
abbrev pub lazy_exports : List (String × String)
lazy_exports =
    ("realtime_settings", ".conf")
    ∷ ("deliver", ".delivery")
    ∷ ("deliver_frame", ".delivery")
    ∷ ("revoke", ".delivery")
    ∷ ("BaseStreamConsumer", ".consumers")
    ∷ ("EphemeralStreamConsumer", ".consumers")
    ∷ ("ResumableStreamConsumer", ".consumers")
    ∷ ("JournalRow", ".consumers")
    ∷ ("WorkspaceCapability", ".authorize")
    ∷ ("is_live", ".presence")
    ∷ ("live_batch", ".presence")
    ∷ ("build_websocket_application", ".asgi")
    ∷ ("collect_websocket_urlpatterns", ".asgi")
    ∷ ("StreamKey", ".streams")
    ∷ ("InvalidStreamKey", ".streams")
    ∷ ("build_stream_key", ".streams")
    ∷ ("parse_stream_key", ".streams")
    ∷ ("workspace_stream", ".streams")
    ∷ ("group_name", ".streams")
    ∷ ("WIRE_VERSION", ".envelope")
    ∷ ("Frame", ".envelope")
    ∷ ("InvalidEnvelope", ".envelope")
    ∷ ("frame", ".envelope")
    ∷ ("parse_frame", ".envelope")
    ∷ []

-- What a dict says of a key, and the dict with a key set.
module _ {A : Type 0} where
  unfoldable pub entry : String → List (String × A) → Option A
  entry name [] = none
  entry name ((n, a) ∷ entries) = if str_eq n name then some a else entry name entries

  unfoldable pub with_entry : String → A → List (String × A) → List (String × A)
  with_entry name a [] = (name, a) ∷ []
  with_entry name a ((n, b) ∷ entries) =
      if str_eq n name then (name, a) ∷ entries else (n, b) ∷ with_entry name a entries

  entry-with_entry :
      (name : String) (a : A) (entries : List (String × A))
      → entry name (with_entry name a entries) ≡ some a
  unfolding entry with_entry
  entry-with_entry name a [] = ground (arith, eq_iff name name)
  entry-with_entry name a ((n, b) ∷ entries) =
      ground (arith, eq_iff name name, eq_iff n name, entry-with_entry name a entries)

pub record Importer : Type 1 where
  pub State : Type 0
  pub Object : Type 0
  pub import_module : String → State → Result Object × State
  pub attribute : Object → String → Result Object

module _ (py : Importer) where
  -- The names that the package has, and what has been imported.
  pub record Package : Type 0 where
    pub globals : List (String × py.Object)
    pub imported : py.State

  abbrev Found : Type 0
  Found = Result py.Object × Package

  -- `globals()[name] = value`
  abbrev remembered : String → Result py.Object → Package → Found
  remembered name (ok value) p = (ok value, record p { globals = with_entry name value p.globals })
  remembered name (raise e) p = (raise e, p)

  abbrev loaded : String → Package → Result py.Object × py.State → Found
  loaded name p (ok m, imported) =
      remembered name (py.attribute m name) (record p { imported = imported })
  loaded name p (raise e, imported) = (raise e, record p { imported = imported })

  abbrev exported : String → Package → Option String → Found
  exported name p none = (raise attribute_error, p)
  exported name p (some submodule) = loaded name p (py.import_module submodule p.imported)

  -- `__getattr__`
  unfoldable pub get_attribute : String → Package → Found
  unfolding entry with_entry
  get_attribute name p = exported name p (entry name lazy_exports)

  abbrev known_or_asked : String → Package → Option py.Object → Found
  known_or_asked name p none = get_attribute name p
  known_or_asked name p (some value) = (ok value, p)

  -- `stapel_realtime.<name>`: the name if the package has it, or what `__getattr__` answers.
  unfoldable pub access : String → Package → Found
  unfolding entry get_attribute
  access name p = known_or_asked name p (entry name p.globals)
