-- ===== src/Streams.antt =====
-- Stream keys and group names (streams.py). The builder of keys and its exception are the core
-- package's: `Core` has them as a parameter.
pub mod Parsed
pub mod Names
use Prim.Native.Char.{Char}
use Prim.Native.String.{◌++◌ as append_text}
use stapel_realtime.Prelude.{
  ℕ, String, Bool, Option, none, some, List, [], ◌∷◌, leb, str_eq, if◌then◌else◌,
}
use stapel_realtime.Python.{Value, Exn, invalid_stream_key, Result, ok, raise, Texts, ◌>>=◌}
use stapel_realtime.Python.Convert.{text_of}
use stapel_realtime.Python.Text.{size, prefix, replace, split}

-- `stapel_core.comm.signals.stream_key`: builds `<mod>:<scope_type>:<scope_id>[:<topic>]`, or raises.
pub record Core : Type 0 where
  pub build_stream_key : String → String → String → Option String → Result String

pub record StreamKey : Type 0 where
  pub module_name : String
  pub scope_type : String
  pub scope_id : String
  pub topic : Option String

abbrev pub workspace_scope : String
workspace_scope = "ws"

abbrev max_group_name : ℕ
max_group_name = 90

unfoldable pub is_workspace_scoped : StreamKey → Bool
is_workspace_scoped k = str_eq k.scope_type workspace_scope

module _ (core : Core) where
  -- The segments between the colons, which the builder then validates.
  unfoldable pub key_of_parts : List String → Result StreamKey
  key_of_parts (m ∷ t ∷ i ∷ []) = do
    built ← core.build_stream_key m t i none
    ok (record { module_name = m; scope_type = t; scope_id = i; topic = none })
  key_of_parts (m ∷ t ∷ i ∷ topic ∷ []) = do
    built ← core.build_stream_key m t i (some topic)
    ok (record { module_name = m; scope_type = t; scope_id = i; topic = some topic })
  key_of_parts _ = raise invalid_stream_key

  -- `none` is a key that is no text, such as None.
  unfoldable pub parse_stream_key : Option String → Result StreamKey
  unfolding key_of_parts split
  parse_stream_key none = raise invalid_stream_key
  parse_stream_key (some key) =
      if str_eq key "" then raise invalid_stream_key else key_of_parts (split b':' key)

  unfoldable pub key_text : StreamKey → Result String
  key_text k = core.build_stream_key k.module_name k.scope_type k.scope_id k.topic

  -- The name for the text `raw` of a key whose module segment is `m`.
  unfoldable pub name_of : Texts → String → String → String
  unfolding replace size prefix
  name_of py m raw =
      let name = replace b':' "." raw in
      if leb (size name) max_group_name
      then name
      else append_text m (append_text ".h." (prefix 40 (py.sha256 raw)))

  -- `group_name` of a text.
  unfoldable pub group_name : Texts → String → Result String
  unfolding parse_stream_key name_of
  group_name py key = do
    parsed ← parse_stream_key (some key)
    ok (name_of py parsed.module_name key)

  -- `group_name` of a parsed key.
  unfoldable pub group_name_of_key : Texts → StreamKey → Result String
  unfolding key_text name_of
  group_name_of_key py k = do raw ← key_text k; ok (name_of py k.module_name raw)

  unfoldable workspace_stream : Texts → String → Value → Option String → Result String
  unfolding text_of
  workspace_stream py m workspace_id topic =
      core.build_stream_key m workspace_scope (text_of py workspace_id) topic
