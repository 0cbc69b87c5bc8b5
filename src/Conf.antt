-- ===== src/Conf.antt =====
-- The settings that the modelled parts read (conf.py), at the types of their defaults. Times are in
-- seconds; how `AppSettings` resolves a key is the core package's.
use stapel_realtime.Prelude.{String, none, some, List, [], ◌∷◌}
use stapel_realtime.Prelude.Int.{ℤ, pos}
use stapel_realtime.Python.{Value, null, Fields, get, Texts}
use stapel_realtime.Python.Convert.{text_of}

pub record Settings : Type 0 where
  pub heartbeat_s : ℤ
  pub heartbeat_timeout_s : ℤ
  pub max_replay : ℤ
  pub send_queue_size : ℤ
  pub authorize_cache_s : ℤ
  pub presence_ttl_s : ℤ
  pub allowed_origins : List String
  pub layer_socket_timeout_min : Value

abbrev pub defaults : Settings
defaults = record {
  heartbeat_s = pos 25;
  heartbeat_timeout_s = pos 10;
  max_replay = pos 500;
  send_queue_size = pos 100;
  authorize_cache_s = pos 30;
  presence_ttl_s = pos 60;
  allowed_origins = [];
  layer_socket_timeout_min = null;
}

-- `URL_PREFIX_DEFAULT`
abbrev pub url_prefix_default : String
url_prefix_default = "ws"

-- `NON_APPSETTINGS_AXES`
abbrev non_appsettings_axes : List String
non_appsettings_axes = "URL_PREFIX" ∷ []

-- `url_prefix`, of the settings that stand in `STAPEL_REALTIME`.
unfoldable pub url_prefix : Texts → Fields → String
unfolding get text_of
url_prefix py overrides = elim (get "URL_PREFIX" overrides) [
  | none ↦ url_prefix_default
  | some v ↦ text_of py v
]
