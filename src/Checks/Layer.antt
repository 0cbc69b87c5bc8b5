-- ===== src/Checks/Layer.antt =====
-- The checks of the channel layer (checks.py): its reach, and the timeout of its redis.
pub mod Timeouts
use stapel_realtime.Prelude.{
  ℕ, ◌+◌, String, Bool, true, false, not, ◌&&◌, ◌||◌, Option, none, some, List, [], ◌∷◌, ◌++◌,
  str_eq, if◌then◌else◌,
}
use stapel_realtime.Prelude.Int.{ℤ, pos, ltb_ℤ}
use stapel_realtime.Python.{
  Float, finite, Value, null, int, str, arr, obj, Items, nil, cons, Fields, end, get, get_or_null,
  is_empty, type_error, value_error, Exn, other, Result, ok, raise, ◌>>=◌, Texts,
}
use stapel_realtime.Python.Convert.{truthy, or_else, float_of_value}
use stapel_realtime.Python.Text.{has_part}
use stapel_realtime.Python.Floats.{is_below, add_seconds}
use stapel_realtime.Conf.{Settings}
use stapel_realtime.Checks.{Problem, warning, error, Deployment, dict_of}

-- `_WORKER_ENV_VARS`
abbrev worker_env_vars : List String
worker_env_vars = "WEB_CONCURRENCY" ∷ "UVICORN_WORKERS" ∷ "GUNICORN_WORKERS" ∷ []

abbrev in_memory : String
in_memory = "channels.layers.InMemoryChannelLayer"

module _ (py : Texts) (d : Deployment) where
  abbrev read_count : Option String → ℤ → ℤ
  read_count none rest = rest
  read_count (some raw) rest =
      if str_eq raw "" then rest else elim (py.int_of raw) [ none ↦ rest | some n ↦ n ]

  unfoldable pub count_among : List String → ℤ
  count_among [] = pos 1
  count_among (name ∷ names) = read_count (d.environ name) (count_among names)

  -- `_worker_count`
  unfoldable pub worker_count : ℤ
  unfolding count_among
  worker_count = count_among worker_env_vars

  -- `_default_layer`
  unfoldable pub default_layer : Result Fields
  unfolding get_or_null truthy
  default_layer = do
    layers ← dict_of (get_or_null "CHANNEL_LAYERS" d.settings)
    dict_of (get_or_null "default" layers)

  abbrev is_text : String → Value → Bool
  is_text t (str s) = str_eq s t
  is_text t _ = false

  abbrev pub judge_layer : Fields → List Problem
  judge_layer layer =
      if is_empty layer
      then warning "realtime.W001" ∷ []
      else if is_text in_memory (get_or_null "BACKEND" layer) && ltb_ℤ (pos 1) worker_count
      then error "realtime.E001" ∷ []
      else []

  -- `check_channel_layer`
  unfoldable pub check_channel_layer : Result (List Problem)
  unfolding default_layer is_empty get_or_null worker_count
  check_channel_layer = do layer ← default_layer; ok (judge_layer layer)

  -- `except (TypeError, ValueError)`
  abbrev known : Result Float → Result (Option Float)
  known (ok x) = ok (some x)
  known (raise type_error) = ok none
  known (raise value_error) = ok none
  known (raise e) = raise e

  -- `_redis_library_default_timeout`
  unfoldable pub redis_library_default_timeout : Result (Option Float)
  unfolding float_of_value
  redis_library_default_timeout = elim d.redis_timeout [
    | none ↦ ok none
    | some Value.null ↦ ok none
    | some v ↦ known (float_of_value py v)
  ]

  unfoldable pub has_item : String → Items → Bool
  has_item t nil = false
  has_item t (cons v items) = is_text t v || has_item t items

  -- `"channels_redis" in backend`, of a text, a list or a dict.
  abbrev pub is_redis : Value → Result Bool
  is_redis (str backend) = ok (has_part "channels_redis" backend)
  is_redis (arr items) = ok (has_item "channels_redis" items)
  is_redis (obj fields) = ok (elim (get "channels_redis" fields) [ none ↦ false | some _ ↦ true ])
  is_redis _ = raise type_error

  -- `config.get("expiry", 60)`
  abbrev pub expiry_of : Fields → Value
  expiry_of config = elim (get "expiry" config) [ none ↦ int (pos 60) | some v ↦ v ]

  abbrev pub floor_of : Value → Float → Result Float
  floor_of null expiry = ok (add_seconds expiry 10)
  floor_of floor expiry = float_of_value py floor

  -- The entries of `hosts` that are dicts.
  unfoldable pub dicts_among : Items → List Fields
  dicts_among nil = []
  dicts_among (cons (obj host) items) = host ∷ dicts_among items
  dicts_among (cons v items) = dicts_among items

  abbrev pub hosts_in : Value → List Fields
  hosts_in (arr items) = dicts_among items
  hosts_in v = []

  unfoldable pub states_timeout : List Fields → Bool
  unfolding get
  states_timeout [] = false
  states_timeout (source ∷ sources) = elim (get "socket_timeout" source) [
    | none ↦ states_timeout sources
    | some v ↦ true
  ]

  abbrev pub too_low : Float → Float → List Problem
  too_low floor x = if is_below x floor then error "realtime.E002" ∷ [] else []

  abbrev pub judge_source : Float → Value → Result (List Problem)
  judge_source floor null = ok []
  judge_source floor v = do x ← float_of_value py v; ok (too_low floor x)

  -- The loop over the sources.
  unfoldable pub judge_sources : Float → List Fields → Result (List Problem)
  unfolding get_or_null float_of_value is_below
  judge_sources floor [] = ok []
  judge_sources floor (source ∷ sources) = do
    first ← judge_source floor (get_or_null "socket_timeout" source)
    rest ← judge_sources floor sources
    ok (first ++ rest)

  abbrev pub judge_inherited : Float → Option Float → List Problem
  judge_inherited floor none = []
  judge_inherited floor (some x) = too_low floor x

  -- `if not problems and not stated_anywhere`
  abbrev pub inherit : Float → Bool → List Problem → Result (List Problem)
  inherit floor stated (p ∷ ps) = ok (p ∷ ps)
  inherit floor true [] = ok []
  inherit floor false [] = do x ← redis_library_default_timeout; ok (judge_inherited floor x)

  abbrev pub judge_all : Float → List Fields → Result (List Problem)
  judge_all floor sources = do
    problems ← judge_sources floor sources
    inherit floor (states_timeout sources) problems

  -- The places where a timeout can stand.
  abbrev pub sources_of : Fields → Result (List Fields)
  sources_of config = do
    kwargs ← dict_of (get_or_null "connection_kwargs" config)
    ok (config ∷ kwargs ∷ hosts_in (get_or_null "hosts" config))

  abbrev pub judge_config : Value → Fields → Result (List Problem)
  judge_config minimum config = do
    expiry ← float_of_value py (expiry_of config)
    floor ← floor_of minimum expiry
    sources ← sources_of config
    judge_all floor sources

  abbrev pub judge_redis : Value → Fields → Bool → Result (List Problem)
  judge_redis minimum layer false = ok []
  judge_redis minimum layer true = do
    config ← dict_of (get_or_null "CONFIG" layer)
    judge_config minimum config

  -- `check_layer_socket_timeout`
  unfoldable pub check_layer_socket_timeout : Settings → Result (List Problem)
  unfolding default_layer get get_or_null truthy or_else has_part has_item float_of_value
      add_seconds judge_sources states_timeout dicts_among redis_library_default_timeout
  check_layer_socket_timeout settings = do
    layer ← default_layer
    redis ← is_redis (or_else (get_or_null "BACKEND" layer) (str ""))
    judge_redis settings.layer_socket_timeout_min layer redis
