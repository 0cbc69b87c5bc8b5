-- ===== src/Tests/Checks.antt =====
-- The system checks at concrete settings.
use stapel_realtime.Prelude.{
  String, ◌+◌, ◌*◌, Option, none, some, List, [], ◌∷◌, ◌≡◌, ◌↔◌, refl, true, false, arith,
}
use stapel_realtime.Prelude.Int.{pos, pos_part, ◌+ℤ◌}
use stapel_realtime.Python.{
  Float, finite, units, null, int, str, arr, cons, nil, obj, Fields, end, field, get, get_or_null,
  ok,
}
use stapel_realtime.Python.Convert.{truthy, or_else, float_of_value}
use stapel_realtime.Python.Text.{has_part}
use stapel_realtime.Python.Floats.{add_seconds}
use stapel_realtime.Envelope.{contains}
use stapel_realtime.Asgi.{Origins, normalize_origin, passed, guard}
use stapel_realtime.Conf.{Settings, defaults}
use stapel_realtime.Presence.{Snapshot, put_session, entry_of, document, snapshot}
use stapel_realtime.Checks.{Deployment, dict_of}
use stapel_realtime.Checks.Liveness.{check_presence_ttl}
use stapel_realtime.Checks.Liveness.Lapse.{beat_period, lease_lapses}
use stapel_realtime.Checks.Origins.{malformed, check_allowed_origins}
use stapel_realtime.Checks.Origins.Declared.{declared_pass}
use stapel_realtime.Checks.Layer.{
  default_layer, is_redis, expiry_of, floor_of, sources_of, dicts_among, check_layer_socket_timeout,
}
use stapel_realtime.Checks.Layer.Timeouts.{IsPatientLayer, timeouts_silent}
use stapel_realtime.Tests.Fixtures.{texts}

-- A beat each 25 seconds with 10 for its pong, and a lease of 30.
abbrev short_lease : Settings
short_lease = record defaults { presence_ttl_s = pos 30 }

abbrev no_iso : Float → Option String
no_iso _ = none

lease_lapses_example :
    (check_presence_ttl short_lease ≡ [])
    × ((snap : Snapshot) × (snapshot texts no_iso
            (document (put_session "specific.1" (entry_of 5 (some "chat")) []) 5)
            none
            (5 + pos_part (beat_period short_lease) * units)
            30
          ≡ ok snap)
        × (snap.live ≡ false))
unfolding beat_period ◌+ℤ◌
lease_lapses_example =
    lease_lapses short_lease texts no_iso 5 (some "chat") "specific.1" (omega arith) (omega arith)
      (omega arith)

-- Every text is an https host.
abbrev https_hosts : Origins
https_hosts = record {
  split = λ s. some (record { scheme = "https"; hostname = s; port = some (some 443) });
  port_text = λ n. "443";
  registry = [];
}

abbrev studio : List String
studio = "studio.example.com" ∷ []

studio_silent : check_allowed_origins https_hosts studio ≡ []
unfolding check_allowed_origins malformed normalize_origin
studio_silent = refl

studio_named : contains "studio.example.com" studio ≡ true
unfolding contains
studio_named = refl

declared_pass_example :
    guard https_hosts none studio "websocket" (("origin", "studio.example.com") ∷ []) ≡ passed
declared_pass_example =
    declared_pass https_hosts studio "studio.example.com" studio_silent studio_named

-- A redis layer with one host, which states no timeout to be blocking.
abbrev host : Fields
host = field "address" (str "redis://r") (field "socket_timeout" null end)

abbrev config : Fields
config = field "hosts" (arr (cons (obj host) nil)) end

abbrev layer : Fields
layer =
    field "BACKEND" (str "channels_redis.core.RedisChannelLayer") (field "CONFIG" (obj config) end)

abbrev deployment : Deployment
deployment = record {
  settings = field "CHANNEL_LAYERS" (obj (field "default" (obj layer) end)) end;
  environ = λ _. none;
  redis_timeout = some (int (pos 5));
  routes = [];
}

abbrev sixty : Float
sixty = finite (pos (60 * units))

abbrev seventy : Float
seventy = finite (pos (70 * units))

abbrev sources : List Fields
sources = config ∷ end ∷ host ∷ []

its_layer : default_layer texts deployment ≡ ok layer
unfolding default_layer get_or_null get truthy
its_layer = refl

its_backend : is_redis texts deployment (or_else (get_or_null "BACKEND" layer) (str "")) ≡ ok true
unfolding get_or_null get or_else truthy has_part
its_backend = refl

its_config : dict_of (get_or_null "CONFIG" layer) ≡ ok config
unfolding get_or_null get truthy
its_config = refl

its_expiry : float_of_value texts (expiry_of texts deployment config) ≡ ok sixty
unfolding get float_of_value
its_expiry = refl

its_floor : floor_of texts deployment null sixty ≡ ok seventy
unfolding add_seconds ◌+ℤ◌
its_floor = refl

its_sources : sources_of texts deployment config ≡ ok sources
unfolding get_or_null get truthy dicts_among
its_sources = refl

timeouts_silent_example :
    (check_layer_socket_timeout texts deployment defaults ≡ ok [])
    ↔ IsPatientLayer texts deployment seventy sources
timeouts_silent_example =
    timeouts_silent texts deployment defaults layer config sources sixty seventy its_layer
      its_backend its_config its_expiry its_floor its_sources
