-- ===== src/Tests/Deployments.antt =====
-- The system checks run on small deployments.
use stapel_realtime.Prelude.{String, none, some, [], ◌∷◌, ◌≡◌, refl, str_eq, if◌then◌else◌}
use stapel_realtime.Prelude.Int.{pos, ◌+ℤ◌}
use stapel_realtime.Python.{int, str, obj, end, field, get, get_or_null, is_empty, ok, Texts}
use stapel_realtime.Python.Convert.{truthy, or_else, float_of_value, text_of}
use stapel_realtime.Python.Text.{has_part, lstrip, strip, begins}
use stapel_realtime.Python.Floats.{is_below, add_seconds}
use stapel_realtime.Conf.{defaults, url_prefix}
use stapel_realtime.Checks.{warning, error, Deployment}
use stapel_realtime.Checks.Layer.{
  default_layer, worker_count, check_channel_layer, dicts_among, judge_sources, states_timeout,
  redis_library_default_timeout, check_layer_socket_timeout,
}
use stapel_realtime.Checks.Routes.{
  overrides, is_offside, offside_routes, check_route_prefix, check_bare_url_prefix,
}
use stapel_realtime.Checks.Liveness.{
  presence_cache_backend, check_presence_cache, check_presence_ttl,
}
use stapel_realtime.Tests.Fixtures.{texts}

abbrev bare : Deployment
bare = record { settings = end; environ = λ _. none; redis_timeout = none; routes = [] }

no_layer : check_channel_layer texts bare ≡ ok (warning "realtime.W001" ∷ [])
unfolding check_channel_layer default_layer get_or_null get truthy is_empty
no_layer = refl

abbrev layered : String → Deployment
layered backend = record bare {
  settings =
      field "CHANNEL_LAYERS" (obj (field "default" (obj (field "BACKEND" (str backend) end)) end))
        end;
}

abbrev in_memory_layer : Deployment
in_memory_layer = layered "channels.layers.InMemoryChannelLayer"

one_worker : check_channel_layer texts in_memory_layer ≡ ok []
unfolding check_channel_layer default_layer get_or_null get truthy is_empty
one_worker = refl

abbrev two : Texts
two = record texts { int_of = λ s. if str_eq s "2" then some (pos 2) else none }

abbrev two_workers : Deployment
two_workers = record in_memory_layer {
  environ = λ name. if str_eq name "UVICORN_WORKERS" then some "2" else some "";
}

halved : check_channel_layer two two_workers ≡ ok (error "realtime.E001" ∷ [])
unfolding check_channel_layer default_layer get_or_null get truthy is_empty worker_count
halved = refl

abbrev redis_8 : Deployment
redis_8 = record (layered "channels_redis.core.RedisChannelLayer") {
  redis_timeout = some (int (pos 5));
}

cut_off : check_layer_socket_timeout texts redis_8 defaults ≡ ok (error "realtime.E002" ∷ [])
unfolding check_layer_socket_timeout default_layer get_or_null get truthy or_else has_part
    float_of_value add_seconds ◌+ℤ◌ is_below judge_sources states_timeout dicts_among
    redis_library_default_timeout
cut_off = refl

abbrev routed : Deployment
routed = record bare { routes = "ws/chat/" ∷ "/ws/video/" ∷ "" ∷ "api/ws/" ∷ "wsx/" ∷ [] }

two_offside :
    check_route_prefix texts routed ≡ ok (warning "realtime.W004" ∷ warning "realtime.W004" ∷ [])
unfolding check_route_prefix overrides url_prefix get_or_null get truthy strip lstrip begins
    offside_routes is_offside
two_offside = refl

abbrev old_setting : Deployment
old_setting = record bare { settings = field "URL_PREFIX" (str "/api/") end }

moved : check_bare_url_prefix texts old_setting ≡ ok (warning "realtime.W007" ∷ [])
unfolding check_bare_url_prefix overrides get_or_null get truthy
moved = refl

abbrev local_cache : Deployment
local_cache = record bare {
  settings =
      field "CACHES"
        (obj (
          field "default"
            (obj (field "BACKEND" (str "django.core.cache.backends.locmem.LocMemCache") end)) end))
        end;
}

not_shared : check_presence_cache texts local_cache defaults ≡ ok (warning "realtime.W005" ∷ [])
unfolding check_presence_cache presence_cache_backend get_or_null get truthy or_else text_of
    has_part
not_shared = refl

fine : check_presence_ttl defaults ≡ []
unfolding check_presence_ttl
fine = refl
