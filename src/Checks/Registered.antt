-- ===== src/Checks/Registered.antt =====
-- The checks that the app registers (checks.py), with what each answers.
use stapel_realtime.Prelude.{List, [], ◌∷◌}
use stapel_realtime.Python.{Result, ok, Texts}
use stapel_realtime.Conf.{Settings}
use stapel_realtime.Asgi.{Origins}
use stapel_realtime.Checks.{Problem, Deployment}
use stapel_realtime.Checks.Layer.{check_channel_layer, check_layer_socket_timeout}
use stapel_realtime.Checks.Origins.{check_allowed_origins}
use stapel_realtime.Checks.Liveness.{check_heartbeat, check_presence_ttl, check_presence_cache}
use stapel_realtime.Checks.Routes.{check_route_prefix, check_bare_url_prefix}

-- `ALL_CHECKS`
unfoldable pub all_checks : Texts → Deployment → Origins → Settings → List (Result (List Problem))
all_checks py d o settings =
    check_channel_layer py d
    ∷ check_layer_socket_timeout py d settings
    ∷ ok (check_allowed_origins o settings.allowed_origins)
    ∷ ok (check_heartbeat settings)
    ∷ check_route_prefix py d
    ∷ check_bare_url_prefix py d
    ∷ check_presence_cache py d settings
    ∷ ok (check_presence_ttl settings)
    ∷ []
