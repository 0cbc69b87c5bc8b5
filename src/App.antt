-- ===== src/App.antt =====
-- The app's start (apps.py): what it registers with the core and with Django, in turn. A registration
-- is an entry of a list; what the registries make of it is theirs.
use stapel_realtime.Prelude.{String, List, [], ◌∷◌, ◌++◌, map}
use stapel_realtime.Python.{Result, Texts}
use stapel_realtime.Conf.{Settings}
use stapel_realtime.Asgi.{Origins}
use stapel_realtime.Checks.{Problem, Deployment}
use stapel_realtime.Checks.Registered.{all_checks}

pub data Registration : Type 0 where
  function : String → Registration
  check : Result (List Problem) → Registration
  transport : String → Registration

-- `TRANSPORT_NAME`
abbrev pub transport_name : String
transport_name = "channels"

-- `register_transport`
abbrev pub register_transport : List Registration
register_transport = transport transport_name ∷ []

-- `register_checks`; a check stands as what it answers for the deployment.
unfoldable pub register_checks : Texts → Deployment → Origins → Settings → List Registration
unfolding all_checks
register_checks py d o settings = map check (all_checks py d o settings)

-- The import of `functions` registers the two comm functions.
abbrev pub import_functions : List Registration
import_functions = function "realtime.is_live" ∷ function "realtime.live_batch" ∷ []

-- `ready`
unfoldable pub ready : Texts → Deployment → Origins → Settings → List Registration
unfolding register_checks
ready py d o settings = import_functions ++ (register_checks py d o settings ++ register_transport)
