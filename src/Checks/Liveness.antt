-- ===== src/Checks/Liveness.antt =====
-- The checks of the heartbeat and of the presence registry (checks.py).
pub mod Lapse
use stapel_realtime.Prelude.{String, Bool, List, [], ◌∷◌, if◌then◌else◌}
use stapel_realtime.Prelude.Int.{pos, ltb_ℤ, leb_ℤ}
use stapel_realtime.Python.{Value, str, Fields, get_or_null, Result, ok, raise, ◌>>=◌, Texts}
use stapel_realtime.Python.Convert.{truthy, or_else, text_of}
use stapel_realtime.Python.Text.{has_part}
use stapel_realtime.Conf.{Settings}
use stapel_realtime.Checks.{Problem, warning, Deployment, dict_of}

-- `check_heartbeat`
unfoldable pub check_heartbeat : Settings → List Problem
check_heartbeat settings =
    if ltb_ℤ (pos 0) settings.heartbeat_s then [] else warning "realtime.W003" ∷ []

-- `check_presence_ttl`
unfoldable pub check_presence_ttl : Settings → List Problem
check_presence_ttl settings =
    if leb_ℤ settings.presence_ttl_s (pos 0)
    then warning "realtime.W006" ∷ []
    else if leb_ℤ settings.heartbeat_s (pos 0)
    then []
    else if leb_ℤ settings.presence_ttl_s settings.heartbeat_s
    then warning "realtime.W006" ∷ []
    else []

module _ (py : Texts) (d : Deployment) where
  -- `_presence_cache_backend`
  unfoldable pub presence_cache_backend : Result String
  unfolding get_or_null truthy or_else text_of
  presence_cache_backend = do
    caches ← dict_of (get_or_null "CACHES" d.settings)
    entry ← dict_of (get_or_null "default" caches)
    ok (text_of py (or_else (get_or_null "BACKEND" entry) (str "")))

  abbrev judge_backend : String → List Problem
  judge_backend backend =
      if has_part "locmem" backend
      then warning "realtime.W005" ∷ []
      else if has_part "dummy" backend
      then warning "realtime.W005" ∷ []
      else []

  -- `check_presence_cache`
  unfoldable pub check_presence_cache : Settings → Result (List Problem)
  unfolding presence_cache_backend has_part
  check_presence_cache settings =
      if leb_ℤ settings.presence_ttl_s (pos 0)
      then ok []
      else (do backend ← presence_cache_backend; ok (judge_backend backend))
