-- ===== src/Checks/Routes.antt =====
-- The checks of the websocket routes (checks.py): their prefix, and the setting that it is read from.
use Prim.Native.String.{◌++◌ as append_text}
use stapel_realtime.Prelude.{
  String, Bool, not, ◌&&◌, none, some, List, [], ◌∷◌, str_eq, if◌then◌else◌,
}
use stapel_realtime.Python.{Fields, get, get_or_null, Result, ok, ◌>>=◌, Texts}
use stapel_realtime.Python.Convert.{truthy}
use stapel_realtime.Python.Text.{lstrip, strip, begins}
use stapel_realtime.Conf.{url_prefix}
use stapel_realtime.Checks.{Problem, warning, Deployment, dict_of}

-- `if route and not route.lstrip("/").startswith(f"{prefix}/")`
unfoldable pub is_offside : String → String → Bool
unfolding lstrip begins
is_offside prefix route =
    not (str_eq route "") && not (begins (lstrip b'/' route) (append_text prefix "/"))

unfoldable pub offside_routes : String → List String → List Problem
unfolding is_offside
offside_routes prefix [] = []
offside_routes prefix (route ∷ routes) =
    let rest = offside_routes prefix routes in
    if is_offside prefix route then warning "realtime.W004" ∷ rest else rest

module _ (py : Texts) (d : Deployment) where
  -- `getattr(settings, "STAPEL_REALTIME", None) or {}`
  unfoldable pub overrides : Result Fields
  unfolding get_or_null truthy
  overrides = dict_of (get_or_null "STAPEL_REALTIME" d.settings)

  -- `check_route_prefix`
  unfoldable pub check_route_prefix : Result (List Problem)
  unfolding overrides url_prefix strip offside_routes
  check_route_prefix = do
    own ← overrides
    ok (offside_routes (strip b'/' (url_prefix py own)) d.routes)

  abbrev judge_prefix : Fields → List Problem
  judge_prefix own = elim (get "URL_PREFIX" own) [
    | some _ ↦ []
    | none ↦ elim (get "URL_PREFIX" d.settings) [
      | none ↦ []
      | some _ ↦ warning "realtime.W007" ∷ []
    ]
  ]

  -- `check_bare_url_prefix`
  unfoldable pub check_bare_url_prefix : Result (List Problem)
  unfolding overrides get
  check_bare_url_prefix = do own ← overrides; ok (judge_prefix own)
