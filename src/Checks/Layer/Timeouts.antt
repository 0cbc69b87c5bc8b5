-- ===== src/Checks/Layer/Timeouts.antt =====
-- What the check of the redis timeout lets pass (`check_layer_socket_timeout`, checks.py).
use stapel_realtime.Prelude.{
  Bool, true, false, Option, none, some, List, [], ◌∷◌, ◌++◌, ◌≡◌, refl, ◌↔◌, inl, inr, ap, sym,
  ◌∙◌, arith, Bool-cases, Option-cases,
}
use stapel_realtime.Python.{
  Float, Value, null, bool, int, float, str, arr, obj, Fields, get, get_or_null, Result, ok, raise,
  ◌>>=◌, >>=-eq-ok, Texts,
}
use stapel_realtime.Python.Convert.{or_else, float_of_value}
use stapel_realtime.Python.Floats.{is_below}
use stapel_realtime.Conf.{Settings}
use stapel_realtime.Checks.{Problem, Deployment, dict_of}
use stapel_realtime.Checks.Layer.{
  default_layer, redis_library_default_timeout, is_redis, expiry_of, floor_of, states_timeout,
  too_low, judge_source, judge_sources, judge_inherited, inherit, judge_all, sources_of,
  check_layer_socket_timeout,
}

-- A timeout that lets a consumer wait: none at all, or one that is not below the floor.
pub data IsPatient (py : Texts) (floor : Float) : Value → Type 0 where
  blocking : IsPatient py floor null
  long :
      (v : Value) (x : Float)
      → float_of_value py v ≡ ok x
      → is_below x floor ≡ false
      → IsPatient py floor v

abbrev pub AllPatient : Texts → Float → List Fields → Type 0
AllPatient py floor [] = Unit
AllPatient py floor (source ∷ sources) =
    IsPatient py floor (get_or_null "socket_timeout" source) × AllPatient py floor sources

-- No source states a timeout; an explicit null states one.
abbrev pub AreUnstated : List Fields → Type 0
AreUnstated [] = Unit
AreUnstated (source ∷ sources) = (get "socket_timeout" source ≡ none) × AreUnstated sources

-- The default of the redis library, likewise.
abbrev pub IsPatientDefault : Float → Result (Option Float) → Type 0
IsPatientDefault floor (ok none) = Unit
IsPatientDefault floor (ok (some x)) = is_below x floor ≡ false
IsPatientDefault floor (raise e) = ⊥

no_problems : {ps qs : List Problem} → ok (ps ++ qs) ≡ ok [] → (ps ≡ []) × (qs ≡ [])
no_problems {ps = []} h = (refl, cc)
no_problems {ps = p ∷ ps} h = absurd (cc)

module _ (py : Texts) (d : Deployment) (floor : Float) where
  too_low_none : (x : Float) → too_low py d floor x ≡ [] → is_below x floor ≡ false
  too_low_none x h = elim (Bool-cases (is_below x floor)) [
    | inl e ↦ absurd (cc (rw e at h))
    | inr e ↦ e
  ]

  abbrev judge_number : Value → Result (List Problem)
  judge_number v = do x ← float_of_value py v; ok (too_low py d floor x)

  number-IsPatient : (v : Value) → judge_number v ≡ ok [] → IsPatient py floor v
  number-IsPatient v h =
      let (x, e, last) = >>=-eq-ok (float_of_value py v) (λ x. ok (too_low py d floor x)) h in
      long v x e (too_low_none x (cc))

  patient : (v : Value) → judge_source py d floor v ≡ ok [] → IsPatient py floor v
  patient null h = blocking
  patient (bool b) h = number-IsPatient (bool b) h
  patient (int n) h = number-IsPatient (int n) h
  patient (float x) h = number-IsPatient (float x) h
  patient (str s) h = number-IsPatient (str s) h
  patient (arr vs) h = number-IsPatient (arr vs) h
  patient (obj fs) h = number-IsPatient (obj fs) h

  patient_number :
      (v : Value) (x : Float)
      → float_of_value py v ≡ ok x
      → is_below x floor ≡ false
      → judge_number v ≡ ok []
  patient_number v x e b = rw (e, b) refl

  judged : (v : Value) → IsPatient py floor v → judge_source py d floor v ≡ ok []
  judged _ blocking = refl
  judged null (long _ x e b) = refl
  judged (bool c) (long _ x e b) = patient_number (bool c) x e b
  judged (int n) (long _ x e b) = patient_number (int n) x e b
  judged (float y) (long _ x e b) = patient_number (float y) x e b
  judged (str s) (long _ x e b) = patient_number (str s) x e b
  judged (arr vs) (long _ x e b) = patient_number (arr vs) x e b
  judged (obj fs) (long _ x e b) = patient_number (obj fs) x e b

  sources_patient :
      (sources : List Fields)
      → judge_sources py d floor sources ≡ ok []
      → AllPatient py floor sources
  unfolding judge_sources
  sources_patient [] h = tt
  sources_patient (source ∷ sources) h =
      let (first, e, more) =
        >>=-eq-ok (judge_source py d floor (get_or_null "socket_timeout" source)) _ h in
      let (rest, er, last) = >>=-eq-ok (judge_sources py d floor sources) _ more in
      let (nf, nr) = no_problems {ps = first} {qs = rest} last in
      (
        patient (get_or_null "socket_timeout" source) (e ∙ ap ok nf),
        sources_patient sources (er ∙ ap ok nr),
      )

  patient_sources :
      (sources : List Fields)
      → AllPatient py floor sources
      → judge_sources py d floor sources ≡ ok []
  unfolding judge_sources
  patient_sources [] h = refl
  patient_sources (source ∷ sources) h =
      rw (judged (get_or_null "socket_timeout" source) h.0, patient_sources sources h.1) refl

  default_patient :
      (r : Result (Option Float))
      → (r >>= λ x. ok (judge_inherited py d floor x)) ≡ ok []
      → IsPatientDefault floor r
  default_patient (ok none) h = tt
  default_patient (ok (some x)) h = too_low_none x (cc)
  default_patient (raise e) h = absurd (cc)

  patient_default :
      (r : Result (Option Float))
      → IsPatientDefault floor r
      → (r >>= λ x. ok (judge_inherited py d floor x)) ≡ ok []
  patient_default (ok none) h = refl
  patient_default (ok (some x)) h = rw h
  patient_default (raise e) h = absurd h

  -- Every stated timeout is patient, and the library's default is, where none is stated.
  abbrev pub IsPatientLayer : List Fields → Type 0
  IsPatientLayer sources =
      AllPatient py floor sources
      × (AreUnstated sources → IsPatientDefault floor (redis_library_default_timeout py d))

  stated_none : (sources : List Fields) → states_timeout py d sources ≡ false → AreUnstated sources
  unfolding states_timeout
  stated_none [] h = tt
  stated_none (source ∷ sources) h = elim (Option-cases (get "socket_timeout" source)) [
    | inl e ↦ (e, stated_none sources (ground arith))
    | inr (v, e) ↦ absurd (ground arith)
  ]

  none_stated : (sources : List Fields) → AreUnstated sources → states_timeout py d sources ≡ false
  unfolding states_timeout
  none_stated [] h = refl
  none_stated (source ∷ sources) h = rw (states_timeout, h.0) (none_stated sources h.1)

  inherits :
      (stated : Bool)
      → inherit py d floor stated [] ≡ ok []
      → stated ≡ false
      → IsPatientDefault floor (redis_library_default_timeout py d)
  inherits true h e = absurd (cc)
  inherits false h e = default_patient (redis_library_default_timeout py d) h

  inherited :
      (stated : Bool)
      → (stated ≡ false → IsPatientDefault floor (redis_library_default_timeout py d))
      → inherit py d floor stated [] ≡ ok []
  inherited true h = refl
  inherited false h = patient_default (redis_library_default_timeout py d) (h refl)

  inherit_none :
      (stated : Bool) (problems : List Problem)
      → inherit py d floor stated problems ≡ ok []
      → problems ≡ []
  inherit_none stated [] h = refl
  inherit_none true (p ∷ ps) h = absurd (cc)
  inherit_none false (p ∷ ps) h = absurd (cc)

  all_iff :
      (sources : List Fields) → (judge_all py d floor sources ≡ ok []) ↔ IsPatientLayer sources
  all_iff sources = (there, back)
    where
      there : judge_all py d floor sources ≡ ok [] → IsPatientLayer sources
      there h =
          let (problems, e, last) = >>=-eq-ok (judge_sources py d floor sources) _ h in
          let nothing = inherit_none (states_timeout py d sources) problems last in
          (
            sources_patient sources (e ∙ ap ok nothing),
            λ unstated.
                inherits (states_timeout py d sources)
                  (ap (λ ps. inherit py d floor (states_timeout py d sources) ps) (sym nothing)
                    ∙ last)
                  (none_stated sources unstated),
          )

      back : IsPatientLayer sources → judge_all py d floor sources ≡ ok []
      back (stated, unstated) =
          ap (λ r. r >>= inherit py d floor (states_timeout py d sources))
            (patient_sources sources stated)
          ∙ inherited (states_timeout py d sources) (λ e. unstated (stated_none sources e))

-- On a layer of channels-redis whose configuration can be read, the check reports nothing exactly
-- when no consumer is cut off while it waits: each `socket_timeout` that is stated, in the
-- configuration, its `connection_kwargs` or a host, is null or not below the floor, and where none is
-- stated (a null is), the default of the installed library is none or not below the floor.
pub timeouts_silent :
    (py : Texts) (d : Deployment) (settings : Settings) (layer config : Fields)
    (sources : List Fields) (expiry floor : Float)
    → default_layer py d ≡ ok layer
    → is_redis py d (or_else (get_or_null "BACKEND" layer) (str "")) ≡ ok true
    → dict_of (get_or_null "CONFIG" layer) ≡ ok config
    → float_of_value py (expiry_of py d config) ≡ ok expiry
    → floor_of py d settings.layer_socket_timeout_min expiry ≡ ok floor
    → sources_of py d config ≡ ok sources
    → (check_layer_socket_timeout py d settings ≡ ok []) ↔ IsPatientLayer py d floor sources
unfolding check_layer_socket_timeout
timeouts_silent py d settings layer config sources expiry floor hl hr hc he hf hs =
    let minimum = settings.layer_socket_timeout_min in
    let same : check_layer_socket_timeout py d settings ≡ judge_all py d floor sources =
      rw (hl, hr, hc, he, hf, hs) refl in
    let (there, back) = all_iff py d floor sources in
    (λ h. there (sym same ∙ h), λ h. same ∙ back h)
