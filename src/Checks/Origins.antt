-- ===== src/Checks/Origins.antt =====
-- The check of the allowed origins (checks.py), and the guard that reads them (asgi.py).
pub mod Declared
use stapel_realtime.Prelude.{
  String, Bool, true, false, Option, none, some, List, [], ◌∷◌, ◌++◌, ◌≡◌, ◌≢◌, refl, ◌↔◌, inl, inr,
  ap, sym, ◌∙◌, Option-cases, Bool-cases, if◌then◌else◌,
}
use stapel_realtime.Envelope.{contains}
use stapel_realtime.Asgi.{Origins, normalize_origin, append_new, configured, allowed}
use stapel_realtime.Checks.{Problem, warning, error}

module _ (o : Origins) where
  unfoldable pub malformed : List String → List Problem
  unfolding normalize_origin
  malformed [] = []
  malformed (entry ∷ entries) =
      let rest = malformed entries in
      elim (normalize_origin o entry) [ none ↦ error "realtime.E003" ∷ rest | some _ ↦ rest ]

  abbrev judge_origins : List String → List String → List Problem
  judge_origins [] [] = warning "realtime.W002" ∷ []
  judge_origins entries registry = malformed entries

  -- `check_allowed_origins`
  unfoldable pub check_allowed_origins : List String → List Problem
  unfolding malformed
  check_allowed_origins setting = judge_origins setting o.registry

  -- Each entry of the setting reads as an origin, which the guard then allows.
  abbrev pub AllRead : List String → Type 0
  AllRead [] = Unit
  AllRead (entry ∷ entries) =
      ((origin : String) × (normalize_origin o entry ≡ some origin)) × AllRead entries

  malformed_read :
      (entry : String) (entries : List String) (origin : String)
      → normalize_origin o entry ≡ some origin
      → malformed (entry ∷ entries) ≡ malformed entries
  unfolding malformed
  malformed_read entry entries origin h =
      ap
        (λ r. elim r as (λ _. List Problem) [
          | none ↦ error "realtime.E003" ∷ malformed entries
          | some _ ↦ malformed entries
        ])
        h

  malformed_unread :
      (entry : String) (entries : List String)
      → normalize_origin o entry ≡ none
      → malformed (entry ∷ entries) ≡ error "realtime.E003" ∷ malformed entries
  unfolding malformed
  malformed_unread entry entries h =
      ap
        (λ r. elim r as (λ _. List Problem) [
          | none ↦ error "realtime.E003" ∷ malformed entries
          | some _ ↦ malformed entries
        ])
        h

  reads_all : (entries : List String) → malformed entries ≡ [] → AllRead entries
  reads_all [] h = tt
  reads_all (entry ∷ entries) h = elim (Option-cases (normalize_origin o entry)) [
    | inl e ↦ absurd (cc (malformed_unread entry entries e))
    | inr (origin, e) ↦
        ((origin, e), reads_all entries (sym (malformed_read entry entries origin e) ∙ h))
  ]

  all_read : (entries : List String) → AllRead entries → malformed entries ≡ []
  unfolding malformed
  all_read [] r = refl
  all_read (entry ∷ entries) r = malformed_read entry entries r.0.0 r.0.1 ∙ all_read entries r.1

  append_new_some :
      (entry : String) (entries origins : List String) → append_new o (entry ∷ entries) origins ≢ []
  unfolding append_new
  append_new_some entry entries [] h = cc
  append_new_some entry entries (origin ∷ origins) h =
      elim (Bool-cases (contains origin (entry ∷ entries))) [
        | inl e ↦ append_new_some entry entries origins (rw e at h)
        | inr e ↦ append_new_some entry (entries ++ origin ∷ []) origins (rw e at h)
      ]

  append_new_any :
      (origin : String) (origins : List String) → append_new o [] (origin ∷ origins) ≢ []
  unfolding append_new contains
  append_new_any origin origins = append_new_some origin [] origins

  silent_when :
      (setting registry : List String)
      → judge_origins setting registry ≡ []
      → (append_new o setting registry ≢ []) × AllRead setting
  silent_when [] [] h = cc
  silent_when [] (origin ∷ origins) h = (append_new_any origin origins, tt)
  silent_when (entry ∷ entries) registry h =
      (append_new_some entry entries registry, reads_all (entry ∷ entries) h)

  when_silent :
      (setting registry : List String)
      → append_new o setting registry ≢ []
      → AllRead setting
      → judge_origins setting registry ≡ []
  unfolding append_new malformed
  when_silent [] [] h r = absurd (h refl)
  when_silent [] (origin ∷ origins) h r = refl
  when_silent (entry ∷ entries) registry h r = all_read (entry ∷ entries) r

  -- The check of the allowed origins reports nothing exactly when the guard is on, with the entries
  -- of the setting and of the site registry, and every entry of the setting reads as an origin.
  pub allowed_origins_silent :
      (setting : List String)
      → (check_allowed_origins setting ≡ []) ↔ ((configured o none setting ≢ []) × AllRead setting)
  unfolding check_allowed_origins configured
  allowed_origins_silent setting =
      (silent_when setting o.registry, λ (h, r). when_silent setting o.registry h r)
