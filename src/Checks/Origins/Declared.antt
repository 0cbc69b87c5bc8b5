-- ===== src/Checks/Origins/Declared.antt =====
-- The check of the allowed origins (checks.py) and the guard that they are for (asgi.py).
use stapel_realtime.Prelude.{
  String, true, none, some, List, [], ◌∷◌, ◌++◌, ◌≡◌, refl, ap, sym, ◌∙◌, Bool-cases, inl, inr,
  arith, str_eq, eq_iff,
}
use stapel_realtime.Envelope.{contains}
use stapel_realtime.Asgi.{
  Origins, origin_header, passed, normalize_origin, append_new, configured, allowed, guard,
}
use stapel_realtime.Asgi.Guarded.{listed, guard_iff}
use stapel_realtime.Checks.Origins.{AllRead, check_allowed_origins, allowed_origins_silent}

contains-append :
    (x : String) (xs ys : List String) → contains x xs ≡ true → contains x (xs ++ ys) ≡ true
unfolding contains
contains-append x [] ys h = cc
contains-append x (y ∷ xs) ys h = elim (Bool-cases (str_eq y x)) [
  | inl e ↦ rw e
  | inr e ↦ rw e (contains-append x xs ys (rw e at h))
]

module _ (o : Origins) where
  contains-append_new :
      (x : String) (entries origins : List String)
      → contains x entries ≡ true
      → contains x (append_new o entries origins) ≡ true
  unfolding append_new
  contains-append_new x entries [] h = h
  contains-append_new x entries (origin ∷ origins) h = elim (Bool-cases (contains origin entries)) [
    | inl e ↦ rw e (contains-append_new x entries origins h)
    | inr e ↦ rw e (
        contains-append_new x (entries ++ origin ∷ []) origins
          (contains-append x entries (origin ∷ []) h))
  ]

  allowed_read :
      (entry origin : String) (entries : List String)
      → normalize_origin o entry ≡ some origin
      → allowed o (entry ∷ entries) ≡ origin ∷ allowed o entries
  unfolding allowed
  allowed_read entry origin entries h =
      ap
        (λ r. elim r as (λ _. List String) [
          | some normal ↦ normal ∷ allowed o entries
          | none ↦ allowed o entries
        ])
        h

  allowed_more :
      (x entry : String) (entries : List String)
      → contains x (allowed o entries) ≡ true
      → contains x (allowed o (entry ∷ entries)) ≡ true
  unfolding allowed contains
  allowed_more x entry entries h = ground (arith, h)

  allowed_has :
      (x normal : String) (entries : List String)
      → normalize_origin o x ≡ some normal
      → contains x entries ≡ true
      → contains normal (allowed o entries) ≡ true
  unfolding contains
  allowed_has x normal [] n h = cc
  allowed_has x normal (entry ∷ entries) n h = elim (Bool-cases (str_eq entry x)) [
    | inl e ↦
        ap (contains normal) (
          allowed_read entry normal entries
            (ap (λ u. normalize_origin o u) ((eq_iff entry x).0 e) ∙ n))
        ∙ rw ((eq_iff normal normal).1 refl) refl
    | inr e ↦ allowed_more normal entry entries (allowed_has x normal entries n (rw e at h))
  ]

  read_at :
      (x : String) (entries : List String)
      → AllRead o entries
      → contains x entries ≡ true
      → (normal : String) × (normalize_origin o x ≡ some normal)
  unfolding contains
  read_at x [] r h = absurd (cc)
  read_at x (entry ∷ entries) r h = elim (Bool-cases (str_eq entry x)) [
    | inl e ↦ (r.0.0, ap (λ u. normalize_origin o u) (sym ((eq_iff entry x).0 e)) ∙ r.0.1)
    | inr e ↦ read_at x entries r.1 (rw e at h)
  ]

  -- Where the check of the allowed origins reports nothing, the guard lets every entry of the setting
  -- through: a websocket whose `Origin` header is the entry, as it is written, passes.
  pub declared_pass :
      (setting : List String) (entry : String)
      → check_allowed_origins o setting ≡ []
      → contains entry setting ≡ true
      → guard o none setting "websocket" (("origin", entry) ∷ []) ≡ passed
  unfolding origin_header configured
  declared_pass setting entry silent member =
      let (on, reads) = (allowed_origins_silent o setting).0 silent in
      let (normal, n) = read_at entry setting reads member in
      (guard_iff o none setting "websocket" (("origin", entry) ∷ [])).1 (
        listed "websocket" (("origin", entry) ∷ []) entry normal refl n (
          allowed_has entry normal (configured o none setting) n
            (contains-append_new entry setting o.registry member)))
