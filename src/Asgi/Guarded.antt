-- ===== src/Asgi/Guarded.antt =====
-- Whom the Origin guard lets through (asgi.py).
use stapel_realtime.Prelude.{
  ℕ, String, Bool, true, false, Option, none, some, List, [], ◌∷◌, ◌≡◌, ◌≢◌, refl, ◌↔◌, ◌⊎◌, ap,
  sym, ◌∙◌, str_eq, eq_iff, Bool-cases, Option-cases, inl, inr, if◌then◌else◌,
}
use stapel_realtime.Envelope.{contains}
use stapel_realtime.Asgi.{
  Origins, passed, closed, origin_header, normalize_origin, configured, allowed, verdict, judge,
  guard,
}

module _ (o : Origins) (explicit : Option (List String)) (setting : List String) where
  -- Who gets past the guard: what is no websocket, everybody if no origin is configured, who names no
  -- origin, and whose origin reads as an allowed one.
  pub data IsLetThrough : String → List (String × String) → Type 0 where
    other : (t : String) (hs : List (String × String)) → t ≢ "websocket" → IsLetThrough t hs
    unguarded :
        (t : String) (hs : List (String × String))
        → configured o explicit setting ≡ []
        → IsLetThrough t hs
    no_origin :
        (t : String) (hs : List (String × String)) → origin_header hs ≡ none → IsLetThrough t hs
    listed :
        (t : String) (hs : List (String × String)) (origin normal : String)
        → origin_header hs ≡ some origin
        → normalize_origin o origin ≡ some normal
        → contains normal (allowed o (configured o explicit setting)) ≡ true
        → IsLetThrough t hs

  judge_nothing : (entries : List String) → judge o entries none ≡ passed
  judge_nothing [] = refl
  judge_nothing (e ∷ es) = refl

  judge_empty : (origin : Option String) → judge o [] origin ≡ passed
  judge_empty origin = refl

  judge_listed :
      (entries : List String) (origin normal : String)
      → normalize_origin o origin ≡ some normal
      → contains normal (allowed o entries) ≡ true
      → judge o entries (some origin) ≡ passed
  judge_listed [] origin normal n c = refl
  judge_listed (e ∷ es) origin normal n c =
      ap (λ r. verdict o (allowed o (e ∷ es)) r) n ∙ ap (λ b. if b then passed else closed 4403) c

  websocket_judged :
      (t : String) (hs : List (String × String))
      → t ≡ "websocket"
      → guard o explicit setting t hs ≡ judge o (configured o explicit setting) (origin_header hs)
  unfolding guard
  websocket_judged t hs e = rw ((eq_iff t "websocket").1 e) refl

  other_passed :
      (t : String) (hs : List (String × String))
      → str_eq t "websocket" ≡ false
      → guard o explicit setting t hs ≡ passed
  unfolding guard
  other_passed t hs e = rw e refl

  let_through :
      (t : String) (hs : List (String × String))
      → IsLetThrough t hs
      → guard o explicit setting t hs ≡ passed
  let_through t hs l = elim (Bool-cases (str_eq t "websocket")) [
    | inr e ↦ other_passed t hs e
    | inl e ↦
        websocket_judged t hs ((eq_iff t "websocket").0 e)
        ∙ judged t hs ((eq_iff t "websocket").0 e) l
  ]
    where
      judged :
          (t : String) (hs : List (String × String))
          → t ≡ "websocket"
          → IsLetThrough t hs
          → judge o (configured o explicit setting) (origin_header hs) ≡ passed
      judged t hs w (other _ _ n) = absurd (n w)
      judged t hs w (unguarded _ _ e) = ap (λ es. judge o es (origin_header hs)) e
      judged t hs w (no_origin _ _ e) =
          ap (λ h. judge o (configured o explicit setting) h) e
          ∙ judge_nothing (configured o explicit setting)
      judged t hs w (listed _ _ origin normal e n c) =
          ap (λ h. judge o (configured o explicit setting) h) e
          ∙ judge_listed (configured o explicit setting) origin normal n c

  judged_listed :
      (entries : List String) (origin : String)
      → entries ≢ []
      → judge o entries (some origin) ≡ passed
      → (normal : String) × (normalize_origin o origin ≡ some normal)
        × (contains normal (allowed o entries) ≡ true)
  judged_listed [] origin n h = absurd (n refl)
  judged_listed (e ∷ es) origin n h = elim (Option-cases (normalize_origin o origin)) [
    | inl q ↦ absurd (closed_passed (sym (ap (λ r. verdict o (allowed o (e ∷ es)) r) q) ∙ h))
    | inr (normal, q) ↦ elim (Bool-cases (contains normal (allowed o (e ∷ es)))) [
      | inl c ↦ (normal, q, c)
      | inr c ↦ absurd (
          closed_passed (
            sym (
              ap (λ r. verdict o (allowed o (e ∷ es)) r) q
              ∙ ap (λ b. if b then passed else closed 4403) c)
            ∙ h))
    ]
  ]
    where
      closed_passed : {n : ℕ} → closed n ≢ passed
      closed_passed h = cc

  empty_or : (entries : List String) → (entries ≡ []) ⊎ (entries ≢ [])
  empty_or [] = inl refl
  empty_or (e ∷ es) = inr (λ h. cc)

  passed_through :
      (t : String) (hs : List (String × String))
      → guard o explicit setting t hs ≡ passed
      → IsLetThrough t hs
  passed_through t hs h = elim (Bool-cases (str_eq t "websocket")) [
    | inr e ↦ other t hs (λ w. different e ((eq_iff t "websocket").1 w))
    | inl e ↦ elim (empty_or (configured o explicit setting)) [
      | inl none_set ↦ unguarded t hs none_set
      | inr some_set ↦ elim (Option-cases (origin_header hs)) [
        | inl q ↦ no_origin t hs q
        | inr (origin, q) ↦
            let (normal, n, c) = judged_listed (configured o explicit setting) origin some_set (
              sym (ap (λ x. judge o (configured o explicit setting) x) q)
              ∙ sym (websocket_judged t hs ((eq_iff t "websocket").0 e))
              ∙ h) in
            listed t hs origin normal q n c
      ]
    ]
  ]
    where
      different : {b : Bool} → b ≡ false → b ≢ true
      different e h = cc

  -- The guard lets through exactly these: with some origin configured, even if each is malformed, a
  -- websocket that names an origin passes only if it reads as an allowed one.
  pub guard_iff :
      (t : String) (hs : List (String × String))
      → (guard o explicit setting t hs ≡ passed) ↔ IsLetThrough t hs
  guard_iff t hs = (passed_through t hs, let_through t hs)
