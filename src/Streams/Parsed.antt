-- ===== src/Streams/Parsed.antt =====
-- What `parse_stream_key` (streams.py) makes of a key: its segments.
use Prim.Native.Char.{Char, code}
use Prim.Native.String.{◌++◌ as append_text}
use Prim.Native.String.append
use text.Mathlib.TextEquality.{Char-path}
use mathlib.Core.Path.{subst}
use stapel_realtime.Prelude.{
  ℕ, String, Bool, true, false, Option, none, some, List, [], ◌∷◌, ◌≡◌, refl, ap, sym, ◌∙◌, arith,
  ◌==◌, if◌then◌else◌, Bool-cases, inl, inr, str_eq,
}
use stapel_realtime.Python.{ok, >>=-eq-ok}
use stapel_realtime.Python.Text.{push_front, split, has_char}
use stapel_realtime.Streams.{Core, StreamKey, key_of_parts, parse_stream_key}

-- `c.join(parts)`
unfoldable pub rejoin : Char → List String → String
rejoin c [] = String.[]
rejoin c (p ∷ []) = p
rejoin c (p ∷ q ∷ ps) = append_text p (String.◌∷◌ c (rejoin c (q ∷ ps)))

rejoin-push_front :
    (c d : Char) (ps : List String) → rejoin c (push_front d ps) ≡ String.◌∷◌ d (rejoin c ps)
unfolding rejoin push_front
rejoin-push_front c d [] = refl
rejoin-push_front c d (p ∷ []) = refl
rejoin-push_front c d (p ∷ q ∷ ps) = append.cons d p (String.◌∷◌ c (rejoin c (q ∷ ps)))

rejoin_cons :
    (c : Char) (ps : List String)
    → ((q : String) × (qs : List String) × (ps ≡ q ∷ qs))
    → rejoin c (String.[] ∷ ps) ≡ String.◌∷◌ c (rejoin c ps)
unfolding rejoin
rejoin_cons c [] (q, qs, e) = cc
rejoin_cons c (p ∷ ps) _ = append.nil (String.◌∷◌ c (rejoin c (p ∷ ps)))

eq→path : (a b : ℕ) → (a == b) ≡ true → a ≡ b
eq→path a b h = ground arith

split_some : (a : ℕ) (s : String) → (q : String) × (qs : List String) × (split a s ≡ q ∷ qs)
unfolding split push_front
split_some a String.[] = (String.[], [], refl)
split_some a (String.◌∷◌ d s) =
    let (q, qs, e) = split_some a s in
    elim (Bool-cases (code d == a)) [
      | inl h ↦ (String.[], split a s, rw h refl)
      | inr h ↦ (String.◌∷◌ d q, qs, rw (h, e) refl)
    ]

rejoin-split : (c : Char) (s : String) → rejoin c (split (code c) s) ≡ s
unfolding split rejoin
rejoin-split c String.[] = refl
rejoin-split c (String.◌∷◌ d s) = elim (Bool-cases (code d == code c)) [
  | inl h ↦ rw h (
      rejoin_cons c (split (code c) s) (split_some (code c) s)
      ∙ ap (λ u. String.◌∷◌ c u) (rejoin-split c s)
      ∙ ap (λ e. String.◌∷◌ e s) (sym (Char-path d c (eq→path (code d) (code c) h))))
  | inr h ↦
      rw h (rejoin-push_front c d (split (code c) s) ∙ ap (λ u. String.◌∷◌ d u) (rejoin-split c s))
]

abbrev topic_segments : Option String → List String
topic_segments none = []
topic_segments (some topic) = topic ∷ []

-- The segments of a key, its topic last if it has one.
unfoldable pub segments : StreamKey → List String
segments k = k.module_name ∷ k.scope_type ∷ k.scope_id ∷ topic_segments k.topic

ok_inj : {j k : StreamKey} → ok j ≡ ok k → j ≡ k
ok_inj h = cc

module _ (core : Core) where
  pub record IsKeyOf (k : StreamKey) (parts : List String) : Type 0 where
    pub built : String
    pub valid : core.build_stream_key k.module_name k.scope_type k.scope_id k.topic ≡ ok built
    pub same : segments k ≡ parts

  keyed :
      (j k : StreamKey) (built : String)
      → core.build_stream_key j.module_name j.scope_type j.scope_id j.topic ≡ ok built
      → j ≡ k
      → IsKeyOf k (segments j)
  keyed j k built b e =
      subst (λ u. IsKeyOf u (segments j)) e (record { built = built; valid = b; same = refl })

  parts_of :
      (parts : List String) (k : StreamKey) → key_of_parts core parts ≡ ok k → IsKeyOf k parts
  unfolding key_of_parts segments
  parts_of [] k h = cc
  parts_of (_ ∷ []) k h = cc
  parts_of (_ ∷ _ ∷ []) k h = cc
  parts_of (m ∷ t ∷ i ∷ []) k h =
      let (built, b, e) = >>=-eq-ok (core.build_stream_key m t i none) _ h in
      keyed (record { module_name = m; scope_type = t; scope_id = i; topic = none }) k built b
        (ok_inj e)
  parts_of (m ∷ t ∷ i ∷ topic ∷ []) k h =
      let (built, b, e) = >>=-eq-ok (core.build_stream_key m t i (some topic)) _ h in
      keyed (record { module_name = m; scope_type = t; scope_id = i; topic = some topic }) k built b
        (ok_inj e)
  parts_of (_ ∷ _ ∷ _ ∷ _ ∷ _ ∷ _) k h = cc

  parsed_split :
      (key : String) (k : StreamKey)
      → parse_stream_key core (some key) ≡ ok k
      → IsKeyOf k (split b':' key)
  unfolding parse_stream_key
  parsed_split key k h = elim (Bool-cases (str_eq key "")) [
    | inl e ↦ absurd (ground arith)
    | inr e ↦ parts_of (split b':' key) k (ground arith)
  ]

  -- A key that parses is its segments, joined by colons, and the core's builder accepts them.
  pub parse_rejoins :
      (key : String) (k : StreamKey)
      → parse_stream_key core (some key) ≡ ok k
      → (rejoin ":" (segments k) ≡ key)
        × ((built : String) × (core.build_stream_key k.module_name k.scope_type k.scope_id k.topic
              ≡ ok built))
  parse_rejoins key k h =
      let p = parsed_split key k h in
      (ap (λ parts. rejoin ":" parts) p.same ∙ rejoin-split ":" key, (p.built, p.valid))

starts :
    (a : ℕ) (d : Char) (s q : String) (qs : List String)
    → split a s ≡ q ∷ qs
    → (b : Bool) → (code d == a) ≡ b
    → split a (String.◌∷◌ d s) ≡ (if b then String.[] ∷ q ∷ qs else String.◌∷◌ d q ∷ qs)
unfolding split push_front
starts a d s q qs e true c = rw (c, e) refl
starts a d s q qs e false c = rw (c, e) refl

first_same : {p q : String} {ps qs : List String} → p ∷ ps ≡ q ∷ qs → p ≡ q
first_same h = cc

-- The first segment has no separator in it.
pub first_free :
    (a : ℕ) (s p : String) (ps : List String) → split a s ≡ p ∷ ps → has_char a p ≡ false
unfolding split has_char push_front
first_free a String.[] p ps h = ap (λ u. has_char a u) (sym (first_same h))
first_free a (String.◌∷◌ d s) p ps h =
    let (q, qs, e) = split_some a s in
    elim (Bool-cases (code d == a)) [
      | inl c ↦ ap (λ u. has_char a u) (sym (first_same (sym (starts a d s q qs e true c) ∙ h)))
      | inr c ↦
          ap (λ u. has_char a u) (sym (first_same (sym (starts a d s q qs e false c) ∙ h)))
          ∙ rw c (first_free a s q qs e)
    ]

pub module_free :
    (core : Core) (key : String) (k : StreamKey)
    → parse_stream_key core (some key) ≡ ok k
    → has_char b':' k.module_name ≡ false
unfolding segments
module_free core key k h =
    let p = parsed_split core key k h in first_free b':' key k.module_name _ (sym p.same)
