-- ===== src/Streams/Names.antt =====
-- Names of groups (`group_name`, streams.py): their characters, their length, their injectivity.
use Prim.Native.Char.{Char, code}
use Prim.Native.String.{◌++◌ as append_text}
use Prim.Native.String.append
use text.Mathlib.TextEquality.{Char-path}
use mathlib.Core.Path.{subst}
use stapel_realtime.Prelude.{
  ℕ, zero, suc, ◌≤◌, ◌+◌, String, Bool, true, false, ◌||◌, ◌≡◌, ◌≢◌, some, refl, ap, sym, ◌∙◌,
  arith, ◌==◌, leb, leb→le, le→leb, if◌then◌else◌, Bool-cases, inl, inr, ◌⊎◌,
}
use stapel_realtime.Python.{ok, Texts, >>=-eq-ok}
use stapel_realtime.Python.Text.{size, prefix, replace, has_char}
use stapel_realtime.Streams.{Core, StreamKey, max_group_name, parse_stream_key, name_of, group_name}
use stapel_realtime.Streams.Parsed.{module_free}

abbrev colon : ℕ
colon = 58

replaced_free : (s : String) → has_char b':' (replace b':' "." s) ≡ false
unfolding has_char replace
replaced_free String.[] = refl
replaced_free (String.◌∷◌ c s) = elim (Bool-cases (code c == colon)) [
  | inl h ↦ rw (h, replaced_free s) refl
  | inr h ↦ rw (h, replaced_free s) (rw h refl)
]

has_char-append :
    (a : ℕ) (s t : String) → has_char a (append_text s t) ≡ has_char a s || has_char a t
unfolding has_char
has_char-append a String.[] t = ap (λ u. has_char a u) (append.nil t)
has_char-append a (String.◌∷◌ c s) t =
    ap (λ u. has_char a u) (append.cons c s t) ∙ ground (arith, has_char-append a s t)

size-append : (s t : String) → size (append_text s t) ≡ size s + size t
unfolding size
size-append String.[] t = ap size (append.nil t) ∙ omega arith
size-append (String.◌∷◌ c s) t = ap size (append.cons c s t) ∙ omega (arith, size-append s t)

size-prefix : (n : ℕ) (s : String) → size (prefix n s) ≤ n
unfolding size prefix
size-prefix zero s = omega arith
size-prefix (suc n) String.[] = omega arith
size-prefix (suc n) (String.◌∷◌ c s) = omega (arith, size-prefix n s)

has_char-prefix : (a n : ℕ) (s : String) → has_char a s ≡ false → has_char a (prefix n s) ≡ false
unfolding has_char prefix
has_char-prefix a zero s h = refl
has_char-prefix a (suc n) String.[] h = refl
has_char-prefix a (suc n) (String.◌∷◌ c s) h = ground (arith, has_char-prefix a n s)

size-replace : (a : ℕ) (d : Char) (s : String) → size (replace a d s) ≡ size s
unfolding size replace
size-replace a d String.[] = refl
size-replace a d (String.◌∷◌ c s) = ap suc (size-replace a d s)

cons_inj : {c d : Char} {s t : String} → String.◌∷◌ c s ≡ String.◌∷◌ d t → (c ≡ d) × (s ≡ t)
cons_inj h = (cc, cc)

eq→path : (a b : ℕ) → (a == b) ≡ true → a ≡ b
eq→path a b h = ground arith

abbrev dot : ℕ
dot = 46

if_true : {b : Bool} (c d : Char) → b ≡ true → (if b then c else d) ≡ c
if_true c d h = rw h refl

if_false : {b : Bool} (c d : Char) → b ≡ false → (if b then c else d) ≡ d
if_false c d h = rw h refl

or_false : {a b : Bool} → a || b ≡ false → (a ≡ false) × (b ≡ false)
or_false {a} {b} h = ground arith

no_dot : (d : Char) → code d ≡ dot → (code d == dot) ≢ false
no_dot d e h = ground arith

head_inj :
    (c d : Char)
    → (code c == dot) ≡ false
    → (code d == dot) ≡ false
    → (if code c == colon then "." else c) ≡ (if code d == colon then "." else d)
    → c ≡ d
head_inj c d hc hd h = elim (Bool-cases (code c == colon)) [
  | inl x ↦ elim (Bool-cases (code d == colon)) [
    | inl y ↦ Char-path c d (eq→path (code c) colon x ∙ sym (eq→path (code d) colon y))
    | inr y ↦ absurd (no_dot d (ap code (sym (sym (if_true "." c x) ∙ h ∙ if_false "." d y))) hd)
  ]
  | inr x ↦ elim (Bool-cases (code d == colon)) [
    | inl y ↦ absurd (no_dot c (ap code (sym (if_false "." c x) ∙ h ∙ if_true "." d y)) hc)
    | inr y ↦ sym (if_false "." c x) ∙ h ∙ if_false "." d y
  ]
]

replace_inj :
    (s t : String)
    → has_char dot s ≡ false
    → has_char dot t ≡ false
    → replace b':' "." s ≡ replace b':' "." t
    → s ≡ t
unfolding has_char replace
replace_inj String.[] String.[] hs ht h = refl
replace_inj String.[] (String.◌∷◌ d t) hs ht h = cc
replace_inj (String.◌∷◌ c s) String.[] hs ht h = cc
replace_inj (String.◌∷◌ c s) (String.◌∷◌ d t) hs ht h =
    let (hc, hs') = or_false hs in
    let (hd, ht') = or_false ht in
    let (e, es) = cons_inj h in
    ap (λ x. String.◌∷◌ x s) (head_inj c d hc hd e)
    ∙ ap (λ u. String.◌∷◌ d u) (replace_inj s t hs' ht' es)

ok_inj : {g h : String} → ok g ≡ ok h → g ≡ h
ok_inj e = cc

module _ (core : Core) (py : Texts) where
  -- A group's name, as a channel layer wants it: no colon, and short unless the module's is long.
  pub record IsName (module_name g : String) : Type 0 where
    pub free : has_char b':' g ≡ false
    pub bounded : (size g ≤ max_group_name) ⊎ (size g ≤ size module_name + 43)

  name_of-IsName :
      (m raw : String)
      → has_char b':' m ≡ false
      → has_char b':' (py.sha256 raw) ≡ false
      → IsName m (name_of core py m raw)
  unfolding name_of has_char
  name_of-IsName m raw hm hs =
      elim (Bool-cases (leb (size (replace b':' "." raw)) max_group_name)) [
        | inl h ↦ record {
          free = rw h (replaced_free raw);
          bounded = inl (rw h (leb→le (size (replace b':' "." raw)) max_group_name h));
        }
        | inr h ↦ record {
          free = rw h (
              has_char-append b':' m (append_text ".h." (prefix 40 (py.sha256 raw)))
              ∙ ap (λ b. b || has_char b':' (append_text ".h." (prefix 40 (py.sha256 raw)))) hm
              ∙ has_char-append b':' ".h." (prefix 40 (py.sha256 raw))
              ∙ has_char-prefix b':' 40 (py.sha256 raw) hs);
          bounded = inr (
              rw h (
                omega (
                  arith,
                  size-append m (append_text ".h." (prefix 40 (py.sha256 raw))),
                  size-append ".h." (prefix 40 (py.sha256 raw)),
                  size-prefix 40 (py.sha256 raw),
                )));
        }
      ]

  -- The name of every key that parses has no colon, if no hash has one, and at most 90 characters, or
  -- 43 more than its module name.
  pub group_name-IsName :
      (key g : String)
      → ((raw : String) → has_char b':' (py.sha256 raw) ≡ false)
      → group_name core py key ≡ ok g
      → (k : StreamKey) × (parse_stream_key core (some key) ≡ ok k) × IsName k.module_name g
  unfolding group_name
  group_name-IsName key g hash h =
      let (k, p, e) = >>=-eq-ok (parse_stream_key core (some key)) _ h in
      (
        k,
        p,
        subst (λ u. IsName k.module_name u) (ok_inj e)
            (name_of-IsName k.module_name key (module_free core key k p) (hash key)),
      )

  short_name :
      (m raw : String) → size raw ≤ max_group_name → name_of core py m raw ≡ replace b':' "." raw
  unfolding name_of
  short_name m raw h =
      rw
        (le→leb (size (replace b':' "." raw)) max_group_name
          (omega (arith, size-replace b':' "." raw)))
        refl

  -- On short keys without dots, naming is one to one: two such keys with one group are one key.
  pub group_name_inj :
      (j k g : String)
      → has_char dot j ≡ false
      → has_char dot k ≡ false
      → size j ≤ max_group_name
      → size k ≤ max_group_name
      → group_name core py j ≡ ok g
      → group_name core py k ≡ ok g
      → j ≡ k
  unfolding group_name
  group_name_inj j k g dj dk sj sk hj hk =
      let (a, p, e) = >>=-eq-ok (parse_stream_key core (some j)) _ hj in
      let (b, q, f) = >>=-eq-ok (parse_stream_key core (some k)) _ hk in
      replace_inj j k dj dk (
        sym (short_name a.module_name j sj)
        ∙ ok_inj e
        ∙ sym (ok_inj f)
        ∙ short_name b.module_name k sk)
