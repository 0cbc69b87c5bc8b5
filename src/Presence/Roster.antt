-- ===== src/Presence/Roster.antt =====
-- What the presence registry keeps of one user (presence.py), as a roster: the sessions that wrote
-- last with a connect or a heartbeat, each with its time and family, none of them ever pruned.
pub mod Noted
pub mod Agreed
pub mod Mirrored
pub mod Told
pub mod Apart
pub mod Fleet
pub mod Lasting
pub mod Overlap
use stapel_realtime.Prelude.{
  ℕ, suc, ◌+◌, ◌*◌, ◌≤◌, String, Bool, true, false, not, ◌&&◌, Option, none, some, List, [], ◌∷◌,
  leb, Bool-cases, inl, inr, str_eq, eq_iff, ◌≡◌, refl, ap, sym, ◌∙◌, arith, if◌then◌else◌,
}
use stapel_realtime.Python.{units}

pub record Note : Type 0 where
  pub session : String
  pub seen : ℕ
  pub family : Option String

-- A write: the connect or a heartbeat of a session, or its disconnect.
pub data Write : Type 0 where
  touching : String → Option String → Write
  ending : String → Write

unfoldable pub forget : String → List Note → List Note
forget id [] = []
forget id (n ∷ ns) = let rest = forget id ns in if str_eq n.session id then rest else n ∷ rest

unfoldable pub noted : ℕ → Write → List Note → List Note
unfolding forget
noted now (touching id family) ns =
    record { session = id; seen = now; family = family } ∷ forget id ns
noted now (ending id) ns = forget id ns

-- The roster after a history of writes.
unfoldable pub roster : List (ℕ × Write) → List Note → List Note
unfolding noted
roster [] ns = ns
roster ((now, w) ∷ ws) ns = roster ws (noted now w ns)

-- The lease of a note runs still.
abbrev pub runs : ℕ → ℕ → Note → Bool
runs now ttl n = leb now (n.seen + ttl * units)

abbrev pub is_session : String → Note → Bool
is_session id n = str_eq n.session id

-- A session without a family, or with an empty one, is in none.
abbrev pub in_family : Option String → Option String → Bool
in_family none own = true
in_family (some asked) none = false
in_family (some asked) (some own) = not (str_eq own "") && str_eq own asked

unfoldable pub count : (Note → Bool) → List Note → ℕ
count p [] = 0
count p (n ∷ ns) = let rest = count p ns in if p n then suc rest else rest

unfoldable pub keep : (Note → Bool) → List Note → List Note
keep p [] = []
keep p (n ∷ ns) = let rest = keep p ns in if p n then n ∷ rest else rest

-- In place of the note of its session, or last.
unfoldable pub put_note : Note → List Note → List Note
put_note n [] = n ∷ []
put_note n (m ∷ ms) = if str_eq m.session n.session then n ∷ ms else m ∷ put_note n ms

abbrev pub both : (Note → Bool) → (Note → Bool) → Note → Bool
both p q n = p n && q n

abbrev pub other_than : String → Note → Bool
other_than id n = not (str_eq n.session id)

pub count-ext :
    (p q : Note → Bool) → ((n : Note) → p n ≡ q n) → (ns : List Note) → count p ns ≡ count q ns
unfolding count
count-ext p q h [] = refl
count-ext p q h (n ∷ ns) = rw (h n, count-ext p q h ns) refl

pub count-forget :
    (p : Note → Bool) (id : String) (ns : List Note)
    → count p (forget id ns) ≡ count (both p (other_than id)) ns
unfolding count forget
count-forget p id [] = refl
count-forget p id (n ∷ ns) = ground (arith, count-forget p id ns)

pub count-keep : (p q : Note → Bool) (ns : List Note) → count p (keep q ns) ≡ count (both q p) ns
unfolding count keep
count-keep p q [] = refl
count-keep p q (n ∷ ns) = ground (arith, count-keep p q ns)

pub count-le :
    (p q : Note → Bool)
    → ((n : Note) → p n ≡ true → q n ≡ true)
    → (ns : List Note) → count p ns ≤ count q ns
unfolding count
count-le p q h [] = omega arith
count-le p q h (n ∷ ns) = ground (arith, count-le p q h ns, h n)

pub count-none :
    (p q : Note → Bool)
    → ((n : Note) → p n ≡ true → q n ≡ true)
    → (ns : List Note) → count q ns ≡ 0
    → count p ns ≡ 0
count-none p q h ns e = omega (arith, count-le p q h ns, e)

forget_absent : (id : String) (ns : List Note) → count (is_session id) ns ≡ 0 → forget id ns ≡ ns
unfolding count forget
forget_absent id [] e = refl
forget_absent id (n ∷ ns) e = elim (Bool-cases (str_eq n.session id)) [
  | inl h ↦ absurd (ground arith)
  | inr h ↦ rw h (ap (λ rest. n ∷ rest) (forget_absent id ns (ground arith)))
]

-- Where a session has one note at most, a note put in its place counts as one put first.
pub count-put :
    (p : Note → Bool) (n : Note) (ms : List Note)
    → count (is_session n.session) ms ≤ 1
    → count p (put_note n ms) ≡ count p (n ∷ forget n.session ms)
unfolding count forget put_note
count-put p n [] single = refl
count-put p n (m ∷ ms) single = elim (Bool-cases (str_eq m.session n.session)) [
  | inl h ↦ rw (h, forget_absent n.session ms (ground arith)) refl
  | inr h ↦ let rest = count-put p n ms (ground arith) in rw h (ground (arith, rest))
]
