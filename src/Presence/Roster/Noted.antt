-- ===== src/Presence/Roster/Noted.antt =====
-- The document of a user as a roster (presence.py): each step of the registry's writes and reads on
-- the sessions of a document is a step on notes.
use stapel_realtime.Prelude.{
  ℕ, suc, String, Bool, Option, none, some, List, [], ◌∷◌, length, str_eq, ◌≡◌, refl, ap, ◌∙◌,
  arith, Bool-cases, inl, inr,
}
use stapel_realtime.Prelude.Int.{pos, ◌-ℤ◌, -ℤ_parts}
use stapel_realtime.Python.{Float, finite, get, get_or_null, ok, Texts}
use stapel_realtime.Presence.{
  Sessions, is_of, family_value, is_within, put_session, drop_session, matching, live_among,
  entry_of, seens_of, prune,
}
use stapel_realtime.Presence.Lease.{seen_now, seens_cons, prune_cons}
use stapel_realtime.Presence.Roster.{Note, forget, runs, in_family, count, keep, put_note}

-- What a document holds of these notes.
abbrev pub sessions : List Note → Sessions
sessions [] = []
sessions (n ∷ ns) = (n.session, entry_of n.seen n.family) ∷ sessions ns

abbrev pub seens : List Note → List Float
seens [] = []
seens (n ∷ ns) = finite (pos n.seen) ∷ seens ns

runs_within : (now ttl : ℕ) (n : Note) → is_within now ttl (finite (pos n.seen)) ≡ runs now ttl n
unfolding is_within ◌-ℤ◌
runs_within now ttl n = ground (arith, -ℤ_parts (pos now) (pos n.seen))

in_family_lem : (asked own : Option String) → is_of asked (family_value own) ≡ in_family asked own
in_family_lem none own = refl
in_family_lem (some asked) none = refl
in_family_lem (some asked) (some own) = elim (Bool-cases (str_eq own "")) [
  | inl h ↦ rw h refl
  | inr h ↦ rw h refl
]

pub sessions-put :
    (now : ℕ) (id : String) (family : Option String) (ns : List Note)
    → put_session id (entry_of now family) (sessions ns)
      ≡ sessions (put_note (record { session = id; seen = now; family = family }) ns)
unfolding put_session put_note
sessions-put now id family [] = refl
sessions-put now id family (n ∷ ns) = elim (Bool-cases (str_eq n.session id)) [
  | inl h ↦ rw h refl
  | inr h ↦ rw (h, sessions-put now id family ns) refl
]

pub sessions-forget :
    (id : String) (ns : List Note) → drop_session id (sessions ns) ≡ sessions (forget id ns)
unfolding drop_session forget
sessions-forget id [] = refl
sessions-forget id (n ∷ ns) = elim (Bool-cases (str_eq n.session id)) [
  | inl h ↦ rw (h, sessions-forget id ns) refl
  | inr h ↦ rw (h, sessions-forget id ns) refl
]

abbrev pub asked_of : Option String → Note → Bool
asked_of asked n = in_family asked n.family

matching-sessions :
    (asked : Option String) (ns : List Note)
    → matching asked (sessions ns) ≡ sessions (keep (asked_of asked) ns)
unfolding matching keep get_or_null get
matching-sessions asked [] = refl
matching-sessions asked (n ∷ ns) = elim (Bool-cases (in_family asked n.family)) [
  | inl h ↦ rw (in_family_lem asked n.family, h, matching-sessions asked ns) refl
  | inr h ↦ rw (in_family_lem asked n.family, h, matching-sessions asked ns) refl
]

pub live_among-seens :
    (now ttl : ℕ) (ns : List Note)
    → length (live_among now ttl (seens ns)) ≡ count (runs now ttl) ns
unfolding live_among count
live_among-seens now ttl [] = refl
live_among-seens now ttl (n ∷ ns) = elim (Bool-cases (runs now ttl n)) [
  | inl h ↦ rw (runs_within now ttl n, h) (ap suc (live_among-seens now ttl ns))
  | inr h ↦ rw (runs_within now ttl n, h) (live_among-seens now ttl ns)
]

module _ (py : Texts) (iso : Float → Option String) where
  pub prune-sessions :
      (now ttl : ℕ) (ns : List Note)
      → prune py iso now ttl (sessions ns) ≡ ok (sessions (keep (runs now ttl) ns))
  unfolding prune keep
  prune-sessions now ttl [] = refl
  prune-sessions now ttl (n ∷ ns) =
      prune_cons py iso now ttl n.session (entry_of n.seen n.family) (sessions ns)
        (sessions (keep (runs now ttl) ns)) (finite (pos n.seen)) (seen_now py iso n.seen n.family)
        (prune-sessions now ttl ns)
      ∙ elim (Bool-cases (runs now ttl n)) [
        | inl h ↦ rw (runs_within now ttl n, h) refl
        | inr h ↦ rw (runs_within now ttl n, h) refl
      ]

  seens_of-sessions : (ns : List Note) → seens_of py iso (sessions ns) ≡ ok (seens ns)
  unfolding seens_of
  seens_of-sessions [] = refl
  seens_of-sessions (n ∷ ns) =
      seens_cons py iso n.session (entry_of n.seen n.family) (sessions ns) (finite (pos n.seen))
        (seens ns) (seen_now py iso n.seen n.family) (seens_of-sessions ns)

  pub seens_of-matching :
      (asked : Option String) (ns : List Note)
      → seens_of py iso (matching asked (sessions ns)) ≡ ok (seens (keep (asked_of asked) ns))
  seens_of-matching asked ns =
      ap (seens_of py iso) (matching-sessions asked ns)
      ∙ seens_of-sessions (keep (asked_of asked) ns)
