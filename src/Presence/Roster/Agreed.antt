-- ===== src/Presence/Roster/Agreed.antt =====
-- What two rosters have in common to who asks at one moment (presence.py): the registry's notes and
-- the full ones agree on every question about sessions whose lease runs, and the steps keep that.
use stapel_realtime.Prelude.{
  ℕ, ◌+◌, ◌*◌, ◌≤◌, ◌<◌, String, Bool, true, Option, List, [], ◌∷◌, ltb, str_eq, eq_iff, ◌≡◌, refl,
  sym, ◌∙◌, arith, Bool-cases, inl, inr,
}
use stapel_realtime.Python.{units}
use stapel_realtime.Presence.Roster.{
  Note, Write, touching, ending, forget, noted, runs, is_session, count, keep, put_note, both,
  other_than, count-ext, count-forget, count-keep, count-le, count-none, count-put,
}

-- One note at most of each session, and none from after `last`.
pub record IsProper (last : ℕ) (ns : List Note) : Type 0 where
  pub single : (id : String) → count (is_session id) ns ≤ 1
  pub past : count (λ n. ltb last n.seen) ns ≡ 0

count_own :
    (id j : String) (ns : List Note) → str_eq id j ≡ true → count (is_session j) (forget id ns) ≡ 0
unfolding count forget
count_own id j [] h = refl
count_own id j (n ∷ ns) h =
    ground (arith, count_own id j ns h, eq_iff id j, eq_iff n.session id, eq_iff n.session j)

count_cons :
    (p : Note → Bool) (n : Note) (ks ms : List Note)
    → count p ks ≡ count p ms
    → count p (n ∷ ks) ≡ count p (n ∷ ms)
unfolding count
count_cons p n ks ms h = rw h refl

forget-IsProper :
    (last now : ℕ) (id : String) (ns : List Note)
    → last ≤ now
    → IsProper last ns
    → IsProper now (forget id ns)
forget-IsProper last now id ns h g = record {
  single = λ j. omega (
    arith,
    g.single j,
    count-forget (is_session j) id ns,
    count-le (both (is_session j) (other_than id)) (is_session j) (λ n e. ground arith) ns,
  );
  past =
      count-forget (λ n. ltb now n.seen) id ns
      ∙ count-none (both (λ n. ltb now n.seen) (other_than id)) (λ n. ltb last n.seen)
          (λ n e. ground arith) ns g.past;
}

pub noted-IsProper :
    (last now : ℕ) (w : Write) (ns : List Note)
    → last ≤ now
    → IsProper last ns
    → IsProper now (noted now w ns)
unfolding noted count
noted-IsProper last now (touching id family) ns h g =
    let rest = forget-IsProper last now id ns h g in
    record {
      single = λ j. elim (Bool-cases (str_eq id j)) [
        | inl same ↦ rw (same, count_own id j ns same) (omega arith)
        | inr other ↦ rw other (rest.single j)
      ];
      past = ground (arith, rest.past);
    }
noted-IsProper last now (ending id) ns h g = forget-IsProper last now id ns h g

-- Two rosters are the same to who asks at `now`.
abbrev pub Agree : ℕ → ℕ → List Note → List Note → Type 0
Agree lease now kept ns =
    (p : Note → Bool) → count (both (runs now lease) p) kept ≡ count (both (runs now lease) p) ns

module _ (lease now later : ℕ) (after : now ≤ later) where
  still : (n : Note) → runs later lease n ≡ true → runs now lease n ≡ true
  still n h = ground arith

  -- The other sessions' notes that run later, among those that run now and among all.
  abbrev asked : (Note → Bool) → String → Note → Bool
  asked p id = both (both (runs later lease) p) (other_than id)

  narrows :
      (p : Note → Bool) (id : String) (n : Note)
      → both (runs now lease) (asked p id) n ≡ asked p id n
  narrows p id n = elim (Bool-cases (runs later lease n)) [
    | inl h ↦ rw (still n h) refl
    | inr h ↦ rw h (ground arith)
  ]

  carried :
      (p : Note → Bool) (id : String) (kept ns : List Note)
      → Agree lease now kept ns
      → count (both (runs now lease) (asked p id)) kept
        ≡ count (both (runs later lease) p) (forget id ns)
  carried p id kept ns a =
      a (asked p id)
      ∙ count-ext (both (runs now lease) (asked p id)) (asked p id) (narrows p id) ns
      ∙ sym (count-forget (both (runs later lease) p) id ns)

  -- After a prune, the notes of the others are the same to who asks later.
  Agree-forget :
      (id : String) (kept ns : List Note)
      → Agree lease now kept ns
      → Agree lease later (forget id (keep (runs now lease) kept)) (forget id ns)
  Agree-forget id kept ns a p =
      count-forget (both (runs later lease) p) id (keep (runs now lease) kept)
      ∙ count-keep (asked p id) (runs now lease) kept
      ∙ carried p id kept ns a

  pub Agree-prune :
      (id : String) (kept ns : List Note)
      → Agree lease now kept ns
      → Agree lease later (keep (runs now lease) (forget id kept)) (forget id ns)
  Agree-prune id kept ns a p =
      count-keep (both (runs later lease) p) (runs now lease) (forget id kept)
      ∙ count-forget (both (runs now lease) (both (runs later lease) p)) id kept
      ∙ count-ext (both (both (runs now lease) (both (runs later lease) p)) (other_than id))
          (both (runs now lease) (asked p id)) (λ n. ground arith) kept
      ∙ carried p id kept ns a

  pub Agree-put :
      (id : String) (family : Option String) (kept ns : List Note)
      → Agree lease now kept ns
      → ((j : String) → count (is_session j) ns ≤ 1)
      → Agree lease later
          (put_note
            (record { session = id; seen = now; family = family })
            (keep (runs now lease) kept))
          (noted now (touching id family) ns)
  unfolding noted count
  Agree-put id family kept ns a single p =
      count-put (both (runs later lease) p) (record { session = id; seen = now; family = family })
        (keep (runs now lease) kept)
        (omega (
          arith,
          single id,
          a (is_session id),
          count-keep (is_session id) (runs now lease) kept,
          count-le (both (runs now lease) (is_session id)) (is_session id) (λ n e. ground arith) ns,
        ))
      ∙ count_cons (both (runs later lease) p)
          (record { session = id; seen = now; family = family })
          (forget id (keep (runs now lease) kept)) (forget id ns) (Agree-forget id kept ns a p)

  -- Where nothing was found, an end changes nothing.
  pub Agree-unknown :
      (id : String) (kept ns : List Note)
      → Agree lease now [] ns
      → Agree lease later kept ns
      → Agree lease later kept (forget id ns)
  unfolding count
  Agree-unknown id kept ns a b p =
      b p
      ∙ count-none (both (runs later lease) p) (both (runs now lease) p)
          (λ n e. ground (arith, still n)) ns (sym (a p))
      ∙ sym (
          count-none (asked p id) (both (runs now lease) p) (λ n e. ground (arith, still n)) ns
            (sym (a p)))
      ∙ sym (count-forget (both (runs later lease) p) id ns)

-- Once the leases are over, nothing is the same as the notes.
pub Agree-lapsed :
    (lease now later : ℕ) (ns : List Note)
    → now + lease * units < later
    → count (λ n. ltb now n.seen) ns ≡ 0
    → Agree lease later [] ns
unfolding count
Agree-lapsed lease now later ns h past p =
    sym (count-none (both (runs later lease) p) (λ n. ltb now n.seen) (λ n e. ground arith) ns past)
