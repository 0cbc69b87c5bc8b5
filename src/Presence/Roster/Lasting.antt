-- ===== src/Presence/Roster/Lasting.antt =====
-- A session that wrote stays on the roster until it ends (presence.py), whatever a fleet writes
-- meanwhile.
use stapel_realtime.Prelude.{
  ℕ, ◌+◌, ◌*◌, ◌≤◌, ◌≢◌, String, Bool, true, false, ◌&&◌, Option, none, List, [], ◌∷◌, ◌++◌, leb,
  str_eq, eq_iff, ◌≡◌, refl, ◌∙◌, arith, Bool-cases, inl, inr,
}
use stapel_realtime.Python.{Float, units, Value, Texts}
use stapel_realtime.Conf.{Settings}
use stapel_realtime.Authorize.{is_null}
use stapel_realtime.Presence.{Cache, user_key}
use stapel_realtime.Presence.Roster.{
  Note, Write, touching, ending, forget, noted, roster, runs, count, both, other_than, count-ext,
  count-forget, count-le,
}
use stapel_realtime.Presence.Roster.Noted.{asked_of}
use stapel_realtime.Presence.Roster.Fleet.{History, AreInTurn, own, is_same}

-- The session wrote at `since` or later.
abbrev lasts : String → ℕ → Note → Bool
lasts id since n = str_eq n.session id && leb since n.seen

abbrev IsNoEnd : String → Write → Type 0
IsNoEnd id (touching j family) = Unit
IsNoEnd id (ending j) = j ≢ id

-- None of the writes ends the session.
abbrev pub AreNoEnds : String → History → Type 0
AreNoEnds id [] = Unit
AreNoEnds id ((_, _, w) ∷ ws) = IsNoEnd id w × AreNoEnds id ws

other_kept :
    (id j : String) (since : ℕ) (ns : List Note)
    → j ≢ id
    → count (lasts id since) (forget j ns) ≡ count (lasts id since) ns
other_kept id j since ns h =
    count-forget (lasts id since) j ns
    ∙ count-ext (both (lasts id since) (other_than j)) (lasts id since)
        (λ n. ground (arith, eq_iff n.session id, eq_iff n.session j)) ns

noted-lasts :
    (id : String) (since now : ℕ) (w : Write) (ns : List Note)
    → since ≤ now
    → IsNoEnd id w
    → 1 ≤ count (lasts id since) ns
    → 1 ≤ count (lasts id since) (noted now w ns)
unfolding noted count
noted-lasts id since now (touching j family) ns h e c = elim (Bool-cases (str_eq j id)) [
  | inl same ↦ rw same (ground arith)
  | inr other ↦ rw (other, other_kept id j since ns (λ s. ground (arith, eq_iff j id))) c
]
noted-lasts id since now (ending j) ns h e c = rw (other_kept id j since ns e) c

first_lasts :
    (id : String) (now : ℕ) (family : Option String) (ns : List Note)
    → 1 ≤ count (lasts id now) (noted now (touching id family) ns)
unfolding noted count
first_lasts id now family ns = ground (arith, eq_iff id id)

module _ (py : Texts) (iso : Float → Option String) (settings : Settings) (cache : Cache)
    (user_id : Value) (id : String) (family : Option String) (now later : ℕ) where
  after_lasts :
      (last : ℕ) (ws : History) (ns : List Note)
      → now ≤ last
      → AreInTurn last ws later
      → AreNoEnds id ws
      → 1 ≤ count (lasts id now) ns
      → 1 ≤ count (lasts id now) (roster (own py iso settings cache user_id ws) ns)
  unfolding own roster
  after_lasts last [] ns h t e c = c
  after_lasts last ((user, at, w) ∷ ws) ns h t e c =
      elim (Bool-cases (is_same py iso settings cache user_id user)) [
        | inl same ↦ rw same (
            after_lasts at ws (noted at w ns) (omega (arith, t.0)) t.2 e.1
              (noted-lasts id now at w ns (omega (arith, t.0)) e.0 c))
        | inr other ↦ rw other (after_lasts at ws ns (omega (arith, t.0)) t.2 e.1 c)
      ]

  same_self : is_null user_id ≡ false → is_same py iso settings cache user_id user_id ≡ true
  same_self known =
      rw (known, (eq_iff (user_key py iso user_id) (user_key py iso user_id)).1 refl) refl

  since_lasts :
      (last : ℕ) (earlier ws : History) (ns : List Note)
      → is_null user_id ≡ false
      → AreInTurn last (earlier ++ (user_id, now, touching id family) ∷ ws) later
      → AreNoEnds id ws
      → 1
        ≤ count (lasts id now) (
            roster
              (own py iso settings cache user_id
                (earlier ++ (user_id, now, touching id family) ∷ ws))
              ns)
  unfolding own roster
  since_lasts last [] ws ns known t e = rw (same_self known) (
      after_lasts now ws (noted now (touching id family) ns) (omega arith) t.2 e
        (first_lasts id now family ns))
  since_lasts last ((user, at, w) ∷ earlier) ws ns known t e =
      elim (Bool-cases (is_same py iso settings cache user_id user)) [
        | inl same ↦ rw same (since_lasts at earlier ws (noted at w ns) known t.2 e)
        | inr other ↦ rw other (since_lasts at earlier ws ns known t.2 e)
      ]

  -- A session that wrote within a lease and that nothing has ended is among those that run.
  pub since_runs :
      (lease : ℕ) (earlier ws : History)
      → is_null user_id ≡ false
      → AreInTurn 0 (earlier ++ (user_id, now, touching id family) ∷ ws) later
      → AreNoEnds id ws
      → later ≤ now + lease * units
      → 1
        ≤ count (both (runs later lease) (asked_of none)) (
            roster
              (own py iso settings cache user_id
                (earlier ++ (user_id, now, touching id family) ∷ ws))
              [])
  since_runs lease earlier ws known t e soon =
      let history = earlier ++ (user_id, now, touching id family) ∷ ws in
      let notes = roster (own py iso settings cache user_id history) [] in
      omega (
        arith,
        since_lasts 0 earlier ws [] known t e,
        count-le (lasts id now) (both (runs later lease) (asked_of none)) (λ n h. ground arith)
            notes,
      )
