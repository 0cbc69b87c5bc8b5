-- ===== src/Presence/Roster/Fleet.antt =====
-- The registry and the roster over the history of a fleet (presence.py): the writes of all sockets of
-- all users, in the order of their times, each with nothing between its read and its write.
use stapel_realtime.Prelude.{
  ℕ, ◌≤◌, ◌≢◌, String, Bool, true, false, not, ◌&&◌, Option, none, List, [], ◌∷◌, ltb, str_eq,
  eq_iff, ◌≡◌, refl, ap, sym, ◌∙◌, arith, Bool-cases, inl, inr, if◌then◌else◌,
}
use stapel_realtime.Prelude.Int.{pos, leb_ℤ}
use stapel_realtime.Python.{Float, Value, ok, Texts}
use stapel_realtime.Conf.{Settings}
use stapel_realtime.Authorize.{is_null}
use stapel_realtime.Presence.{Cache, Snapshot, user_key}
use stapel_realtime.Presence.Registry.{is_live}
use stapel_realtime.Presence.Roster.{
  Note, Write, touching, ending, noted, roster, runs, count, both, count-none,
}
use stapel_realtime.Presence.Roster.Noted.{asked_of}
use stapel_realtime.Presence.Roster.Mirrored.{unexpired, Keeps, IsNamed, key, lease, do_write}
use stapel_realtime.Presence.Roster.Told.{
  Image, Mirrors, touch-Mirrors, ending-Mirrors, answers, starts,
}
use stapel_realtime.Presence.Roster.Apart.{write_apart, write_nobody, write_same}

-- A user, a time and a write.
abbrev pub History : Type 0
History = List (Value × ℕ × Write)

-- The times ascend up to `later`, and each session has a name.
abbrev pub AreInTurn : ℕ → History → ℕ → Type 0
AreInTurn last [] later = last ≤ later
AreInTurn last ((_, now, w) ∷ ws) later = (last ≤ now) × IsNamed w × AreInTurn now ws later

differs : (a b : String) → str_eq a b ≡ false → a ≢ b
differs a b h e = ground (arith, eq_iff a b)

module _ (py : Texts) (iso : Float → Option String) (settings : Settings) (cache : Cache) where
  unfoldable pub do_writes : History → cache.State → cache.State
  unfolding do_write
  do_writes [] state = state
  do_writes ((user, now, w) ∷ ws) state =
      do_writes ws (do_write py iso settings cache user now w state)

  -- Two ids of one user: they have the same document.
  abbrev pub is_same : Value → Value → Bool
  is_same user_id user =
      not (is_null user) && str_eq (user_key py iso user) (user_key py iso user_id)

  unfoldable pub own : Value → History → List (ℕ × Write)
  own user_id [] = []
  own user_id ((user, now, w) ∷ ws) =
      let rest = own user_id ws in if is_same user_id user then (now, w) ∷ rest else rest

  module _ (user_id : Value) (laws : Keeps cache (key py iso settings cache user_id)) where
    -- What leaves the user's document as it is leaves it a mirror.
    unwritten-Mirrors :
        (last now : ℕ) (before after : cache.State) (ns : List Note)
        → last ≤ now
        → laws.held after ≡ laws.held before
        → Mirrors py iso settings cache user_id last before ns
        → Mirrors py iso settings cache user_id now after ns
    unwritten-Mirrors last now before after ns h e m = record {
      proper = record {
        single = m.proper.single;
        past =
            count-none (λ n. ltb now n.seen) (λ n. ltb last n.seen) (λ n g. ground arith) ns
              m.proper.past;
      };
      image = λ later l.
          let i = m.image later (omega arith) in
          record {
            doc = i.doc;
            kept = i.kept;
            found =
                laws.reads later after
                ∙ ap (λ held. ok (unexpired later held)) e
                ∙ sym (laws.reads later before)
                ∙ i.found;
            holds = i.holds;
            agree = i.agree;
          };
    }

    module _ (on : leb_ℤ settings.presence_ttl_s (pos 0) ≡ false) (known : is_null user_id ≡ false)
        (opens : cache.opens ≡ true) where
      own-Mirrors :
          (last now : ℕ) (w : Write) (state : cache.State) (ns : List Note)
          → last ≤ now
          → IsNamed w
          → Mirrors py iso settings cache user_id last state ns
          → Mirrors py iso settings cache user_id now
              (do_write py iso settings cache user_id now w state)
              (noted now w ns)
      own-Mirrors last now (touching id family) state ns h n m =
          touch-Mirrors py iso settings cache user_id on known opens laws last now id family state
            ns h n m
      own-Mirrors last now (ending id) state ns h n m =
          ending-Mirrors py iso settings cache user_id on known opens laws last now id state ns h n
            m

      pub writes-Mirrors :
          (last later : ℕ) (ws : History) (state : cache.State) (ns : List Note)
          → AreInTurn last ws later
          → Mirrors py iso settings cache user_id last state ns
          → Image py iso settings cache user_id later
              (do_writes ws state)
              (roster (own user_id ws) ns)
      unfolding do_writes own roster
      writes-Mirrors last later [] state ns h m = m.image later h
      writes-Mirrors last later ((user, now, w) ∷ ws) state ns h m =
          elim (Bool-cases (is_null user)) [
            | inl nobody ↦
                rw (nobody, write_nobody py iso settings cache user_id laws now user w state nobody)
                  (writes-Mirrors now later ws state ns h.2
                    (unwritten-Mirrors last now state state ns h.0 refl m))
            | inr somebody ↦
                elim (Bool-cases (str_eq (user_key py iso user) (user_key py iso user_id))) [
                  | inl same ↦
                      rw
                        (
                          somebody,
                          same,
                          write_same py iso settings cache user_id laws now user w state
                              (somebody ∙ sym known)
                              ((eq_iff (user_key py iso user) (user_key py iso user_id)).0 same),
                        )
                        (writes-Mirrors now later ws _ (noted now w ns) h.2
                          (own-Mirrors last now w state ns h.0 h.1 m))
                  | inr other ↦
                      rw (somebody, other)
                        (writes-Mirrors now later ws _ ns h.2 (
                          unwritten-Mirrors last now state _ ns h.0
                            (write_apart py iso settings cache user_id laws now user w state
                              (differs (user_key py iso user) (user_key py iso user_id) other))
                            m))
                ]
          ]

      -- In a fleet whose sockets write the registry one after another, so that nobody writes between
      -- the read and the write of a connect, a heartbeat or a disconnect, which the code does not
      -- ensure, `is_live` counts of a user exactly the sessions, of the family that is asked
      -- for, whose last write was a connect or a heartbeat within a lease, and says that the user is
      -- live exactly when there is one. (The registry is on, the user has an id and each session a
      -- name, the times ascend, and the cache has no document of the user at first; it keeps one from
      -- each write until its timeout, and a write of another document does not touch it.)
      pub is_live_refines :
          (ws : History) (later : ℕ) (asked : Option String) (state : cache.State)
          → laws.held state ≡ none
          → AreInTurn 0 ws later
          → (snap : Snapshot) × (is_live py iso settings cache later user_id asked
                (do_writes ws state)
              ≡ ok snap)
            × (snap.sessions
                ≡ count
                    (both (runs later (lease py iso settings cache user_id)) (asked_of asked))
                    (roster (own user_id ws) []))
            × (snap.live ≡ ltb 0 snap.sessions)
      is_live_refines ws later asked state h turn =
          answers py iso settings cache user_id on known opens laws later asked (do_writes ws state)
            (roster (own user_id ws) [])
            (writes-Mirrors 0 later ws state [] turn
              (starts py iso settings cache user_id on known opens laws state h))
