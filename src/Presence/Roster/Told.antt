-- ===== src/Presence/Roster/Told.antt =====
-- What the registry shows of a user (presence.py) mirrors the roster, through each write, though a
-- document is pruned, replaced in place and lost with its timeout.
use mathlib.Core.Path.{subst}
use stapel_realtime.Prelude.{
  ℕ, ◌+◌, ◌*◌, ◌≤◌, ◌≢◌, String, Bool, true, false, Option, none, some, List, [], leb, ltb, ◌≡◌,
  refl, ap, sym, ◌∙◌, arith, Bool-cases, inl, inr,
}
use stapel_realtime.Prelude.Int.{pos, leb_ℤ}
use stapel_realtime.Python.{Float, units, Value, null, ok, Texts}
use stapel_realtime.Conf.{Settings}
use stapel_realtime.Authorize.{is_null}
use stapel_realtime.Presence.{Cache, Snapshot, document}
use stapel_realtime.Presence.Registry.{is_live}
use stapel_realtime.Presence.Roster.{
  Note, touching, ending, forget, noted, runs, count, keep, put_note, both, count-ext, count-keep,
}
use stapel_realtime.Presence.Roster.Noted.{sessions, live_among-seens, asked_of}
use stapel_realtime.Presence.Roster.Agreed.{
  IsProper, noted-IsProper, Agree, Agree-prune, Agree-put, Agree-unknown, Agree-lapsed,
}
use stapel_realtime.Presence.Roster.Mirrored.{
  Keeps, Holds, nothing, notes, sessions_of-Holds, lease, key, do_write, touch_writes,
  ending_writes, ending_nothing, own_known, told, tells, asks,
}

module _ (py : Texts) (iso : Float → Option String) (settings : Settings) (cache : Cache)
    (user_id : Value) where
  abbrev time : ℕ
  time = lease py iso settings cache user_id

  abbrev place : String
  place = key py iso settings cache user_id

  pub record Image (now : ℕ) (state : cache.State) (ns : List Note) : Type 0 where
    pub doc : Value
    pub kept : List Note
    pub found : cache.read now place state ≡ ok doc
    pub holds : Holds doc kept
    pub agree : Agree time now kept ns

  pub record Mirrors (last : ℕ) (state : cache.State) (ns : List Note) : Type 0 where
    pub proper : IsProper last ns
    pub image : (now : ℕ) → last ≤ now → Image now state ns

  -- A document that was just written shows its notes to who asks later, and none past its timeout.
  images :
      (laws : Keeps cache place) (now later : ℕ) (after : cache.State) (new ns : List Note)
      → laws.held after ≡ some (document (sessions new) now, now + time * units)
      → Agree time later new ns
      → count (λ n. ltb now n.seen) ns ≡ 0
      → Image later after ns
  images laws now later after new ns h a past = elim (Bool-cases (leb later (now + time * units))) [
    | inl soon ↦ record {
      doc = document (sessions new) now;
      kept = new;
      found = laws.reads later after ∙ rw (h, soon) refl;
      holds = notes new now;
      agree = a;
    }
    | inr late ↦ record {
      doc = null;
      kept = [];
      found = laws.reads later after ∙ rw (h, late) refl;
      holds = nothing;
      agree = Agree-lapsed time now later ns (ground arith) past;
    }
  ]

  module _ (on : leb_ℤ settings.presence_ttl_s (pos 0) ≡ false) (known : is_null user_id ≡ false)
      (opens : cache.opens ≡ true) (laws : Keeps cache place) where
    pub touch-Mirrors :
        (last now : ℕ) (id : String) (family : Option String) (state : cache.State) (ns : List Note)
        → last ≤ now
        → id ≢ ""
        → Mirrors last state ns
        → Mirrors now
            (do_write py iso settings cache user_id now (touching id family) state)
            (noted now (touching id family) ns)
    unfolding do_write noted
    touch-Mirrors last now id family state ns h n m =
        let i = m.image now h in
        let new =
          put_note (record { session = id; seen = now; family = family })
            (keep (runs now time) i.kept) in
        let (after, w, hd) = laws.writes now time (document (sessions new) now) state in
        let done =
          touch_writes py iso settings cache user_id on known opens now id family state after i.doc
            i.kept n i.found (sessions_of-Holds i.doc i.kept i.holds) w in
        let proper = noted-IsProper last now (touching id family) ns h m.proper in
        record {
          proper = proper;
          image = λ later l.
              subst (λ st. Image later st (noted now (touching id family) ns))
                (sym (ap (λ (r : Bool × cache.State). r.1) done))
                (images laws now later after new (noted now (touching id family) ns) hd
                  (Agree-put time now later l id family i.kept ns i.agree m.proper.single)
                  proper.past);
        }

    pub ending-Mirrors :
        (last now : ℕ) (id : String) (state : cache.State) (ns : List Note)
        → last ≤ now
        → id ≢ ""
        → Mirrors last state ns
        → Mirrors now
            (do_write py iso settings cache user_id now (ending id) state)
            (noted now (ending id) ns)
    unfolding do_write noted
    ending-Mirrors last now id state ns h n m =
        let i = m.image now h in ends i.doc i.kept i.holds i.found i.agree
      where
        proper : IsProper now (forget id ns)
        proper = noted-IsProper last now (ending id) ns h m.proper

        ends :
            (doc : Value) (kept : List Note)
            → Holds doc kept
            → cache.read now place state ≡ ok doc
            → Agree time now kept ns
            → Mirrors now
                (do_write py iso settings cache user_id now (ending id) state)
                (forget id ns)
        ends _ _ nothing found agree = record {
          proper = proper;
          image = λ later l.
              let i = m.image later (omega arith) in
              subst (λ st. Image later st (forget id ns))
                (sym (
                  ap (λ (r : Bool × cache.State). r.1)
                    (ending_nothing py iso settings cache user_id on known opens now id state n
                      found)))
                (record {
                  doc = i.doc;
                  kept = i.kept;
                  found = i.found;
                  holds = i.holds;
                  agree = Agree-unknown time now later l id i.kept ns agree i.agree;
                });
        }
        ends _ _ (notes kept written) found agree =
            let new = keep (runs now time) (forget id kept) in
            let (after, w, hd) = laws.writes now time (document (sessions new) now) state in
            let done =
              ending_writes py iso settings cache user_id on known opens now id state after kept
                written n found w in
            record {
              proper = proper;
              image = λ later l.
                  subst (λ st. Image later st (forget id ns))
                    (sym (ap (λ (r : Bool × cache.State). r.1) done))
                    (images laws now later after new (forget id ns) hd
                      (Agree-prune time now later l id kept ns agree) proper.past);
            }

    -- What the registry answers.
    pub answers :
        (later : ℕ) (asked : Option String) (state : cache.State) (ns : List Note)
        → Image later state ns
        → (snap : Snapshot) × (is_live py iso settings cache later user_id asked state ≡ ok snap)
          × (snap.sessions ≡ count (both (runs later time) (asked_of asked)) ns)
          × (snap.live ≡ ltb 0 snap.sessions)
    answers later asked state ns i =
        let (own, o) =
          own_known py iso settings cache user_id on known opens i.doc i.kept asked i.holds in
        (
          told py iso settings cache user_id on known opens later asked i.kept own,
          asks py iso settings cache user_id on known opens later asked state i.doc i.found
              ∙ tells py iso settings cache user_id on known opens i.doc i.kept asked later own
                  i.holds o,
          live_among-seens later time (keep (asked_of asked) i.kept)
              ∙ count-keep (runs later time) (asked_of asked) i.kept
              ∙ count-ext (both (asked_of asked) (runs later time))
                  (both (runs later time) (asked_of asked)) (λ n. ground arith) i.kept
              ∙ i.agree (asked_of asked),
          refl,
        )

    pub starts : (state : cache.State) → laws.held state ≡ none → Mirrors 0 state []
    unfolding count
    starts state h = record {
      proper = record { single = λ id. omega arith; past = refl };
      image = λ now l. record {
        doc = null;
        kept = [];
        found = laws.reads now state ∙ rw h refl;
        holds = nothing;
        agree = λ p. refl;
      };
    }
