-- ===== src/Presence/Roster/Overlap.antt =====
-- Two writes of the registry at once (presence.py): other sockets write between the read and the
-- write of a connect or a heartbeat, which Django's cache cannot do in one step.
use stapel_realtime.Prelude.{
  ℕ, ◌+◌, ◌*◌, ◌≢◌, String, true, false, Option, none, some, [], ◌∷◌, ◌++◌, ltb, ◌≡◌, refl, ap, sym,
  ◌∙◌,
}
use stapel_realtime.Prelude.Int.{pos, leb_ℤ}
use stapel_realtime.Python.{Float, units, Value, Result, ok, Texts}
use stapel_realtime.Conf.{Settings}
use stapel_realtime.Authorize.{is_null}
use stapel_realtime.Presence.{Cache, Snapshot, document}
use stapel_realtime.Presence.Registry.{draft_touch, commit, touch, is_live}
use stapel_realtime.Presence.Roster.{Note, touching, roster, runs, count, keep, both, put_note}
use stapel_realtime.Presence.Roster.Noted.{sessions, asked_of}
use stapel_realtime.Presence.Roster.Mirrored.{
  unexpired, Keeps, sessions_of-Holds, lease, key, do_write, touch_drafts, asks,
}
use stapel_realtime.Presence.Roster.Told.{starts}
use stapel_realtime.Presence.Roster.Fleet.{
  History, AreInTurn, do_writes, own, writes-Mirrors, is_live_refines,
}

before_last :
    (ws : History) (user : Value) (last now later : ℕ) (id : String) (family : Option String)
    → AreInTurn last (ws ++ (user, now, touching id family) ∷ []) later
    → AreInTurn last ws now × (id ≢ "")
before_last [] user last now later id family h = (h.0, h.1)
before_last ((_, at, w) ∷ ws) user last now later id family h =
    let (earlier, named) = before_last ws user at now later id family h.2 in
    ((h.0, h.1, earlier), named)

module _ (py : Texts) (iso : Float → Option String) (settings : Settings) (cache : Cache)
    (user_id : Value) (laws : Keeps cache (key py iso settings cache user_id))
    (on : leb_ℤ settings.presence_ttl_s (pos 0) ≡ false) (known : is_null user_id ≡ false)
    (opens : cache.opens ≡ true) where
  do_writes-append :
      (ws vs : History) (state : cache.State)
      → do_writes py iso settings cache (ws ++ vs) state
        ≡ do_writes py iso settings cache vs (do_writes py iso settings cache ws state)
  unfolding do_writes
  do_writes-append [] vs state = refl
  do_writes-append ((user, at, w) ∷ ws) vs state = do_writes-append ws vs _

  -- What the registry answers depends on what the cache holds for the user.
  same_answer :
      (later : ℕ) (asked : Option String) (s t : cache.State)
      → laws.held s ≡ laws.held t
      → is_live py iso settings cache later user_id asked s
        ≡ is_live py iso settings cache later user_id asked t
  same_answer later asked s t h =
      asks py iso settings cache user_id on known opens later asked s
        (unexpired later (laws.held s)) (laws.reads later s)
      ∙ sym (
          asks py iso settings cache user_id on known opens later asked t
            (unexpired later (laws.held s))
            (laws.reads later t ∙ ap (λ held. ok (unexpired later held)) (sym h)))

  -- A commit writes over whatever is there.
  committed :
      (now : ℕ) (doc : Value) (r : Result (Option Value)) (state : cache.State)
      → r ≡ ok (some doc)
      → laws.held (commit py iso settings cache now user_id r state).1
        ≡ some (doc, now + lease py iso settings cache user_id * units)
  unfolding commit
  committed now doc r state h =
      let (after, w, held) = laws.writes now (lease py iso settings cache user_id) doc state in
      rw (h, w) held

  -- A connect or a heartbeat loses what was written between its read and its write: whatever state
  -- the cache has come to in between, once the write is done `is_live` counts of the user exactly the
  -- sessions, of the family that is asked for, whose last write up to the read was a connect or a
  -- heartbeat within a lease, and the session that now wrote. So a session that was added in between
  -- is not counted, and one that ended in between is counted again. (The registry is on, the user has
  -- an id and each session a name; up to the read, the times ascend and one write ends before the
  -- next begins; and the cache has no document of the user at first, keeps one from each write until
  -- its timeout, and does not touch it in a write of another.)
  pub overlap_forgets :
      (ws : History) (now later : ℕ) (id : String) (family asked : Option String)
      (state between : cache.State)
      → laws.held state ≡ none
      → AreInTurn 0 (ws ++ (user_id, now, touching id family) ∷ []) later
      → (snap : Snapshot) × (is_live py iso settings cache later user_id asked
            (commit py iso settings cache now user_id
              (draft_touch py iso settings cache now user_id id family
                (do_writes py iso settings cache ws state))
              between).1
          ≡ ok snap)
        × (snap.sessions
            ≡ count (both (runs later (lease py iso settings cache user_id)) (asked_of asked)) (
                roster
                  (own py iso settings cache user_id
                    (ws ++ (user_id, now, touching id family) ∷ []))
                  []))
        × (snap.live ≡ ltb 0 snap.sessions)
  unfolding do_writes do_write touch
  overlap_forgets ws now later id family asked state between h turn =
      let (earlier, named) = before_last ws user_id 0 now later id family turn in
      let start = starts py iso settings cache user_id on known opens laws state h in
      let i =
        writes-Mirrors py iso settings cache user_id laws on known opens 0 now ws state [] earlier
          start in
      let here = do_writes py iso settings cache ws state in
      let new : Note = record { session = id; seen = now; family = family } in
      let kept = keep (runs now (lease py iso settings cache user_id)) i.kept in
      let draft = draft_touch py iso settings cache now user_id id family here in
      let doc = document (sessions (put_note new kept)) now in
      let drafted =
        touch_drafts py iso settings cache user_id on known opens now id family here i.doc i.kept
          named i.found (sessions_of-Holds i.doc i.kept i.holds) in
      let (snap, told, sessions_counted, live) =
        is_live_refines py iso settings cache user_id laws on known opens
          (ws ++ (user_id, now, touching id family) ∷ []) later asked state h turn in
      (
        snap,
        same_answer later asked _ _
              (committed now doc draft between drafted ∙ sym (committed now doc draft here drafted))
            ∙ ap (is_live py iso settings cache later user_id asked)
                (sym (do_writes-append ws ((user_id, now, touching id family) ∷ []) state))
            ∙ told,
        sessions_counted,
        live,
      )
