-- ===== src/Consumer/Watched/Since.antt =====
-- A socket among those of a fleet: its connect (consumers.py), what the registry keeps of it while
-- others write (presence.py), and what another service is told (functions.py).
use stapel_realtime.Prelude.{
  ℕ, ◌+◌, ◌*◌, ◌≤◌, String, true, false, Option, none, some, [], ◌∷◌, ◌++◌, lt→ltb, ◌≡◌, refl, ap,
  sym, ◌∙◌, arith,
}
use stapel_realtime.Prelude.Int.{pos, leb_ℤ}
use stapel_realtime.Python.{Float, units, ok}
use stapel_realtime.Authorize.{is_null}
use stapel_realtime.Presence.{Cache, Snapshot}
use stapel_realtime.Presence.Roster.{touching}
use stapel_realtime.Presence.Roster.Mirrored.{Keeps, key, lease, do_write}
use stapel_realtime.Presence.Roster.Fleet.{History, AreInTurn, do_writes, is_live_refines}
use stapel_realtime.Presence.Roster.Lasting.{AreNoEnds, since_runs}
use stapel_realtime.Functions
use stapel_realtime.Consumer.State.{Socket, Context}
use stapel_realtime.Consumer.Heartbeat.{user_id, presence_family}
use stapel_realtime.Consumer.Lifecycle.{connect}
use stapel_realtime.Consumer.Lifecycle.Connect.{IsAdmitted}
use stapel_realtime.Consumer.Watched.{presence_writes, connect_trace, question, asked_by_text}

module _ (cx : Context) (iso : Float → Option String) (cache : Cache) (now later : ℕ) where
  connect_writes :
      (s : Socket) (a : IsAdmitted cx) (family : Option String) (state : cache.State)
      → presence_family cx (some a.key) ≡ ok family
      → presence_writes cx iso cache now (connect cx s).1.trace state
        ≡ do_write cx.py iso cx.settings cache
            (user_id cx)
            now
            (touching cx.channel_name family)
            state
  unfolding presence_writes do_write
  connect_writes s a family state f =
      ap (λ es. presence_writes cx iso cache now es state) (connect_trace cx s a family f)

  do_writes-append :
      (ws vs : History) (state : cache.State)
      → do_writes cx.py iso cx.settings cache (ws ++ vs) state
        ≡ do_writes cx.py iso cx.settings cache vs (do_writes cx.py iso cx.settings cache ws state)
  unfolding do_writes
  do_writes-append [] vs state = refl
  do_writes-append ((user, at, w) ∷ ws) vs state = do_writes-append ws vs _

  -- From its connect on, for as long as the lease runs that it was given, an admitted socket makes
  -- its user live, whatever the sockets of the fleet wrote before and write since, as long as none
  -- ends this session and nobody writes between the read and the write of a connect, a heartbeat or
  -- a disconnect, which the code does not ensure: `realtime.is_live` tells so whoever asks by the
  -- text of the user's id. (The registry is on, the user has an id, the presence family is known,
  -- each session has a name, the times ascend, and the cache has no document of the user at first,
  -- keeps one from each write until its timeout, and does not touch it in a write of another.)
  pub stays_live :
      (s : Socket) (a : IsAdmitted cx) (family : Option String) (earlier since : History)
      (state : cache.State) (laws : Keeps cache (key cx.py iso cx.settings cache (user_id cx)))
      → leb_ℤ cx.settings.presence_ttl_s (pos 0) ≡ false
      → is_null (user_id cx) ≡ false
      → cache.opens ≡ true
      → presence_family cx (some a.key) ≡ ok family
      → laws.held state ≡ none
      → AreInTurn 0 (earlier ++ (user_id cx, now, touching cx.channel_name family) ∷ since) later
      → AreNoEnds cx.channel_name since
      → later ≤ now + lease cx.py iso cx.settings cache (user_id cx) * units
      → (snap : Snapshot) × (Functions.is_live cx.py iso cx.settings cache later (question cx) (
            do_writes cx.py iso cx.settings cache since (
              presence_writes cx iso cache now
                (connect cx s).1.trace
                (do_writes cx.py iso cx.settings cache earlier state)))
          ≡ ok snap)
        × (snap.live ≡ true)
  unfolding do_writes
  stays_live s a family earlier since state laws on known opens f h turn ends soon =
      let history = earlier ++ (user_id cx, now, touching cx.channel_name family) ∷ since in
      let (snap, told, sessions, live) =
        is_live_refines cx.py iso cx.settings cache (user_id cx) laws on known opens history later
          none state h turn in
      let here = do_writes cx.py iso cx.settings cache earlier state in
      let same =
        ap (do_writes cx.py iso cx.settings cache since) (connect_writes s a family here f)
        ∙ sym (
            do_writes-append earlier ((user_id cx, now, touching cx.channel_name family) ∷ since)
              state) in
      let counted =
        since_runs cx.py iso cx.settings cache (user_id cx) cx.channel_name family now later
          (lease cx.py iso cx.settings cache (user_id cx)) earlier since known turn ends soon in
      (
        snap,
        ap (Functions.is_live cx.py iso cx.settings cache later (question cx)) same
            ∙ asked_by_text cx iso cache later (do_writes cx.py iso cx.settings cache history state)
                known
            ∙ told,
        live ∙ lt→ltb 0 snap.sessions (omega (arith, sessions, counted)),
      )
