-- ===== src/Presence/Roster/Mirrored.antt =====
-- The writes of a user's sessions, one after another, on a cache that keeps what is written
-- (presence.py), and what each writes for the notes that it finds.
use stapel_realtime.Prelude.{
  ℕ, ◌+◌, ◌*◌, ◌≢◌, String, true, false, Option, none, some, List, [], length, leb, ltb, str_eq,
  eq_iff, ◌≡◌, refl, arith, if◌then◌else◌,
}
use stapel_realtime.Prelude.Int.{pos, pos_part, leb_ℤ}
use stapel_realtime.Python.{Float, units, Value, null, ok, Texts}
use stapel_realtime.Conf.{Settings}
use stapel_realtime.Authorize.{is_null}
use stapel_realtime.Presence.{
  Cache, Snapshot, document, user_key, sessions_of, document_seen, live_among, latest, snapshot,
}
use stapel_realtime.Presence.Registry.{
  is_skipped, draft_touch, commit, touch, record_disconnect, is_live,
}
use stapel_realtime.Presence.Lease.{sessions_of-document, own_seen}
use stapel_realtime.Presence.Roster.{Note, Write, touching, ending, forget, runs, keep, put_note}
use stapel_realtime.Presence.Roster.Noted.{
  sessions, seens, sessions-put, sessions-forget, prune-sessions, seens_of-matching, asked_of,
}

abbrev pub unexpired : ℕ → Option (Value × ℕ) → Value
unexpired now none = null
unexpired now (some (doc, until)) = if leb now until then doc else null

-- A cache that works, at one key: a write replaces what it holds, a read gives that until its timeout
-- has passed, and a write elsewhere changes nothing here.
pub record Keeps (cache : Cache) (key : String) : Type 0 where
  pub held : cache.State → Option (Value × ℕ)
  pub writes :
      (now timeout : ℕ) (doc : Value) (state : cache.State)
      → (after : cache.State) × (cache.write now key doc timeout state ≡ ok after)
        × (held after ≡ some (doc, now + timeout * units))
  pub reads :
      (now : ℕ) (state : cache.State) → cache.read now key state ≡ ok (unexpired now (held state))
  pub apart :
      (now timeout : ℕ) (other : String) (doc : Value) (state after : cache.State)
      → other ≢ key
      → cache.write now other doc timeout state ≡ ok after
      → held after ≡ held state

-- A write names its session.
abbrev pub IsNamed : Write → Type 0
IsNamed (touching id family) = id ≢ ""
IsNamed (ending id) = id ≢ ""

-- What is read: nothing, or a document that was written.
pub data Holds : Value → List Note → Type 0 where
  nothing : Holds null []
  notes : (kept : List Note) (now : ℕ) → Holds (document (sessions kept) now) kept

pub sessions_of-Holds :
    (doc : Value) (kept : List Note) → Holds doc kept → sessions_of doc ≡ sessions kept
unfolding sessions_of
sessions_of-Holds _ _ nothing = refl
sessions_of-Holds _ _ (notes kept now) = sessions_of-document (sessions kept) now

module _ (py : Texts) (iso : Float → Option String) (settings : Settings) (cache : Cache)
    (user_id : Value) where
  abbrev pub lease : ℕ
  lease = pos_part settings.presence_ttl_s

  abbrev pub key : String
  key = user_key py iso user_id

  unfoldable pub do_write : ℕ → Write → cache.State → cache.State
  unfolding touch record_disconnect
  do_write now (touching id family) state =
      (touch py iso settings cache now user_id id family state).1
  do_write now (ending id) state = (record_disconnect py iso settings cache now user_id id state).1

  module _ (on : leb_ℤ settings.presence_ttl_s (pos 0) ≡ false) (known : is_null user_id ≡ false)
      (opens : cache.opens ≡ true) where
    not_skipped :
        (now : ℕ) (id : String) → id ≢ "" → is_skipped py iso settings cache now user_id id ≡ false
    unfolding is_skipped
    not_skipped now id n = rw (on, known, opens, unnamed) refl
      where
        unnamed : str_eq id "" ≡ false
        unnamed = ground (arith, eq_iff id "")

    pub touch_drafts :
        (now : ℕ) (id : String) (family : Option String) (state : cache.State) (doc : Value)
        (kept : List Note)
        → id ≢ ""
        → cache.read now key state ≡ ok doc
        → sessions_of doc ≡ sessions kept
        → draft_touch py iso settings cache now user_id id family state
          ≡ ok (
              some (
                document
                  (sessions (
                    put_note
                      (record { session = id; seen = now; family = family })
                      (keep (runs now lease) kept)))
                  now))
    unfolding draft_touch
    touch_drafts now id family state doc kept n found h =
        rw
          (
            not_skipped now id n,
            found,
            h,
            prune-sessions py iso now lease kept,
            sessions-put now id family (keep (runs now lease) kept),
          )
          refl

    pub touch_writes :
        (now : ℕ) (id : String) (family : Option String) (state after : cache.State) (doc : Value)
        (kept : List Note)
        → id ≢ ""
        → cache.read now key state ≡ ok doc
        → sessions_of doc ≡ sessions kept
        → cache.write now key
            (document
              (sessions (
                put_note
                  (record { session = id; seen = now; family = family })
                  (keep (runs now lease) kept)))
              now)
            lease
            state
          ≡ ok after
        → touch py iso settings cache now user_id id family state ≡ (true, after)
    unfolding touch commit
    touch_writes now id family state after doc kept n found h w =
        rw (touch_drafts now id family state doc kept n found h, w) refl

    pub ending_writes :
        (now : ℕ) (id : String) (state after : cache.State) (kept : List Note) (written : ℕ)
        → id ≢ ""
        → cache.read now key state ≡ ok (document (sessions kept) written)
        → cache.write now key
            (document (sessions (keep (runs now lease) (forget id kept))) now)
            lease
            state
          ≡ ok after
        → record_disconnect py iso settings cache now user_id id state ≡ (true, after)
    unfolding record_disconnect document
    ending_writes now id state after kept written n found w =
        rw
          (
            not_skipped now id n,
            found,
            sessions_of-document (sessions kept) written,
            sessions-forget id kept,
            prune-sessions py iso now lease (forget id kept),
            w,
          )
          refl

    pub ending_nothing :
        (now : ℕ) (id : String) (state : cache.State)
        → id ≢ ""
        → cache.read now key state ≡ ok null
        → record_disconnect py iso settings cache now user_id id state ≡ (false, state)
    unfolding record_disconnect
    ending_nothing now id state n found = rw (not_skipped now id n, found) refl

    pub own_known :
        (doc : Value) (kept : List Note) (asked : Option String)
        → Holds doc kept
        → (own : List Float) × (document_seen py iso doc asked ≡ ok own)
    unfolding document_seen document
    own_known _ _ asked nothing = ([], refl)
    own_known _ _ none (notes kept now) = own_seen py iso now (sessions kept)
    own_known _ _ (some family) (notes kept now) = ([], refl)

    abbrev pub told : ℕ → Option String → List Note → List Float → Snapshot
    told later asked kept own = record {
      live = ltb 0 (length (live_among later lease (seens (keep (asked_of asked) kept))));
      sessions = length (live_among later lease (seens (keep (asked_of asked) kept)));
      last_seen = latest py iso (seens (keep (asked_of asked) kept)) own;
    }

    pub tells :
        (doc : Value) (kept : List Note) (asked : Option String) (later : ℕ) (own : List Float)
        → Holds doc kept
        → document_seen py iso doc asked ≡ ok own
        → snapshot py iso doc asked later lease ≡ ok (told later asked kept own)
    unfolding snapshot
    tells doc kept asked later own h o =
        rw (sessions_of-Holds doc kept h, seens_of-matching py iso asked kept, o) refl

    pub asks :
        (later : ℕ) (asked : Option String) (state : cache.State) (doc : Value)
        → cache.read later key state ≡ ok doc
        → is_live py iso settings cache later user_id asked state
          ≡ snapshot py iso doc asked later lease
    unfolding is_live
    asks later asked state doc found = rw (on, known, opens, found) refl
