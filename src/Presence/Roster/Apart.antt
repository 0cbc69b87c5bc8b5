-- ===== src/Presence/Roster/Apart.antt =====
-- What a write of the registry does to the document of a user (presence.py), by whose write it is:
-- nothing where it is nobody's or another user's, and the same under any id of this user.
use stapel_realtime.Prelude.{
  ap, ◌∙◌, Bool, ℕ, ◌≢◌, String, true, Option, none, some, ◌≡◌, refl, arith,
}
use stapel_realtime.Python.{Float, Value, ok, raise, Result, Texts}
use stapel_realtime.Conf.{Settings}
use stapel_realtime.Authorize.{is_null}
use stapel_realtime.Presence.{Cache, user_key}
use stapel_realtime.Presence.Registry.{
  is_skipped, written, draft_touch, draft_disconnect, commit, ttl, touch, record_disconnect,
}
use stapel_realtime.Presence.Roster.{Write, touching, ending}
use stapel_realtime.Presence.Roster.Mirrored.{Keeps, key, do_write}

module _ (py : Texts) (iso : Float → Option String) (settings : Settings) (cache : Cache)
    (user_id : Value) (laws : Keeps cache (key py iso settings cache user_id)) where
  written_apart :
      (now : ℕ) (state : cache.State) (r : Result cache.State)
      → ((after : cache.State) → r ≡ ok after → laws.held after ≡ laws.held state)
      → laws.held (written py iso settings cache now state r).1 ≡ laws.held state
  written_apart now state (ok after) h = h after refl
  written_apart now state (raise e) h = refl

  commit_apart :
      (now : ℕ) (user : Value) (r : Result (Option Value)) (state : cache.State)
      → user_key py iso user ≢ key py iso settings cache user_id
      → laws.held (commit py iso settings cache now user r state).1 ≡ laws.held state
  unfolding commit
  commit_apart now user (ok none) state n = refl
  commit_apart now user (ok (some doc)) state n =
      written_apart now state
        (cache.write now (user_key py iso user) doc (ttl py iso settings cache now) state)
        (λ after e.
          laws.apart now (ttl py iso settings cache now) (user_key py iso user) doc state after n e)
  commit_apart now user (raise e) state n = refl

  pub write_apart :
      (now : ℕ) (user : Value) (w : Write) (state : cache.State)
      → user_key py iso user ≢ key py iso settings cache user_id
      → laws.held (do_write py iso settings cache user now w state) ≡ laws.held state
  unfolding do_write touch record_disconnect
  write_apart now user (touching id family) state n =
      commit_apart now user (draft_touch py iso settings cache now user id family state) state n
  write_apart now user (ending id) state n =
      commit_apart now user (draft_disconnect py iso settings cache now user id state) state n

  skipped :
      (now : ℕ) (user : Value) (id : String)
      → is_null user ≡ true
      → is_skipped py iso settings cache now user id ≡ true
  unfolding is_skipped
  skipped now user id h = ground arith

  nothing_drafted :
      (now : ℕ) (user : Value) (r : Result (Option Value)) (state : cache.State)
      → r ≡ ok none
      → (commit py iso settings cache now user r state).1 ≡ state
  unfolding commit
  nothing_drafted now user r state h = rw h refl

  -- Nothing is written for nobody.
  pub write_nobody :
      (now : ℕ) (user : Value) (w : Write) (state : cache.State)
      → is_null user ≡ true
      → do_write py iso settings cache user now w state ≡ state
  unfolding do_write touch record_disconnect draft_touch draft_disconnect
  write_nobody now user (touching id family) state h =
      nothing_drafted now user (draft_touch py iso settings cache now user id family state) state
        (rw (skipped now user id h) refl)
  write_nobody now user (ending id) state h =
      nothing_drafted now user (draft_disconnect py iso settings cache now user id state) state
        (rw (skipped now user id h) refl)

  commit_same :
      (now : ℕ) (user : Value) (state : cache.State) (r : Result (Option Value))
      → user_key py iso user ≡ user_key py iso user_id
      → commit py iso settings cache now user r state
        ≡ commit py iso settings cache now user_id r state
  unfolding commit
  commit_same now user state (ok none) k = refl
  commit_same now user state (ok (some doc)) k = rw k refl
  commit_same now user state (raise e) k = refl

  pub write_same :
      (now : ℕ) (user : Value) (w : Write) (state : cache.State)
      → is_null user ≡ is_null user_id
      → user_key py iso user ≡ user_key py iso user_id
      → do_write py iso settings cache user now w state
        ≡ do_write py iso settings cache user_id now w state
  unfolding do_write touch record_disconnect draft_touch draft_disconnect is_skipped
  write_same now user (touching id family) state h k =
      ap (λ (r : Bool × cache.State). r.1)
        (commit_same now user state (draft_touch py iso settings cache now user id family state) k
          ∙ ap (λ r. commit py iso settings cache now user_id r state) (rw (h, k) refl))
  write_same now user (ending id) state h k =
      ap (λ (r : Bool × cache.State). r.1)
        (commit_same now user state (draft_disconnect py iso settings cache now user id state) k
          ∙ ap (λ r. commit py iso settings cache now user_id r state) (rw (h, k) refl))
