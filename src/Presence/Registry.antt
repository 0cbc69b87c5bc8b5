-- ===== src/Presence/Registry.antt =====
-- The operations on the registry (presence.py): the writes of a socket and the reads of a notifier.
use stapel_realtime.Prelude.{
  ℕ, String, Bool, true, false, not, ◌||◌, Option, none, some, List, [], ◌∷◌, map, ltb, length,
  str_eq, if◌then◌else◌,
}
use stapel_realtime.Prelude.Int.{pos, pos_part, leb_ℤ}
use stapel_realtime.Python.{
  Float, Value, obj, Fields, get_or_null, value_error, Result, ok, raise, ◌>>=◌, Texts,
}
use stapel_realtime.Python.Convert.{text_of}
use stapel_realtime.Conf.{Settings}
use stapel_realtime.Authorize.{is_null}
use stapel_realtime.Presence.{
  Cache, Snapshot, offline, max_batch, sessions_of, put_session, drop_session, document, entry_of,
  user_key, prune, snapshot,
}

unfoldable pub without : String → List String → List String
without x [] = []
without x (y ∷ ys) = let rest = without x ys in if str_eq y x then rest else y ∷ rest

-- The keys of a dict that is built from these in turn.
unfoldable pub distinct : List String → List String
unfolding without
distinct [] = []
distinct (x ∷ xs) = x ∷ without x (distinct xs)

-- The registry at one moment: its settings, its cache, and the time.
module _ (py : Texts) (iso : Float → Option String) (settings : Settings) (cache : Cache)
    (now : ℕ) where
  -- `_ttl`
  abbrev pub ttl : ℕ
  ttl = pos_part settings.presence_ttl_s

  abbrev pub is_off : Bool
  is_off = leb_ℤ settings.presence_ttl_s (pos 0)

  -- Nothing is written with the registry off, without a user or a session, or without a cache.
  unfoldable pub is_skipped : Value → String → Bool
  is_skipped user_id session_id =
      is_off || is_null user_id || str_eq session_id "" || not cache.opens

  -- `except Exception`: an error of the cache or of the document is an answer of False.
  abbrev pub written : cache.State → Result cache.State → Bool × cache.State
  written before (ok after) = (true, after)
  written before (raise e) = (false, before)

  abbrev pub touched : Option String → String → Value → Result Value
  touched family session_id doc = do
    sessions ← prune py iso now ttl (sessions_of doc)
    ok (document (put_session session_id (entry_of now family) sessions) now)

  abbrev pub left : String → Value → Result (Option Value)
  left session_id (obj d) = do
    sessions ← prune py iso now ttl (drop_session session_id (sessions_of (obj d)))
    ok (some (document sessions now))
  left session_id _ = ok none

  -- A write of the registry has two halves, and other sockets may write between them. The first
  -- reads the document, and makes what is to be written, if anything is: of `_touch`,
  unfoldable pub draft_touch : Value → String → Option String → cache.State → Result (Option Value)
  unfolding is_skipped user_key sessions_of put_session document prune
  draft_touch user_id session_id family state =
      if is_skipped user_id session_id then ok none else do
        doc ← cache.read now (user_key py iso user_id) state
        after ← touched family session_id doc
        ok (some after)

  -- and of `record_disconnect`.
  unfoldable pub draft_disconnect : Value → String → cache.State → Result (Option Value)
  unfolding is_skipped user_key sessions_of drop_session document prune
  draft_disconnect user_id session_id state =
      if is_skipped user_id session_id
      then ok none
      else do doc ← cache.read now (user_key py iso user_id) state; left session_id doc

  -- The second half writes it, over whatever the cache holds by then.
  unfoldable pub commit : Value → Result (Option Value) → cache.State → Bool × cache.State
  unfolding user_key
  commit user_id (ok none) state = (false, state)
  commit user_id (ok (some after)) state =
      written state (cache.write now (user_key py iso user_id) after ttl state)
  commit user_id (raise e) state = (false, state)

  -- `_touch`, which `record_connect` and `record_heartbeat` are, with nothing between its halves.
  unfoldable pub touch : Value → String → Option String → cache.State → Bool × cache.State
  unfolding draft_touch commit
  touch user_id session_id family state =
      commit user_id (draft_touch user_id session_id family state) state

  -- `record_disconnect`, likewise.
  unfoldable pub record_disconnect : Value → String → cache.State → Bool × cache.State
  unfolding draft_disconnect commit
  record_disconnect user_id session_id state =
      commit user_id (draft_disconnect user_id session_id state) state

  abbrev pub answered : Option String → Result Value → Result Snapshot
  answered family (ok doc) = snapshot py iso doc family now ttl
  answered family (raise e) = ok offline

  -- `is_live`
  unfoldable pub is_live : Value → Option String → cache.State → Result Snapshot
  unfolding user_key snapshot
  is_live user_id family state =
      if is_off || is_null user_id || not cache.opens
      then ok offline
      else answered family (cache.read now (user_key py iso user_id) state)

  -- `[str(value) for value in user_ids if value is not None]`
  unfoldable pub idents_of : List Value → List String
  unfolding text_of
  idents_of [] = []
  idents_of (v ∷ vs) = let rest = idents_of vs in if is_null v then rest else text_of py v ∷ rest

  abbrev pub all_offline : List String → List (String × Snapshot)
  all_offline = map (λ ident. (ident, offline))

  unfoldable pub snapshots :
      Fields → Option String → List String → Result (List (String × Snapshot))
  unfolding user_key snapshot get_or_null
  snapshots docs family [] = ok []
  snapshots docs family (ident ∷ idents) = do
    one ← snapshot py iso (get_or_null (user_key py iso (Value.str ident)) docs) family now ttl
    rest ← snapshots docs family idents
    ok ((ident, one) ∷ rest)

  abbrev pub answered_all :
      Option String → List String → Result Fields → Result (List (String × Snapshot))
  answered_all family idents (ok docs) = snapshots docs family idents
  answered_all family idents (raise e) = ok (all_offline idents)

  -- `live_batch`; the answer is by id, in the order in which the ids are asked for.
  unfoldable pub live_batch :
      List Value → Option String → cache.State → Result (List (String × Snapshot))
  unfolding idents_of snapshots distinct
  live_batch user_ids family state =
      let idents = idents_of user_ids in
      if ltb max_batch (length idents)
      then raise value_error
      else if is_off || not cache.opens
      then ok (all_offline (distinct idents))
      else answered_all family (distinct idents) (
          cache.read_many now (map (λ ident. user_key py iso (Value.str ident)) (distinct idents))
            state)
