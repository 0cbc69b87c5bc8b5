-- ===== src/Presence.antt =====
-- The presence registry (presence.py): one document per user in a cache that the services share,
-- with a lease per session.
pub mod Registry
pub mod Lease
pub mod Batch
pub mod Roster
use Prim.Native.Char.{Char, code}
use Prim.Native.String.{◌++◌ as append_text}
use stapel_realtime.Prelude.{
  ℕ, zero, suc, ◌*◌, String, Bool, true, false, not, ◌&&◌, ◌||◌, Option, none, some, List, [], ◌∷◌,
  ◌==◌, leb, ltb, length, str_eq, if◌then◌else◌,
}
use stapel_realtime.Prelude.Int.{ℤ, pos, ◌-ℤ◌, leb_ℤ, ltb_ℤ, pos_part}
use stapel_realtime.Python.{
  Float, finite, inf, nan, units, Value, null, int, float, str, arr, obj, Fields, end, field,
  get_or_null, Exn, value_error, Result, ok, raise, ◌>>=◌, Texts,
}
use stapel_realtime.Python.Convert.{truthy, or_else, text_of, float_of_value}
use stapel_realtime.Python.Text.{size, prefix}
use stapel_realtime.Conf.{Settings}

abbrev presence_key : String
presence_key = "stapel:realtime:presence:"

abbrev pub max_batch : ℕ
max_batch = 100

-- `_OFFLINE`, and the shape of every answer.
pub record Snapshot : Type 0 where
  pub live : Bool
  pub sessions : ℕ
  pub last_seen : Option String

abbrev pub offline : Snapshot
offline = record { live = false; sessions = 0; last_seen = none }

-- What `fleet_cache` gives: nothing, or a cache; `read` gives None for a key that it lacks.
pub record Cache : Type 1 where
  pub State : Type 0
  pub opens : Bool
  pub read : ℕ → String → State → Result Value
  pub read_many : ℕ → List String → State → Result Fields
  pub write : ℕ → String → Value → ℕ → State → Result State

-- `[A-Za-z0-9_.:@+-]`
abbrev between : ℕ → ℕ → ℕ → Bool
between a b n = leb a n && leb n b

unfoldable pub is_safe_char : ℕ → Bool
is_safe_char n =
    between 65 90 n
    || between 97 122 n
    || between 48 58 n
    || n == 95
    || n == 46
    || n == 64
    || n == 43
    || n == 45

-- All characters are safe; `$` also matches before a newline that ends the text.
unfoldable pub are_safe : String → Bool
unfolding is_safe_char
are_safe String.[] = true
are_safe (String.◌∷◌ c s) =
    let rest = are_safe s in if is_safe_char (code c) then rest else (code c == 10 && str_eq s "")

unfoldable pub without_newline : String → String
without_newline String.[] = String.[]
without_newline (String.◌∷◌ c s) =
    if code c == 10 && str_eq s "" then String.[] else String.◌∷◌ c (without_newline s)

-- `_SAFE_ID.match`
unfoldable pub is_safe_id : String → Bool
unfolding are_safe without_newline size
is_safe_id s =
    are_safe s && (leb 1 (size (without_newline s)) && leb (size (without_newline s)) 128)

-- What the document of a user holds: its sessions' entries, by session id.
abbrev pub Sessions : Type 0
Sessions = List (String × Fields)

-- The entries that are dicts.
unfoldable pub entries_of : Fields → Sessions
entries_of end = []
entries_of (field id (obj entry) d) = (id, entry) ∷ entries_of d
entries_of (field id v d) = entries_of d

abbrev entries_in : Value → Sessions
entries_in (obj d) = entries_of d
entries_in _ = []

-- `_sessions`
unfoldable pub sessions_of : Value → Sessions
unfolding entries_of get_or_null
sessions_of (obj d) = entries_in (get_or_null "sessions" d)
sessions_of _ = []

-- `now - x <= ttl`
unfoldable pub is_within : ℕ → ℕ → Float → Bool
unfolding ◌-ℤ◌
is_within now ttl (finite z) = leb_ℤ (pos now -ℤ z) (pos (ttl * units))
is_within now ttl (inf minus) = not minus
is_within now ttl nan = false

-- `sessions[id] = entry`, `sessions.pop(id, None)`
unfoldable pub put_session : String → Fields → Sessions → Sessions
put_session id entry [] = (id, entry) ∷ []
put_session id entry ((j, e) ∷ ss) =
    if str_eq j id then (id, entry) ∷ ss else (j, e) ∷ put_session id entry ss

unfoldable pub drop_session : String → Sessions → Sessions
drop_session id [] = []
drop_session id ((j, e) ∷ ss) =
    let rest = drop_session id ss in if str_eq j id then rest else (j, e) ∷ rest

unfoldable pub fields_of : Sessions → Fields
fields_of [] = end
fields_of ((id, entry) ∷ ss) = field id (obj entry) (fields_of ss)

-- `{"sessions": sessions, "last_seen": now}`
unfoldable pub document : Sessions → ℕ → Value
unfolding fields_of
document ss now =
    obj (field "sessions" (obj (fields_of ss)) (field "last_seen" (float (finite (pos now))) end))

-- `float(epoch)` first is what `_iso` formats; a family is compared with an entry's own.
abbrev pub is_of : Option String → Value → Bool
is_of none v = true
is_of (some family) (str f) = str_eq f family
is_of (some family) _ = false

unfoldable pub matching : Option String → Sessions → Sessions
unfolding get_or_null
matching family [] = []
matching family ((id, entry) ∷ ss) =
    let rest = matching family ss in
    if is_of family (get_or_null "family" entry) then (id, entry) ∷ rest else rest

-- `max` keeps the earlier of two that do not compare.
abbrev is_above : Float → Float → Bool
is_above (finite a) (finite b) = ltb_ℤ b a
is_above (finite a) (inf minus) = minus
is_above (inf minus) (finite b) = not minus
is_above (inf minus) (inf minus') = not minus && minus'
is_above _ _ = false

unfoldable pub greatest : Float → List Float → Float
greatest x [] = x
greatest x (y ∷ ys) = greatest (if is_above y x then y else x) ys

unfoldable pub live_among : ℕ → ℕ → List Float → List Float
unfolding is_within
live_among now ttl [] = []
live_among now ttl (x ∷ xs) =
    let rest = live_among now ttl xs in if is_within now ttl x then x ∷ rest else rest

-- `family or None`
abbrev pub family_value : Option String → Value
family_value none = null
family_value (some f) = if str_eq f "" then null else str f

abbrev pub entry_of : ℕ → Option String → Fields
entry_of now family =
    field "seen" (float (finite (pos now))) (field "family" (family_value family) end)

-- `iso` is `datetime.fromtimestamp(…).isoformat()`, `none` where it raises.
module _ (py : Texts) (iso : Float → Option String) where
  -- `_key`
  unfoldable pub user_key : Value → String
  unfolding is_safe_id text_of prefix
  user_key user_id =
      let ident = text_of py user_id in
      append_text presence_key
        (if is_safe_id ident then ident else append_text "h." (prefix 40 (py.sha256 ident)))

  -- `_iso`
  unfoldable pub iso_of : Float → Option String
  unfolding truthy
  iso_of x = if truthy (float x) then iso x else none

  -- `float(entry.get("seen") or 0)`
  unfoldable pub seen_of : Fields → Result Float
  unfolding get_or_null or_else float_of_value
  seen_of entry = float_of_value py (or_else (get_or_null "seen" entry) (int (pos 0)))

  unfoldable pub seens_of : Sessions → Result (List Float)
  unfolding seen_of
  seens_of [] = ok []
  seens_of ((id, entry) ∷ ss) = do x ← seen_of entry; xs ← seens_of ss; ok (x ∷ xs)

  -- `_prune`
  unfoldable pub prune : ℕ → ℕ → Sessions → Result Sessions
  unfolding seen_of is_within
  prune now ttl [] = ok []
  prune now ttl ((id, entry) ∷ ss) = do
    x ← seen_of entry
    rest ← prune now ttl ss
    ok (if is_within now ttl x then (id, entry) ∷ rest else rest)

  abbrev ever_seen : Value → Result (List Float)
  ever_seen v = if truthy v then (do x ← float_of_value py v; ok (x ∷ [])) else ok []

  -- The document's own `last_seen`, asked for when no family is.
  unfoldable pub document_seen : Value → Option String → Result (List Float)
  unfolding get_or_null truthy float_of_value
  document_seen (obj d) none = ever_seen (get_or_null "last_seen" d)
  document_seen _ _ = ok []

  abbrev pub latest : List Float → List Float → Option String
  latest [] [] = none
  latest [] (y ∷ ys) = iso_of (greatest y ys)
  latest (x ∷ xs) ys = iso_of (greatest (greatest x xs) ys)

  -- `_snapshot`
  unfoldable pub snapshot : Value → Option String → ℕ → ℕ → Result Snapshot
  unfolding sessions_of matching seens_of live_among document_seen greatest iso_of
  snapshot doc family now ttl = do
    seen ← seens_of (matching family (sessions_of doc))
    own ← document_seen doc family
    let live = live_among now ttl seen
    ok (record { live = ltb 0 (length live); sessions = length live; last_seen = latest seen own })
