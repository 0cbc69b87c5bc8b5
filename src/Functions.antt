-- ===== src/Functions.antt =====
-- The comm surface (functions.py): the two functions that other services call. The core checks a
-- payload against its schema first, so a `family` is a text, and `user_ids` a list, where they stand.
pub mod Agreed
use stapel_realtime.Prelude.{ℕ, String, Option, none, some, List, [], ◌∷◌}
use stapel_realtime.Python.{
  Float, Value, str, arr, Items, nil, cons, Fields, get, get_or_null, key_error, Result, ok, raise,
  ◌>>=◌, Texts,
}
use stapel_realtime.Conf.{Settings}
use stapel_realtime.Consumer.Heartbeat.{counted}
use stapel_realtime.Presence.{Cache, Snapshot}
use stapel_realtime.Presence.Registry

abbrev text_or_none : Value → Option String
text_or_none (str s) = counted (some s)
text_or_none v = none

-- `payload.get("family") or None`
unfoldable pub family_asked : Fields → Option String
unfolding get_or_null
family_asked payload = text_or_none (get_or_null "family" payload)

unfoldable pub values_in : Items → List Value
values_in nil = []
values_in (cons v items) = v ∷ values_in items

abbrev list_or_empty : Value → List Value
list_or_empty (arr items) = values_in items
list_or_empty v = []

-- `payload.get("user_ids") or []`
unfoldable pub ids_asked : Fields → List Value
unfolding get_or_null values_in
ids_asked payload = list_or_empty (get_or_null "user_ids" payload)

-- `payload["user_id"]`
abbrev pub id_asked : Fields → Result Value
id_asked payload = elim (get "user_id" payload) [ none ↦ raise key_error | some v ↦ ok v ]

-- `{"users": …}`
pub record Batch : Type 0 where
  pub users : List (String × Snapshot)

module _ (py : Texts) (iso : Float → Option String) (settings : Settings) (cache : Cache)
    (now : ℕ) where
  unfoldable pub is_live : Fields → cache.State → Result Snapshot
  unfolding family_asked get Registry.is_live
  is_live payload state = do
    user_id ← id_asked payload
    Registry.is_live py iso settings cache now user_id (family_asked payload) state

  unfoldable pub live_batch : Fields → cache.State → Result Batch
  unfolding family_asked ids_asked Registry.live_batch
  live_batch payload state = do
    users ←
        Registry.live_batch py iso settings cache now (ids_asked payload) (family_asked payload)
          state
    ok (record { users = users })
