-- ===== src/Functions/Agreed.antt =====
-- The two functions of the comm surface, on one payload (functions.py, presence.py).
use stapel_realtime.Prelude.{
  ℕ, String, Option, List, [], ◌∷◌, map, ltb, length, ◌≡◌, refl, ap, ◌∙◌, sym, Bool, true, false,
  if◌then◌else◌,
}
use stapel_realtime.Python.{
  Float, str, Fields, field, get, get_or_null, value_error, Result, ok, raise, ◌>>=◌, Texts,
}
use stapel_realtime.Conf.{Settings}
use stapel_realtime.Envelope.{contains}
use stapel_realtime.Presence.{Cache, Snapshot, max_batch, user_key}
use stapel_realtime.Presence.Registry.{idents_of, distinct}
use stapel_realtime.Presence.Registry
use stapel_realtime.Presence.Batch.{found, ask_each, batch_agrees}
use stapel_realtime.Functions.{family_asked, ids_asked, is_live, live_batch, Batch}

-- The payload of `realtime.is_live` for one of the users of a batch, with the batch's family.
abbrev pub asking : String → Fields → Fields
asking ident payload = field "user_id" (str ident) payload

module _ (py : Texts) (iso : Float → Option String) (settings : Settings) (cache : Cache) (now : ℕ)
    (payload : Fields) (state : cache.State) where
  unfoldable pub call_each : List String → Result (List (String × Snapshot))
  unfolding is_live
  call_each [] = ok []
  call_each (ident ∷ idents) = do
    one ← is_live py iso settings cache now (asking ident payload) state
    rest ← call_each idents
    ok ((ident, one) ∷ rest)

  one_call :
      (ident : String)
      → is_live py iso settings cache now (asking ident payload) state
        ≡ Registry.is_live py iso settings cache now (str ident) (family_asked payload) state
  unfolding is_live get get_or_null family_asked
  one_call ident = refl

  each_call :
      (idents : List String)
      → call_each idents ≡ ask_each py iso settings cache now (family_asked payload) state idents
  unfolding call_each ask_each
  each_call [] = refl
  each_call (ident ∷ idents) = rw (one_call ident, each_call idents) refl

  abbrev answer : List (String × Snapshot) → Result Batch
  answer users = ok (record { users = users })

  wrapped :
      (over : Bool) (r : Result (List (String × Snapshot)))
      → ((if over then raise value_error else r) >>= answer)
        ≡ (if over then raise value_error else (r >>= answer))
  wrapped true r = refl
  wrapped false r = refl

  -- The keys that a batch reads.
  abbrev pub keys_read : List String
  keys_read =
      map (λ ident. user_key py iso (str ident))
        (distinct (idents_of py iso settings cache now (ids_asked payload)))

  -- `realtime.live_batch` of at most a hundred ids answers, as `users`, what `realtime.is_live`
  -- would for each of the distinct ids and the same family, in the order in which they are asked
  -- for, and raises where one of these calls raises, if the cache's read of many keys says of each
  -- what its read of that key says; of over a hundred ids, it raises ValueError.
  pub functions_agree :
      ((key : String)
        → contains key keys_read ≡ true
        → cache.read now key state ≡ found key (cache.read_many now keys_read state))
      → live_batch py iso settings cache now payload state ≡ (
          if ltb max_batch (length (idents_of py iso settings cache now (ids_asked payload)))
          then raise value_error
          else do
            users ← call_each (distinct (idents_of py iso settings cache now (ids_asked payload)))
            ok (record { users = users }))
  unfolding live_batch
  functions_agree law =
      let ids = idents_of py iso settings cache now (ids_asked payload) in
      ap (λ r. r >>= answer)
        (batch_agrees py iso settings cache now (family_asked payload) state (ids_asked payload) law
          ∙ ap (λ r. if ltb max_batch (length ids) then raise value_error else r)
              (sym (each_call (distinct ids))))
      ∙ wrapped (ltb max_batch (length ids)) (call_each (distinct ids))
