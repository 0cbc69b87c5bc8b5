-- ===== src/Presence/Batch.antt =====
-- The batch read (`live_batch`, presence.py), against one `is_live` after another.
use stapel_realtime.Prelude.{
  ℕ, String, Bool, true, false, not, ◌||◌, Option, List, [], ◌∷◌, map, ltb, length, str_eq, eq_iff,
  ◌≡◌, refl, ap, sym, ◌∙◌, Bool-cases, inl, inr, if◌then◌else◌,
}
use stapel_realtime.Python.{
  Float, Value, str, Fields, get_or_null, Exn, value_error, Result, ok, raise, ◌>>=◌, Texts,
}
use stapel_realtime.Conf.{Settings}
use stapel_realtime.Envelope.{contains}
use stapel_realtime.Presence.{Cache, Snapshot, offline, max_batch, user_key}
use stapel_realtime.Presence.Registry.{
  is_off, distinct, is_live, idents_of, snapshots, answered, answered_all, all_offline, live_batch,
}

or_false : (a c : Bool) → a || false || c ≡ a || c
or_false true c = refl
or_false false c = refl

later_member : (b c : Bool) → c ≡ true → b || c ≡ true
later_member true c h = refl
later_member false c h = h

-- What `get_many` says of one of its keys.
abbrev pub found : String → Result Fields → Result Value
found key (ok docs) = ok (get_or_null key docs)
found key (raise e) = raise e

module _ (py : Texts) (iso : Float → Option String) (settings : Settings) (cache : Cache) (now : ℕ)
    (family : Option String) (state : cache.State) where
  abbrev Answers : Type 0
  Answers = Result (List (String × Snapshot))

  -- One question for each id, in turn.
  unfoldable pub ask_each : List String → Answers
  ask_each [] = ok []
  ask_each (ident ∷ idents) = do
    one ← is_live py iso settings cache now (str ident) family state
    rest ← ask_each idents
    ok ((ident, one) ∷ rest)

  abbrev pub key_of : String → String
  key_of ident = user_key py iso (str ident)

  abbrev Follows : Result Fields → List String → Type 0
  Follows r [] = Unit
  Follows r (ident ∷ idents) =
      (cache.read now (key_of ident) state ≡ found (key_of ident) r) × Follows r idents

  all_follow :
      (r : Result Fields) (idents : List String)
      → ((key : String)
          → contains key (map key_of idents) ≡ true
          → cache.read now key state ≡ found key r)
      → Follows r idents
  unfolding contains
  all_follow r [] law = tt
  all_follow r (ident ∷ idents) law = (
    law (key_of ident) (rw ((eq_iff (key_of ident) (key_of ident)).1 refl) refl),
    all_follow r idents (λ key h. law key (later_member (str_eq (key_of ident) key) _ h)),
  )

  asked_off :
      (ident : String)
      → is_off py iso settings cache now || not cache.opens ≡ true
      → is_live py iso settings cache now (str ident) family state ≡ ok offline
  unfolding is_live
  asked_off ident h =
      ap
        (λ b.
          if b
          then ok offline
          else answered py iso settings cache now family (cache.read now (key_of ident) state))
        (or_false (is_off py iso settings cache now) (not cache.opens) ∙ h)

  asked_on :
      (ident : String)
      → is_off py iso settings cache now || not cache.opens ≡ false
      → is_live py iso settings cache now (str ident) family state
        ≡ answered py iso settings cache now family (cache.read now (key_of ident) state)
  unfolding is_live
  asked_on ident h =
      ap
        (λ b.
          if b
          then ok offline
          else answered py iso settings cache now family (cache.read now (key_of ident) state))
        (or_false (is_off py iso settings cache now) (not cache.opens) ∙ h)

  each_off :
      (idents : List String)
      → is_off py iso settings cache now || not cache.opens ≡ true
      → ask_each idents ≡ ok (all_offline py iso settings cache now idents)
  unfolding ask_each
  each_off [] h = refl
  each_off (ident ∷ idents) h = rw (asked_off ident h, each_off idents h) refl

  each_lost :
      (idents : List String) (e : Exn)
      → is_off py iso settings cache now || not cache.opens ≡ false
      → Follows (raise e) idents
      → ask_each idents ≡ ok (all_offline py iso settings cache now idents)
  unfolding ask_each
  each_lost [] e h law = refl
  each_lost (ident ∷ idents) e h law = rw (asked_on ident h, law.0, each_lost idents e h law.1) refl

  each_found :
      (idents : List String) (docs : Fields)
      → is_off py iso settings cache now || not cache.opens ≡ false
      → Follows (ok docs) idents
      → ask_each idents ≡ snapshots py iso settings cache now docs family idents
  unfolding ask_each snapshots
  each_found [] docs h law = refl
  each_found (ident ∷ idents) docs h law =
      rw (asked_on ident h, law.0, each_found idents docs h law.1) refl

  abbrev pub idents : List Value → List String
  idents user_ids = distinct (idents_of py iso settings cache now user_ids)

  each_answered :
      (r : Result Fields) (ids : List String)
      → is_off py iso settings cache now || not cache.opens ≡ false
      → Follows r ids
      → answered_all py iso settings cache now family ids r ≡ ask_each ids
  each_answered (ok docs) ids h law = sym (each_found ids docs h law)
  each_answered (raise e) ids h law = sym (each_lost ids e h law)

  -- The batch read of at most a hundred ids answers what the single reads would, one for each of the
  -- distinct ids in the order in which they are asked for, and raises where one of them raises, if
  -- the cache's read of many keys says of each what its read of that key says; over a hundred ids, it
  -- raises ValueError, before any read.
  pub batch_agrees :
      (user_ids : List Value)
      → ((key : String)
          → contains key (map key_of (idents user_ids)) ≡ true
          → cache.read now key state
            ≡ found key (cache.read_many now (map key_of (idents user_ids)) state))
      → live_batch py iso settings cache now user_ids family state ≡ (
          if ltb max_batch (length (idents_of py iso settings cache now user_ids))
          then raise value_error
          else ask_each (idents user_ids))
  unfolding live_batch
  batch_agrees user_ids law =
      elim (Bool-cases (is_off py iso settings cache now || not cache.opens)) [
        | inl h ↦ rw (h, each_off (idents user_ids) h) refl
        | inr h ↦
            rw
              (
                h,
                each_answered (cache.read_many now (map key_of (idents user_ids)) state)
                    (idents user_ids) h (all_follow _ (idents user_ids) law),
              )
              refl
      ]
