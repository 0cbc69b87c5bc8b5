-- ===== src/Presence/Lease.antt =====
-- The lease of a session in a document (presence.py): lemmas on `_prune` and `_snapshot`.
use stapel_realtime.Prelude.{
  ℕ, zero, suc, String, Option, none, List, [], ◌∷◌, ltb, length, ◌≡◌, refl, ap, if◌then◌else◌,
}
use stapel_realtime.Prelude.Int.{pos}
use stapel_realtime.Python.{Float, finite, Value, Fields, ok, get, get_or_null, Texts}
use stapel_realtime.Python.Convert.{truthy, or_else, float_of_value}
use stapel_realtime.Presence.Registry.{ttl}
use stapel_realtime.Presence.{
  Snapshot, Sessions, entries_of, sessions_of, is_within, fields_of, document, matching, live_among,
  entry_of, seen_of, seens_of, prune, document_seen, latest, snapshot,
}

entries_of-fields_of : (ss : Sessions) → entries_of (fields_of ss) ≡ ss
unfolding entries_of fields_of
entries_of-fields_of [] = refl
entries_of-fields_of ((id, entry) ∷ ss) = ap (λ rest. (id, entry) ∷ rest) (entries_of-fields_of ss)

pub sessions_of-document : (ss : Sessions) (now : ℕ) → sessions_of (document ss now) ≡ ss
unfolding sessions_of document get_or_null get
sessions_of-document ss now = entries_of-fields_of ss

pub matching_all : (ss : Sessions) → matching none ss ≡ ss
unfolding matching
matching_all [] = refl
matching_all ((id, entry) ∷ ss) = ap (λ rest. (id, entry) ∷ rest) (matching_all ss)

module _ (py : Texts) (iso : Float → Option String) where
  pub seen_now :
      (now : ℕ) (family : Option String)
      → seen_of py iso (entry_of now family) ≡ ok (finite (pos now))
  unfolding seen_of get_or_null get or_else truthy float_of_value
  seen_now zero family = refl
  seen_now (suc n) family = refl

  pub seens_cons :
      (id : String) (entry : Fields) (ss : Sessions) (x : Float) (xs : List Float)
      → seen_of py iso entry ≡ ok x
      → seens_of py iso ss ≡ ok xs
      → seens_of py iso ((id, entry) ∷ ss) ≡ ok (x ∷ xs)
  unfolding seens_of
  seens_cons id entry ss x xs hx hs = rw (hx, hs) refl

  pub prune_cons :
      (now lease : ℕ) (j : String) (e : Fields) (ss rest : Sessions) (x : Float)
      → seen_of py iso e ≡ ok x
      → prune py iso now lease ss ≡ ok rest
      → prune py iso now lease ((j, e) ∷ ss)
        ≡ ok (if is_within now lease x then (j, e) ∷ rest else rest)
  unfolding prune
  prune_cons now lease j e ss rest x hx hr = rw (hx, hr) refl

  pub own_seen :
      (now : ℕ) (ss : Sessions)
      → (own : List Float) × (document_seen py iso (document ss now) none ≡ ok own)
  unfolding document_seen document get_or_null get truthy float_of_value
  own_seen zero ss = ([], refl)
  own_seen (suc n) ss = (finite (pos (suc n)) ∷ [], refl)

  abbrev pub told : ℕ → ℕ → List Float → List Float → Snapshot
  told later ttl ys own = record {
    live = ltb 0 (length (live_among later ttl ys));
    sessions = length (live_among later ttl ys);
    last_seen = latest py iso ys own;
  }

  pub snapshot_of :
      (doc : Value) (later ttl : ℕ) (ss : Sessions) (ys own : List Float)
      → sessions_of doc ≡ ss
      → seens_of py iso ss ≡ ok ys
      → document_seen py iso doc none ≡ ok own
      → snapshot py iso doc none later ttl ≡ ok (told later ttl ys own)
  unfolding snapshot
  snapshot_of doc later ttl ss ys own e hy ho = rw (e, matching_all ss, hy, ho) refl
