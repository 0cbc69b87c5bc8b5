-- ===== src/Envelope/Schema.antt =====
-- The published schema of a frame (schemas/wire/envelope.v1.json), and the builder of frames
-- (envelope.py).
use stapel_realtime.Prelude.{
  ℕ, String, ◌≡◌, refl, ◌⊎◌, inl, inr, false, Option, none, some, List, [], ◌∷◌, arith,
}
use stapel_realtime.Prelude.Int.{ℤ, pos, negsuc, ◌≤ℤ◌}
use stapel_realtime.Python.{int, str, obj, Fields, get}
use stapel_realtime.Envelope.{contains, frame}

abbrev pub envelope_keys : List String
envelope_keys = "v" ∷ "type" ∷ "payload" ∷ "seq" ∷ "stream" ∷ []

-- A dict that the schema admits.
pub record FitsSchema (d : Fields) : Type 0 where
  pub version : get "v" d ≡ some (int (pos 1))
  pub kind : (t : String) × (get "type" d ≡ some (str t))
  pub payload : (p : Fields) × (get "payload" d ≡ some (obj p))
  -- "minimum": 0
  pub seq : (get "seq" d ≡ none) ⊎ ((n : ℕ) × (get "seq" d ≡ some (int (pos n))))
  pub stream : (get "stream" d ≡ none) ⊎ ((key : String) × (get "stream" d ≡ some (str key)))
  -- "additionalProperties": false
  pub closed : (k : String) → contains k envelope_keys ≡ false → get k d ≡ none

module _ (t : String) (p : Fields) where
  pub frame-FitsSchema : (stream : Option String) → FitsSchema (frame t p none stream)
  unfolding frame get contains
  frame-FitsSchema none = record {
    version = refl;
    kind = (t, refl);
    payload = (p, refl);
    seq = inl refl;
    stream = inl refl;
    closed = λ k h. ground arith;
  }
  frame-FitsSchema (some key) = record {
    version = refl;
    kind = (t, refl);
    payload = (p, refl);
    seq = inl refl;
    stream = inr (key, refl);
    closed = λ k h. ground arith;
  }

  pub frame-FitsSchema-some :
      (n : ℤ) (stream : Option String) → pos 0 ≤ℤ n → FitsSchema (frame t p (some n) stream)
  unfolding frame get contains
  frame-FitsSchema-some (pos n) none h = record {
    version = refl;
    kind = (t, refl);
    payload = (p, refl);
    seq = inr (n, refl);
    stream = inl refl;
    closed = λ k h. ground arith;
  }
  frame-FitsSchema-some (pos n) (some key) h = record {
    version = refl;
    kind = (t, refl);
    payload = (p, refl);
    seq = inr (n, refl);
    stream = inr (key, refl);
    closed = λ k h. ground arith;
  }
  frame-FitsSchema-some (negsuc n) stream h = absurd (omega arith)
