-- ===== src/Envelope/Accepted.antt =====
-- Which inbound values `parse_frame` accepts, and what it raises on the others (envelope.py).
use stapel_realtime.Prelude.{
  String, ◌≡◌, ◌≢◌, refl, ◌⊎◌, inl, inr, ◌↔◌, Option, none, some, true, arith, eq_iff,
}
use stapel_realtime.Prelude.Int.{ℤ, pos}
use stapel_realtime.Python.{
  Fields, Value, null, bool, int, float, finite, units, str, obj, end, ok, raise, type_error,
  value_error, Result, Texts, get, get_or_null, ◌>>=◌,
}
use stapel_realtime.Python.Convert.{equals_one, to_int}
use stapel_realtime.Envelope.{
  Frame, parse_frame, checked_version, type_of, payload_of, seq_of, seq_caught, stream_of,
}

-- `v` is version 1, as Python compares: also True and 1.0.
abbrev pub IsVersion : Value → Type 0
IsVersion v = (v ≡ int (pos 1)) ⊎ (v ≡ bool true) ⊎ (v ≡ float (finite (pos units)))

-- The payload is absent, None, or the dict `d`.
abbrev pub IsPayload : Option Value → Fields → Type 0
IsPayload o d = ((o ≡ none) × (d ≡ end)) ⊎ ((o ≡ some null) × (d ≡ end)) ⊎ (o ≡ some (obj d))

abbrev pub IsSeq : Texts → Value → Option ℤ → Type 0
IsSeq py v none = v ≡ null
IsSeq py v (some n) = to_int py v ≡ ok n

abbrev pub IsStream : Value → Option String → Type 0
IsStream v none = v ≡ null
IsStream v (some s) = v ≡ str s

-- An envelope with the parts of `f`, field by field.
pub record IsEnvelope (py : Texts) (d : Fields) (f : Frame) : Type 0 where
  pub version : IsVersion (get_or_null "v" d)
  pub kind : get_or_null "type" d ≡ str f.kind
  pub named : f.kind ≢ ""
  pub payload : IsPayload (get "payload" d) f.payload
  pub seq : IsSeq py (get_or_null "seq" d) f.seq
  pub stream : IsStream (get_or_null "stream" d) f.stream

equals_one-IsVersion : (v : Value) → equals_one v ≡ true → IsVersion v
unfolding equals_one
equals_one-IsVersion (bool b) h = ground arith
equals_one-IsVersion (int (pos n)) h = ground arith
equals_one-IsVersion (float (finite (pos n))) h = ground arith
equals_one-IsVersion _ h = absurd (cc)

IsVersion-equals_one : (v : Value) → IsVersion v → equals_one v ≡ true
unfolding equals_one
IsVersion-equals_one v (inl e) = rw e
IsVersion-equals_one v (inr (inl e)) = rw e
IsVersion-equals_one v (inr (inr e)) = rw e

pub checked_version_ok :
    (py : Texts) (v : Value) {u : Unit {0}} → checked_version py v ≡ ok u → IsVersion v
unfolding checked_version
checked_version_ok py v h = equals_one-IsVersion v (ground arith)

pub type_of_ok : (v : Value) (t : String) → type_of v ≡ ok t → (v ≡ str t) × (t ≢ "")
unfolding type_of
type_of_ok (str s) t h = ground (arith, eq_iff s "")
type_of_ok _ t h = ground arith

pub payload_of_ok : (o : Option Value) (d : Fields) → payload_of o ≡ ok d → IsPayload o d
unfolding payload_of
payload_of_ok none d h = ground arith
payload_of_ok (some null) d h = ground arith
payload_of_ok (some (obj p)) d h = ground arith
payload_of_ok (some _) d h = ground arith

seq_caught_ok :
    (r : Result ℤ) (s : Option ℤ) → seq_caught r ≡ ok s → (n : ℤ) × (r ≡ ok n) × (s ≡ some n)
unfolding seq_caught
seq_caught_ok (ok n) s h = (n, refl, ground arith)
seq_caught_ok (raise type_error) s h = absurd (cc)
seq_caught_ok (raise value_error) s h = absurd (cc)
seq_caught_ok (raise _) s h = absurd (cc)

seq_of_ok : (py : Texts) (v : Value) (s : Option ℤ) → seq_of py v ≡ ok s → IsSeq py v s
unfolding seq_of
seq_of_ok py null none h = refl
seq_of_ok py null (some n) h = absurd (cc)
seq_of_ok py v none h = ground (arith, seq_caught_ok (to_int py v) none)
seq_of_ok py v (some n) h = ground (arith, seq_caught_ok (to_int py v) (some n))

stream_of_ok : (v : Value) (s : Option String) → stream_of v ≡ ok s → IsStream v s
unfolding stream_of
stream_of_ok null none h = refl
stream_of_ok (str t) (some s) h = ground arith
stream_of_ok _ _ h = absurd (cc)

-- The other way: each part of an envelope passes its test.
pub checked_version_of : (py : Texts) (v : Value) → IsVersion v → checked_version py v ≡ ok tt
unfolding checked_version
checked_version_of py v h = rw (IsVersion-equals_one v h)

pub type_of-str : (t : String) → t ≢ "" → type_of (str t) ≡ ok t
unfolding type_of
type_of-str t h = ground (arith, eq_iff t "")

pub payload_of_of : (o : Option Value) (d : Fields) → IsPayload o d → payload_of o ≡ ok d
unfolding payload_of
payload_of_of o d (inl h) = rw (h.0, h.1)
payload_of_of o d (inr (inl h)) = rw (h.0, h.1)
payload_of_of o d (inr (inr h)) = rw h

seq_of_of : (py : Texts) (v : Value) (s : Option ℤ) → IsSeq py v s → seq_of py v ≡ ok s
unfolding seq_of seq_caught
seq_of_of py v none h = rw h
seq_of_of py null (some n) h = absurd (unfold to_int in cc)
seq_of_of py _ (some n) h = rw h

stream_of_of : (v : Value) (s : Option String) → IsStream v s → stream_of v ≡ ok s
unfolding stream_of
stream_of_of v none h = rw h
stream_of_of v (some s) h = rw h

-- The chain of `parse_frame` over any outcomes of its tests.
assemble :
    Result (Unit {0})
    → Result String
    → Result Fields
    → Result (Option ℤ)
    → Result (Option String)
    → Result Frame
assemble u t p n s = do
  u' ← u
  t' ← t
  p' ← p
  n' ← n
  s' ← s
  ok (record { kind = t'; payload = p'; seq = n'; stream = s' })

assemble_ok :
    (u : Result (Unit {0})) (t : Result String) (p : Result Fields) (n : Result (Option ℤ))
    (s : Result (Option String)) (f : Frame)
    → assemble u t p n s ≡ ok f
    → (u ≡ ok tt) × (t ≡ ok f.kind) × (p ≡ ok f.payload) × (n ≡ ok f.seq) × (s ≡ ok f.stream)
unfolding assemble
assemble_ok u t p n s f h = ground arith

accepted_IsEnvelope :
    (py : Texts) (d : Fields) (f : Frame) → parse_frame py (obj d) ≡ ok f → IsEnvelope py d f
unfolding parse_frame assemble
accepted_IsEnvelope py d f h =
    let a =
      assemble_ok (checked_version py (get_or_null "v" d)) (type_of (get_or_null "type" d))
        (payload_of (get "payload" d)) (seq_of py (get_or_null "seq" d))
        (stream_of (get_or_null "stream" d)) f h in
    record {
      version = checked_version_ok py (get_or_null "v" d) a.0;
      kind = (type_of_ok (get_or_null "type" d) f.kind a.1).0;
      named = (type_of_ok (get_or_null "type" d) f.kind a.1).1;
      payload = payload_of_ok (get "payload" d) f.payload a.2;
      seq = seq_of_ok py (get_or_null "seq" d) f.seq a.3;
      stream = stream_of_ok (get_or_null "stream" d) f.stream a.4;
    }

IsEnvelope-accepted :
    (py : Texts) (d : Fields) (f : Frame) → IsEnvelope py d f → parse_frame py (obj d) ≡ ok f
unfolding parse_frame
IsEnvelope-accepted py d f e = rw (
  checked_version_of py _ e.version,
  e.kind,
  type_of-str f.kind e.named,
  payload_of_of _ f.payload e.payload,
  seq_of_of py _ f.seq e.seq,
  stream_of_of _ f.stream e.stream,
)

-- `parse_frame` returns the frame `f` exactly when the received value is a dict whose version is
-- 1, whose `type` is the non-empty text of `f`, and whose payload, `seq` and `stream` are those of
-- `f` (an absent or None payload is the empty one).
pub parse_frame_iff :
    (py : Texts) (raw : Value) (f : Frame)
    → (parse_frame py raw ≡ ok f) ↔ ((d : Fields) × (raw ≡ obj d) × IsEnvelope py d f)
parse_frame_iff py raw f = (there raw f, λ h. rw h.1 (IsEnvelope-accepted py h.0 f h.2))
  where
    there :
        (raw : Value) (f : Frame)
        → parse_frame py raw ≡ ok f
        → (d : Fields) × (raw ≡ obj d) × IsEnvelope py d f
    there (obj d) f h = (d, refl, accepted_IsEnvelope py d f h)
    there _ f h = absurd (unfold parse_frame in cc)
