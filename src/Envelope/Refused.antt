-- ===== src/Envelope/Refused.antt =====
-- What `parse_frame` raises (envelope.py).
use stapel_realtime.Prelude.{
  String, ◌≡◌, ◌≢◌, refl, ◌⊎◌, inl, inr, ◌↔◌, Option, none, some, Bool, true, false, Option-cases,
  arith,
}
use stapel_realtime.Python.{
  Fields, Value, null, bool, int, float, finite, inf, nan, str, arr, obj, raise, Exn,
  invalid_envelope, overflow_error, Texts, get, get_or_null, >>=-eq-raise,
}
use stapel_realtime.Python.Convert.{to_int}
use stapel_realtime.Envelope.{
  parse_frame, object_of, checked_version, type_of, payload_of, seq_of, seq_caught, stream_of,
}
use stapel_realtime.Envelope.Accepted.{
  IsVersion, IsPayload, checked_version_ok, type_of_ok, payload_of_ok, checked_version_of,
  type_of-str, payload_of_of,
}

abbrev pub is_invalid : Exn → Bool
is_invalid (invalid_envelope _) = true
is_invalid _ = false

-- An envelope in its version, type and payload, whose `seq` is an infinite float.
pub record IsEndless (d : Fields) : Type 0 where
  pub version : IsVersion (get_or_null "v" d)
  pub kind : (t : String) × (get_or_null "type" d ≡ str t) × (t ≢ "")
  pub payload : (p : Fields) × IsPayload (get "payload" d) p
  pub seq : (minus : Bool) × (get_or_null "seq" d ≡ float (inf minus))

both : {b : Bool} → b ≡ true → b ≡ false → ⊥
both h k = absurd cc

object_of_raise : (v : Value) {e : Exn} → object_of v ≡ raise e → is_invalid e ≡ true
unfolding object_of
object_of_raise (obj d) h = absurd (cc)
object_of_raise _ h = ground arith

checked_version_raise :
    (py : Texts) (v : Value) {e : Exn} → checked_version py v ≡ raise e → is_invalid e ≡ true
unfolding checked_version
checked_version_raise py v h = ground arith

type_of_raise : (v : Value) {e : Exn} → type_of v ≡ raise e → is_invalid e ≡ true
unfolding type_of
type_of_raise (str s) h = ground arith
type_of_raise _ h = ground arith

payload_of_raise : (o : Option Value) {e : Exn} → payload_of o ≡ raise e → is_invalid e ≡ true
unfolding payload_of
payload_of_raise none h = absurd (cc)
payload_of_raise (some null) h = absurd (cc)
payload_of_raise (some (obj p)) h = absurd (cc)
payload_of_raise (some _) h = ground arith

stream_of_raise : (v : Value) {e : Exn} → stream_of v ≡ raise e → is_invalid e ≡ true
unfolding stream_of
stream_of_raise null h = absurd (cc)
stream_of_raise (str s) h = absurd (cc)
stream_of_raise _ h = ground arith

-- Of the exceptions of `int`, only the OverflowError of an infinite float is not caught.
seq_of_raise :
    (py : Texts) (v : Value) {e : Exn}
    → seq_of py v ≡ raise e
    → (is_invalid e ≡ true) ⊎ ((minus : Bool) × (v ≡ float (inf minus)) × (e ≡ overflow_error))
unfolding seq_of seq_caught to_int
seq_of_raise py null h = absurd (cc)
seq_of_raise py (float (inf minus)) h = inr (minus, refl, ground arith)
seq_of_raise py (float (finite z)) h = absurd (cc)
seq_of_raise py (float nan) h = inl (ground arith)
seq_of_raise py (str s) h = elim (Option-cases (py.int_of s)) [
  | inl missing ↦ inl (ground arith)
  | inr (n, found) ↦ absurd (ground arith)
]
seq_of_raise py (bool b) h = absurd (cc)
seq_of_raise py (int n) h = absurd (cc)
seq_of_raise py (arr xs) h = inl (ground arith)
seq_of_raise py (obj d) h = inl (ground arith)

-- The chain of tests stops at the first that raises.
fields_raise :
    (py : Texts) (d : Fields) (e : Exn)
    → parse_frame py (obj d) ≡ raise e
    → is_invalid e ≡ false
    → IsEndless d
unfolding parse_frame
fields_raise py d e h odd = elim (>>=-eq-raise (checked_version py (get_or_null "v" d)) _ h) [
  | inl r ↦ absurd (both (checked_version_raise py _ r) odd)
  | inr (u, version, h1) ↦ elim (>>=-eq-raise (type_of (get_or_null "type" d)) _ h1) [
    | inl r ↦ absurd (both (type_of_raise (get_or_null "type" d) r) odd)
    | inr (t, kind, h2) ↦ elim (>>=-eq-raise (payload_of (get "payload" d)) _ h2) [
      | inl r ↦ absurd (both (payload_of_raise (get "payload" d) r) odd)
      | inr (p, payload, h3) ↦ elim (>>=-eq-raise (seq_of py (get_or_null "seq" d)) _ h3) [
        | inl r ↦ elim (seq_of_raise py (get_or_null "seq" d) r) [
          | inl i ↦ absurd (both i odd)
          | inr (minus, isinf, o) ↦ record {
            version = checked_version_ok py (get_or_null "v" d) version;
            kind = let (text, named) = type_of_ok (get_or_null "type" d) t kind in (t, text, named);
            payload = (p, payload_of_ok (get "payload" d) p payload);
            seq = (minus, isinf);
          }
        ]
        | inr (n, _, h4) ↦ elim (>>=-eq-raise (stream_of (get_or_null "stream" d)) _ h4) [
          | inl r ↦ absurd (both (stream_of_raise (get_or_null "stream" d) r) odd)
          | inr (s, _, h5) ↦ absurd (cc)
        ]
      ]
    ]
  ]
]

parse_frame-endless :
    (py : Texts) (d : Fields) → IsEndless d → parse_frame py (obj d) ≡ raise overflow_error
unfolding parse_frame to_int
parse_frame-endless py d h =
    let (t, kind, named) = h.kind in
    let (p, payload) = h.payload in
    let (minus, seq) = h.seq in
    rw (
      checked_version_of py _ h.version,
      kind,
      type_of-str t named,
      payload_of_of _ p payload,
      seq,
      seq_of,
      seq_caught,
      to_int,
    )

uncaught_object :
    (py : Texts) (raw : Value) (e : Exn)
    → parse_frame py raw ≡ raise e
    → is_invalid e ≡ false
    → (d : Fields) × (raw ≡ obj d) × IsEndless d
uncaught_object py (obj d) e h odd = (d, refl, fields_raise py d e h odd)
uncaught_object py v e h odd =
    absurd (both {b = is_invalid e} (unfold parse_frame object_of in ground arith) odd)

-- An exception other than InvalidEnvelope leaves `parse_frame` exactly for a dict that is an envelope
-- in its version, type and payload, and whose `seq` is an infinite float.
pub uncaught_iff :
    (py : Texts) (raw : Value)
    → ((e : Exn) × (parse_frame py raw ≡ raise e) × (is_invalid e ≡ false))
      ↔ ((d : Fields) × (raw ≡ obj d) × IsEndless d)
uncaught_iff py raw = (
  λ (e, h, odd). uncaught_object py raw e h odd,
  λ (d, object, h). (overflow_error, rw object (parse_frame-endless py d h), refl),
)
