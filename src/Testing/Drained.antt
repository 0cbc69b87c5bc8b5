-- ===== src/Testing/Drained.antt =====
-- What the test client reads of the frames that a server builds (testing.py, envelope.py).
use stapel_realtime.Prelude.{
  List, [], ◌∷◌, map, ◌≡◌, ◌≢◌, refl, ap, ◌∙◌, Bool-cases, inl, inr, if◌then◌else◌,
}
use stapel_realtime.Python.{Value, obj, Result, ok, Texts}
use stapel_realtime.Envelope.{Frame, frame}
use stapel_realtime.Envelope.RoundTrip.{parse_frame-frame}
use stapel_realtime.Testing.{Client, is_noise, drain_next, drain_from, drain}

-- The frames that are no heartbeats.
unfoldable pub news_of : List Frame → List Frame
news_of [] = []
news_of (f ∷ fs) = let rest = news_of fs in if is_noise f then rest else f ∷ rest

-- The envelope of a frame, as `frame` builds it.
abbrev pub sent_as : Frame → Value
sent_as f = obj (frame f.kind f.payload f.seq f.stream)

abbrev pub HaveTypes : List Frame → Type 0
HaveTypes [] = Unit
HaveTypes (f ∷ fs) = (f.kind ≢ "") × HaveTypes fs

module _ (py : Texts) where
  kept_or_not :
      (f : Frame) (fs gs : List Frame)
      → gs ≡ news_of fs
      → drain_next py (ok f) (ok gs, []) (map sent_as fs) ≡ (ok (news_of (f ∷ fs)), [])
  unfolding news_of
  kept_or_not f fs gs e = elim (Bool-cases (is_noise f)) [
    | inl noise ↦ rw (noise, e) refl
    | inr news ↦ rw (news, e) refl
  ]

  drains : (fs : List Frame) → HaveTypes fs → drain_from py (map sent_as fs) ≡ (ok (news_of fs), [])
  unfolding drain_from news_of
  drains [] h = refl
  drains (f ∷ fs) h =
      ap (λ r. drain_next py r (drain_from py (map sent_as fs)) (map sent_as fs))
        (parse_frame-frame py f.kind f.payload f.seq f.stream h.0)
      ∙ ap (λ later. drain_next py (ok f) later (map sent_as fs)) (drains fs h.1)
      ∙ kept_or_not f fs (news_of fs) refl

  -- The client drains what a server sends: of any frames with non-empty types, as they are built, it
  -- returns those that are no heartbeats, in order and as they were, and nothing is left to read.
  drain_reads :
      (fs : List Frame) (c : Client)
      → HaveTypes fs
      → c.incoming ≡ map sent_as fs
      → drain py c ≡ (ok (news_of fs), record c { incoming = [] })
  unfolding drain
  drain_reads fs c h e =
      ap (λ (r : Result (List Frame) × List Value). (r.0, record c { incoming = r.1 }))
        (ap (drain_from py) e ∙ drains fs h)
