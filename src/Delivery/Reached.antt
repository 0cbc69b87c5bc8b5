-- ===== src/Delivery/Reached.antt =====
-- What the transport takes (delivery.py), and to which sockets it goes (consumers.py).
use stapel_realtime.Prelude.{
  String, Bool, true, false, none, some, List, [], ◌∷◌, ◌≡◌, refl, arith, ap, ◌∙◌, str_eq, eq_iff,
  Bool-cases, Option-cases, inl, inr,
}
use stapel_realtime.Python.{
  Value, null, bool, int, float, str, arr, obj, Fields, get_or_null, Result, ok, raise, Texts,
  Result-cases,
}
use stapel_realtime.Envelope.{live, replay, contains, protocol_frame_types}
use stapel_realtime.Streams.{Core, group_name}
use stapel_realtime.Delivery.{
  Message, realtime_signal, Channels, Sent, refused, send_to, group_send, is_reserved, after_check,
  deliver,
}
use stapel_realtime.Consumer.Moves.{is_journal_type}
use stapel_realtime.Consumer.Moves.Handlers.{IsHonest}

-- A `type` of the protocol's own.
abbrev pub is_protocol_type : Value → Bool
is_protocol_type (str t) = contains t protocol_frame_types
is_protocol_type _ = false

module _ (core : Core) (py : Texts) (ch : Channels) where
  -- A signal that is taken: an object whose `type` is hashable and no name of the protocol, on a
  -- key that has a group, given to a layer that does not raise.
  pub record IsTaken (key : String) (v : Value) : Type 0 where
    pub frame : Fields
    pub group : String
    pub layer : String → Message → Result (Unit {0})
    pub object : v ≡ obj frame
    pub plain : is_reserved core py ch (get_or_null "type" frame) ≡ ok false
    pub layered : ch.layer ≡ some layer
    pub named : group_name core py key ≡ ok group
    pub took : layer group (realtime_signal key frame) ≡ ok tt

  pub group_takes :
      (key : String) (m : Message) (layer : String → Message → Result (Unit {0})) (group : String)
      → ch.layer ≡ some layer
      → group_name core py key ≡ ok group
      → layer group m ≡ ok tt
      → group_send core py ch key m ≡ (ok true, (group, m) ∷ [])
  unfolding group_send
  group_takes key m layer group l n t =
      ap
        (λ o. elim o as (λ _. Sent) [
          | none ↦ refused
          | some send ↦ send_to send (group_name core py key) m
        ])
        l
      ∙ ap (λ r. send_to layer r m) n
      ∙ ap (λ r. elim r as (λ _. Sent) [ ok _ ↦ (ok true, (group, m) ∷ []) | raise _ ↦ refused ]) t

  -- A taken signal reaches the group of its key, once, as it is.
  pub deliver_takes :
      (key : String) (v : Value) (t : IsTaken key v)
      → deliver core py ch key v ≡ (ok true, (t.group, realtime_signal key t.frame) ∷ [])
  unfolding deliver
  deliver_takes key v t =
      ap (λ u. deliver core py ch key u) t.object
      ∙ ap (λ r. after_check core py ch r (group_send core py ch key (realtime_signal key t.frame)))
          t.plain
      ∙ group_takes key (realtime_signal key t.frame) t.layer t.group t.layered t.named t.took

  pub group_taken :
      (key : String) (m : Message)
      → (group_send core py ch key m).0 ≡ ok true
      → (layer : String → Message → Result (Unit {0})) × (group : String) × (ch.layer ≡ some layer)
        × (group_name core py key ≡ ok group)
        × (layer group m ≡ ok tt)
  unfolding group_send
  group_taken key m h = elim (Option-cases ch.layer) [
    | inl l ↦ absurd (ground arith)
    | inr (layer, l) ↦ elim (Result-cases (group_name core py key)) [
      | inr (e, n) ↦ absurd (ground arith)
      | inl (group, n) ↦ elim (Result-cases (layer group m)) [
        | inl (tt, t) ↦ (layer, group, l, n, t)
        | inr (e, t) ↦ absurd (ground arith)
      ]
    ]
  ]

  plain_taken :
      (r : Result Bool) (sent : Result Bool × List (String × Message))
      → (after_check core py ch r sent).0 ≡ ok true
      → (r ≡ ok false) × (sent.0 ≡ ok true)
  plain_taken (ok true) sent h = cc
  plain_taken (ok false) sent h = (refl, h)
  plain_taken (raise e) sent h = cc

  -- The answer True is given only for a signal that is taken.
  pub deliver-true :
      (key : String) (v : Value) → (deliver core py ch key v).0 ≡ ok true → IsTaken key v
  unfolding deliver
  deliver-true key (obj frame) h =
      let (p, sent) =
        plain_taken (is_reserved core py ch (get_or_null "type" frame))
          (group_send core py ch key (realtime_signal key frame)) h in
      let (layer, group, l, n, t) = group_taken key (realtime_signal key frame) sent in
      record {
        frame = frame;
        group = group;
        layer = layer;
        object = refl;
        plain = p;
        layered = l;
        named = n;
        took = t;
      }
  deliver-true key null h = cc
  deliver-true key (bool _) h = cc
  deliver-true key (int _) h = cc
  deliver-true key (float _) h = cc
  deliver-true key (str _) h = cc
  deliver-true key (arr _) h = cc

  journal_reserved :
      (t : String) → is_journal_type (str t) ≡ true → contains t protocol_frame_types ≡ true
  unfolding contains
  journal_reserved t h = elim (Bool-cases (str_eq t live)) [
    | inl e ↦ rw ((eq_iff t live).0 e) refl
    | inr e ↦ rw ((eq_iff t replay).0 (cc)) refl
  ]

  plain_IsHonest : (v : Value) → is_reserved core py ch v ≡ ok false → is_journal_type v ≡ false
  unfolding is_reserved
  plain_IsHonest (str t) h = elim (Bool-cases (is_journal_type (str t))) [
    | inr e ↦ e
    | inl e ↦ absurd (ground (arith, journal_reserved t e))
  ]
  plain_IsHonest null h = refl
  plain_IsHonest (bool _) h = refl
  plain_IsHonest (int _) h = refl
  plain_IsHonest (float _) h = refl
  plain_IsHonest (arr _) h = refl
  plain_IsHonest (obj _) h = refl

  unreserved : (v : Value) → is_reserved core py ch v ≡ ok false → is_protocol_type v ≡ false
  unfolding is_reserved
  unreserved (str t) h = cc
  unreserved null h = refl
  unreserved (bool _) h = refl
  unreserved (int _) h = refl
  unreserved (float _) h = refl
  unreserved (arr _) h = refl
  unreserved (obj _) h = refl

  -- Where `deliver` answers True, what it was given is an object, the layer took it as one signal for
  -- one group, its `type` is not one of the protocol's frame types, and so a socket does not take it
  -- for a journal frame.
  pub delivered_IsHonest :
      (key : String) (v : Value)
      → (deliver core py ch key v).0 ≡ ok true
      → (frame : Fields) × (group : String) × (v ≡ obj frame)
        × ((deliver core py ch key v).1 ≡ (group, realtime_signal key frame) ∷ [])
        × (is_protocol_type (get_or_null "type" frame) ≡ false)
        × IsHonest (realtime_signal key frame)
  delivered_IsHonest key v h =
      let t = deliver-true key v h in
      (
        t.frame,
        t.group,
        t.object,
        ap (λ (sent : Sent). sent.1) (deliver_takes key v t),
        unreserved (get_or_null "type" t.frame) t.plain,
        plain_IsHonest (get_or_null "type" t.frame) t.plain,
      )
