-- ===== src/Consumer/Lifecycle/Connect.antt =====
-- `BaseStreamConsumer.connect` (consumers.py): who gets in, and how the others are turned away.
use stapel_realtime.Prelude.{
  ◌≢◌, str_eq, eq_iff, ℕ, String, Bool, true, false, Option, none, some, List, [], ◌∷◌, ◌≡◌, refl,
  ◌↔◌, arith, Bool-cases, inl, inr, ap, sym, ◌∙◌,
}
use stapel_realtime.Python.{
  Exn, invalid_stream_key, key_error, value_error, invalid_envelope, Result, ok, raise,
  Result-cases,
}
use stapel_realtime.Streams.{group_name}
use stapel_realtime.Authorize.{authenticated}
use stapel_realtime.Consumer.State.{
  Effect, group_add, accept, close, presence_connect, presence_disconnect, group_discard, Socket,
  stopped, Context, fresh, continue, ◌>>=◌,
}
use stapel_realtime.Consumer.Heartbeat.{presence_family, user_id}
use stapel_realtime.Consumer.Lifecycle.{
  get_stream_key, authorize, authorize_cached, is_unresolved, remember, admit, after_asking, join,
  connect, disconnect,
}

abbrev pub has_accept : List Effect → Bool
has_accept [] = false
has_accept (accept ∷ _) = true
has_accept (_ ∷ effects) = has_accept effects

-- Who gets in: an authenticated user whose key is resolved, has a group, and is authorized.
pub record IsAdmitted (cx : Context) : Type 0 where
  pub key : String
  pub group : String
  pub known : authenticated cx.scope.user ≡ true
  pub resolved : get_stream_key cx ≡ ok key
  pub authorized : authorize cx (some key) ≡ ok true
  pub named : group_name cx.core cx.py key ≡ ok group

-- The errors of a stream key that mean an unknown stream: `InvalidStreamKey`, `KeyError`, and
-- `ValueError`, which `InvalidEnvelope` is.
pub data IsUnknownKey : Exn → Type 0 where
  malformed : IsUnknownKey invalid_stream_key
  missing : IsUnknownKey key_error
  unfit : IsUnknownKey value_error
  unreadable : (message : String) → IsUnknownKey (invalid_envelope message)

unknown_unresolved : (e : Exn) → IsUnknownKey e → is_unresolved e ≡ true
unknown_unresolved _ malformed = refl
unknown_unresolved _ missing = refl
unknown_unresolved _ unfit = refl
unknown_unresolved _ (unreadable message) = refl

-- Who is turned away, and with which code.
pub data IsRefused (cx : Context) : ℕ → Type 0 where
  unknown : authenticated cx.scope.user ≡ false → IsRefused cx 4401
  unresolved :
      (e : Exn)
      → authenticated cx.scope.user ≡ true
      → get_stream_key cx ≡ raise e
      → IsUnknownKey e
      → IsRefused cx 4404
  forbidden :
      (key : String)
      → authenticated cx.scope.user ≡ true
      → get_stream_key cx ≡ ok key
      → authorize cx (some key) ≡ ok false
      → IsRefused cx 4403

-- Who is refused (without a known user, 4401; with a stream key that is malformed, missing in the URL
-- or no valid value, 4404; or denied by the authorizer, 4403) gets the close code of the reason and
-- nothing else: no accept, no group and no presence, neither the writer nor the heartbeat starts, and
-- no exception is raised.
pub connect_refuses :
    (cx : Context) (s : Socket) (code : ℕ)
    → IsRefused cx code
    → ((connect cx s).0 ≡ ok tt)
      × ((connect cx s).1.trace ≡ close code ∷ [])
      × ((connect cx s).1.writer ≡ false)
      × ((connect cx s).1.heartbeat ≡ stopped)
      × ((connect cx s).1.group ≡ none)
      × ((connect cx s).1.presence_session ≡ none)
unfolding connect authorize_cached fresh ◌>>=◌
connect_refuses cx s _ (unknown a) = ground (arith)
connect_refuses cx s _ (unresolved e a k u) = ground (arith, unknown_unresolved e u)
connect_refuses cx s _ (forbidden key a k d) = ground (arith)

-- From the group on.
module _ (cx : Context) (key : String) (s : Socket) (none_yet : s.trace ≡ []) where
  group_found :
      has_accept (join cx key s).1.trace ≡ true
      → (group : String) × (group_name cx.core cx.py key ≡ ok group)
  unfolding join ◌>>=◌
  group_found h = elim (Result-cases (group_name cx.core cx.py key)) [
    | inl found ↦ found
    | inr (e, r) ↦ absurd (ground arith)
  ]

verdict_found :
    (cx : Context) (key : String) (s : Socket) (v : Result Bool)
    → s.trace ≡ []
    → has_accept (continue (after_asking cx v s) (admit cx key)).1.trace ≡ true
    → (v ≡ ok true) × ((group : String) × (group_name cx.core cx.py key ≡ ok group))
verdict_found cx key s (ok true) none_yet h =
    (refl, group_found cx key (remember cx true s) none_yet h)
verdict_found cx key s (ok false) none_yet h = absurd (ground arith)
verdict_found cx key s (raise e) none_yet h = absurd (ground arith)

abbrev keyed : Context → String → Socket
keyed cx key = record (fresh cx) { stream_key = some key }

connect_asks :
    (cx : Context) (s : Socket) (key : String)
    → authenticated cx.scope.user ≡ true
    → get_stream_key cx ≡ ok key
    → connect cx s
      ≡ continue (after_asking cx (authorize cx (some key)) (keyed cx key)) (admit cx key)
unfolding connect authorize_cached ◌>>=◌
connect_asks cx s key a k = rw (a, k) refl

joins : (cx : Context) (s : Socket) → has_accept (connect cx s).1.trace ≡ true → IsAdmitted cx
unfolding connect authorize_cached fresh ◌>>=◌
joins cx s h = elim (Bool-cases (authenticated cx.scope.user)) [
  | inr a ↦ absurd (ground arith)
  | inl a ↦ elim (Result-cases (get_stream_key cx)) [
    | inl (key, k) ↦
        let (v, (group, g)) = verdict_found cx key (keyed cx key) (authorize cx (some key)) refl (
          ap (λ (r : Result (Unit {0}) × Socket). has_accept r.1.trace)
            (sym (connect_asks cx s key a k))
          ∙ h) in
        record { key = key; group = group; known = a; resolved = k; authorized = v; named = g }
    | inr (e, k) ↦ absurd (ground arith)
  ]
]

admitted : (cx : Context) (s : Socket) → IsAdmitted cx → has_accept (connect cx s).1.trace ≡ true
unfolding connect authorize_cached fresh join ◌>>=◌
admitted cx s a = elim (Result-cases (presence_family cx (some a.key))) [
  | inl (family, f) ↦ rw (a.known, a.resolved, a.authorized, a.named, f) refl
  | inr (e, f) ↦ rw (a.known, a.resolved, a.authorized, a.named, f) refl
]

-- A connection is accepted exactly when its user is authenticated, its stream key resolved,
-- authorized and nameable; in every other case, exceptions included, no accept is sent.
pub connect_accepted_iff :
    (cx : Context) (s : Socket) → (has_accept (connect cx s).1.trace ≡ true) ↔ IsAdmitted cx
connect_accepted_iff cx s = (joins cx s, admitted cx s)

named_text : (t : String) → t ≢ "" → str_eq t "" ≡ false
named_text t h = ground (arith, eq_iff t "")

-- What an admitted socket with a named channel and a known presence family has done to its
-- surroundings once it connected and disconnected: it joined one group and left it again, and its
-- session was counted as present once and then uncounted.
connect-disconnect :
    (cx : Context) (s : Socket) (a : IsAdmitted cx) (family : Option String)
    → cx.channel_name ≢ ""
    → presence_family cx (some a.key) ≡ ok family
    → (disconnect cx (connect cx s).1).trace
      ≡ group_add a.group
        ∷ accept
        ∷ presence_connect (user_id cx) cx.channel_name family
        ∷ presence_disconnect (user_id cx) cx.channel_name
        ∷ group_discard a.group
        ∷ []
unfolding connect disconnect authorize_cached fresh join ◌>>=◌
connect-disconnect cx s a family c f =
    rw (a.known, a.resolved, a.authorized, a.named, f) (rw (named_text cx.channel_name c) refl)
