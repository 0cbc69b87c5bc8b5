-- ===== src/Authorize/Granted.antt =====
-- `WorkspaceCapability` (authorize.py): whom it lets through.
use stapel_realtime.Prelude.{
  String, Bool, true, false, Option, none, some, ◌≡◌, refl, ◌≢◌, ◌↔◌, arith, str_eq, eq_iff,
  Bool-cases, ap, inl, inr,
}
use stapel_realtime.Python.{
  Value, Exn, type_error, value_error, overflow_error, key_error, attribute_error, not_implemented,
  other, invalid_envelope, invalid_stream_key, Result, ok, raise, ◌>>=◌,
}
use stapel_realtime.Streams.{Core, StreamKey, workspace_scope, parse_stream_key}
use stapel_realtime.Authorize.{
  Scope, Workspaces, authenticated, user_pk, user_id_from_scope, is_null, key_or_refused,
  has_capability, verdict_on, workspace_capability,
}

module _ (core : Core) (w : Workspaces) (capability : String) where
  -- Who is let through: an authenticated user with an id, on a well-formed key of a workspace, who
  -- holds the capability there.
  pub record IsGranted (scope : Scope) (stream_key : Option String) : Type 0 where
    pub key : StreamKey
    pub known : authenticated scope.user ≡ true
    pub identified : is_null (user_pk scope.user) ≡ false
    pub parsed : parse_stream_key core stream_key ≡ ok key
    pub scoped : key.scope_type ≡ workspace_scope
    pub held : w.require_capability key.scope_id (user_pk scope.user) capability ≡ ok true

  granted_verdict :
      (user_id : Value) (k : StreamKey)
      → k.scope_type ≡ workspace_scope
      → w.require_capability k.scope_id user_id capability ≡ ok true
      → verdict_on core w capability user_id (some k) ≡ true
  unfolding verdict_on has_capability
  granted_verdict user_id k t h =
      rw ((eq_iff k.scope_type workspace_scope).1 t) (rw (h, has_capability) refl)

  require_held :
      (r : Result Bool) → (elim r [ ok held ↦ held | raise _ ↦ false ]) ≡ true → r ≡ ok true
  require_held (ok b) h = ap ok h
  require_held (raise e) h = cc

  verdict_held :
      (user_id : Value) (k : StreamKey)
      → verdict_on core w capability user_id (some k) ≡ true
      → (k.scope_type ≡ workspace_scope)
        × (w.require_capability k.scope_id user_id capability ≡ ok true)
  unfolding verdict_on has_capability
  verdict_held user_id k h = elim (Bool-cases (str_eq k.scope_type workspace_scope)) [
    | inl e ↦ (
      (eq_iff k.scope_type workspace_scope).0 e,
      require_held (w.require_capability k.scope_id user_id capability) (cc),
    )
    | inr e ↦ absurd (cc)
  ]

  not_found :
      (f : Option StreamKey → Result Bool) (e : Exn)
      → f none ≡ ok false
      → (key_or_refused (raise e) >>= f) ≢ ok true
  not_found f type_error n h = cc
  not_found f value_error n h = cc
  not_found f overflow_error n h = cc
  not_found f key_error n h = cc
  not_found f attribute_error n h = cc
  not_found f not_implemented n h = cc
  not_found f other n h = cc
  not_found f (invalid_envelope _) n h = cc
  not_found f invalid_stream_key n h = cc

  key_found :
      (r : Result StreamKey) (user_id : Value)
      → (key_or_refused r >>= λ key. ok (verdict_on core w capability user_id key)) ≡ ok true
      → (k : StreamKey) × (r ≡ ok k) × (verdict_on core w capability user_id (some k) ≡ true)
  unfolding verdict_on
  key_found (ok k) user_id h = (k, refl, cc)
  key_found (raise e) user_id h =
      absurd (not_found (λ key. ok (verdict_on core w capability user_id key)) e refl h)

  -- `WorkspaceCapability` answers yes exactly to an authenticated user with an id, on a well-formed
  -- key of a workspace, who holds the capability there.
  pub workspace_capability_iff :
      (scope : Scope) (stream_key : Option String)
      → (workspace_capability core w capability scope stream_key ≡ ok true)
        ↔ IsGranted scope stream_key
  unfolding workspace_capability user_id_from_scope
  workspace_capability_iff scope stream_key = (
    λ h. elim (Bool-cases (authenticated scope.user)) [
      | inl a ↦ elim (Bool-cases (is_null (user_pk scope.user))) [
        | inl n ↦ absurd (ground arith)
        | inr i ↦
            let (k, p, v) =
              key_found (parse_stream_key core stream_key) (user_pk scope.user) (ground arith) in
            let (sc, r) = verdict_held (user_pk scope.user) k v in
            record { key = k; known = a; identified = i; parsed = p; scoped = sc; held = r }
      ]
      | inr a ↦ absurd (ground arith)
    ],
    λ g.
        rw (g.known, g.identified, g.parsed)
          (ap ok (granted_verdict (user_pk scope.user) g.key g.scoped g.held)),
  )
