-- ===== src/Checks/Liveness/Lapse.antt =====
-- The lease and the beat that renews it (checks.py, consumers.py, presence.py).
use stapel_realtime.Prelude.{
  ℕ, ◌+◌, ◌*◌, ◌<◌, String, ◌≡◌, refl, Option, none, [], ◌∷◌, false, arith,
}
use stapel_realtime.Prelude.Int.{ℤ, pos, negsuc, pos_part, ◌<ℤ◌, ◌+ℤ◌, max_ℤ, ◌-ℤ◌, -ℤ_parts}
use stapel_realtime.Python.{Float, finite, units, ok, Texts}
use stapel_realtime.Conf.{Settings}
use stapel_realtime.Presence.{
  Snapshot, is_within, put_session, entry_of, document, live_among, seens_of, snapshot,
}
use stapel_realtime.Presence.Lease.{
  sessions_of-document, seen_now, seens_cons, own_seen, told, snapshot_of,
}
use stapel_realtime.Checks.Liveness.{check_presence_ttl}

-- From one beat to the next, in seconds: the loop sleeps before the beat and again for the pong.
unfoldable pub beat_period : Settings → ℤ
beat_period settings = settings.heartbeat_s +ℤ max_ℤ (pos 1) settings.heartbeat_timeout_s

out_of_time :
    (now later ttl : ℕ) → now + ttl * units < later → is_within later ttl (finite (pos now)) ≡ false
unfolding is_within ◌-ℤ◌
out_of_time now later ttl h = ground (arith, -ℤ_parts (pos later) (pos now))

lt_parts : (a b : ℤ) → pos 0 <ℤ a → a <ℤ b → pos_part a < pos_part b
lt_parts (pos m) (pos n) h k = omega arith
lt_parts (pos m) (negsuc n) h k = absurd (omega arith)
lt_parts (negsuc m) b h k = absurd (omega arith)

lt_trans : (a b c : ℤ) → a <ℤ b → b <ℤ c → a <ℤ c
lt_trans a b c h k = omega arith

check_silent :
    (settings : Settings)
    → pos 0 <ℤ settings.heartbeat_s
    → settings.heartbeat_s <ℤ settings.presence_ttl_s
    → check_presence_ttl settings ≡ []
unfolding check_presence_ttl
check_silent settings h k = ground arith

module _ (py : Texts) (iso : Float → Option String) (now later ttl : ℕ) (family : Option String)
    (id : String) (late : now + ttl * units < later) where
  none_lives : live_among later ttl (finite (pos now) ∷ []) ≡ []
  unfolding live_among
  none_lives = rw (out_of_time now later ttl late) refl

  -- The lease of the only session has run out.
  lone_lapses :
      (snap : Snapshot) × (snapshot py iso
          (document (put_session id (entry_of now family) []) now)
          none
          later
          ttl
        ≡ ok snap)
      × (snap.live ≡ false)
  unfolding put_session seens_of
  lone_lapses =
      let new = (id, entry_of now family) ∷ [] in
      let (own, ho) = own_seen py iso now new in
      (
        told py iso later ttl (finite (pos now) ∷ []) own,
        snapshot_of py iso (document new now) later ttl new (finite (pos now) ∷ []) own
            (sessions_of-document new now)
            (seens_cons py iso id (entry_of now family) [] (finite (pos now)) []
              (seen_now py iso now family) refl)
            ho,
        rw none_lives refl,
      )

-- A lease that is longer than `HEARTBEAT_S` and shorter than a whole round of the heartbeat passes
-- the check, and yet it has run out when the next beat is due: a user with this one socket, which
-- is renewed on time, reads as offline before each beat.
pub lease_lapses :
    (settings : Settings) (py : Texts) (iso : Float → Option String) (now : ℕ)
    (family : Option String) (id : String)
    → pos 0 <ℤ settings.heartbeat_s
    → settings.heartbeat_s <ℤ settings.presence_ttl_s
    → settings.presence_ttl_s <ℤ beat_period settings
    → (check_presence_ttl settings ≡ [])
      × ((snap : Snapshot) × (snapshot py iso
              (document (put_session id (entry_of now family) []) now)
              none
              (now + pos_part (beat_period settings) * units)
              (pos_part settings.presence_ttl_s)
            ≡ ok snap)
          × (snap.live ≡ false))
lease_lapses settings py iso now family id h k wide = (
  check_silent settings h k,
  lone_lapses py iso now (now + pos_part (beat_period settings) * units)
      (pos_part settings.presence_ttl_s) family id
      (omega (
        arith,
        lt_parts settings.presence_ttl_s (beat_period settings)
            (lt_trans (pos 0) settings.heartbeat_s settings.presence_ttl_s h k) wide,
      )),
)
