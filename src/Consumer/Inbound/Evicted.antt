-- ===== src/Consumer/Inbound/Evicted.antt =====
-- A revocation from its call (`revoke`, delivery.py) to the sockets of the stream (consumers.py).
use mathlib.Core.Path.{subst}
use stapel_realtime.Prelude.{
  ℕ, ◌<◌, String, true, false, none, some, [], ◌∷◌, ◌++◌, map, length, ◌≡◌, ◌≢◌, refl, sym, ap, ◌∙◌,
}
use stapel_realtime.Python.{Value, null, bool, int, float, str, arr, obj, ok}
use stapel_realtime.Python.Convert.{text_of}
use stapel_realtime.CloseCodes.{close_revoked}
use stapel_realtime.Streams.{group_name}
use stapel_realtime.Delivery.{Message, realtime_revoke, Channels, Sent, target_of, revoke}
use stapel_realtime.Delivery.Reached.{group_taken, group_takes}
use stapel_realtime.Consumer.State.{send, close, Socket, Context}
use stapel_realtime.Consumer.Outbound.Drained.{successes, rounds_held, pending}
use stapel_realtime.Consumer.Heartbeat.{user_id}
use stapel_realtime.Consumer.Inbound.{on_message}
use stapel_realtime.Consumer.Inbound.Revoked.{IsHit, everyone, own, with_kick, revoked_kicks}
use stapel_realtime.Consumer.Machine.{messaged, handle}

-- Whom a call of `revoke` concerns: everybody, or the user who is named, in whatever type.
pub data IsNamed (cx : Context) : Value → Type 0 where
  all : IsNamed cx null
  one : (v : Value) → v ≢ null → text_of cx.py v ≡ text_of cx.py (user_id cx) → IsNamed cx v

module _ (cx : Context) (ch : Channels) where
  target_of-some : (v : Value) → v ≢ null → target_of cx.core cx.py ch v ≡ some (text_of cx.py v)
  target_of-some null h = absurd (h refl)
  target_of-some (bool b) h = refl
  target_of-some (int n) h = refl
  target_of-some (float x) h = refl
  target_of-some (str t) h = refl
  target_of-some (arr vs) h = refl
  target_of-some (obj fs) h = refl

  named_IsHit : (v : Value) → IsNamed cx v → IsHit cx (target_of cx.core cx.py ch v)
  named_IsHit _ all = everyone
  named_IsHit _ (one v given same) =
      subst (λ t. IsHit cx t) (sym (target_of-some v given ∙ ap some same)) own

  -- What the layer was given where `revoke` answers True.
  revoke_sent :
      (key : String) (v : Value) (reason : String)
      → (revoke cx.core cx.py ch key v reason).0 ≡ ok true
      → (group : String) × (group_name cx.core cx.py key ≡ ok group)
        × ((revoke cx.core cx.py ch key v reason).1
            ≡ (group, realtime_revoke key (target_of cx.core cx.py ch v) reason) ∷ [])
  unfolding revoke
  revoke_sent key v reason h =
      let m = realtime_revoke key (target_of cx.core cx.py ch v) reason in
      let (layer, group, l, n, t) = group_taken cx.core cx.py ch key m h in
      (
        group,
        n,
        ap (λ (sent : Sent). sent.1) (group_takes cx.core cx.py ch key m layer group l n t),
      )

  -- Where `revoke` answers True, the layer took one message, for the group of the stream key; and a
  -- socket of the user it names, or any socket where it names nobody, to which that message is
  -- handed, open, with room in its queue and with sends that succeed within the drain, sends all that
  -- was queued, a frame of type `kick` last, and closes with 4410.
  pub revoke_evicts :
      (key : String) (v : Value) (reason : String) (s : Socket) (n : ℕ)
      → (revoke cx.core cx.py ch key v reason).0 ≡ ok true
      → IsNamed cx v
      → s.closing ≡ false
      → s.writer ≡ true
      → length s.outbox < s.capacity
      → cx.draining ≡ successes (rounds_held s.in_flight (with_kick reason s) n)
      → (group : String) × (m : Message) × (group_name cx.core cx.py key ≡ ok group)
        × ((revoke cx.core cx.py ch key v reason).1 ≡ (group, m) ∷ [])
        × (handle cx (messaged m) s ≡ (
          ok tt,
          record s {
            closing = true;
            writer = true;
            in_flight = none;
            outbox = [];
            trace =
                (s.trace ++ map send (pending s.in_flight (with_kick reason s)))
                ++ close close_revoked ∷ [];
          },
        ))
  unfolding handle on_message
  revoke_evicts key v reason s n taken named opened w fits drains =
      let (group, g, sent) = revoke_sent key v reason taken in
      (
        group,
        realtime_revoke key (target_of cx.core cx.py ch v) reason,
        g,
        sent,
        revoked_kicks cx (target_of cx.core cx.py ch v) reason s n (named_IsHit v named) opened w
            fits drains,
      )
