-- ===== src/Tests/Sessions.antt =====
-- The registry after a history of writes, at a cache that forgets a document at its timeout.
use stapel_realtime.Prelude.{
  ℕ, ◌+◌, ◌*◌, String, true, false, Option, none, some, [], ◌∷◌, ◌++◌, ◌≡◌, ◌≢◌, refl, ap, sym, ◌∙◌,
  arith, str_eq, if◌then◌else◌, ltb, eq_iff,
}
use stapel_realtime.Prelude.Int.{pos}
use stapel_realtime.Python.{Float, Value, int, str, units, end, ok}
use stapel_realtime.Conf.{defaults}
use stapel_realtime.Presence.{Cache, Snapshot, user_key}
use stapel_realtime.Presence.Registry.{is_live, draft_touch, commit}
use stapel_realtime.Presence.Roster.Overlap.{overlap_forgets}
use stapel_realtime.Presence.Roster.{touching, ending, roster, noted, forget, count}
use stapel_realtime.Presence.Roster.Mirrored.{unexpired, Keeps, key}
use stapel_realtime.Presence.Roster.Fleet.{History, AreInTurn, do_writes, own, is_live_refines}
use stapel_realtime.Functions
use stapel_realtime.Authorize.{is_null}
use stapel_realtime.Python.Convert.{or_else, truthy}
use stapel_realtime.Consumer.Heartbeat.{user_id}
use stapel_realtime.Consumer.Lifecycle.{connect}
use stapel_realtime.Consumer.Watched.{question, presence_writes}
use stapel_realtime.Consumer.Watched.Since.{stays_live}
use stapel_realtime.Tests.Fixtures.{texts, context, socket, settings}
use stapel_realtime.Tests.Sockets.{admission, of_chat}

-- A cache that holds each document with the time until which it is read.
abbrev timed : Cache
timed = record {
  State = String → Option (Value × ℕ);
  opens = true;
  read = λ now k s. ok (unexpired now (s k));
  read_many = λ now ks s. ok end;
  write =
      λ now k v timeout s. ok (λ j. if str_eq j k then some (v, now + timeout * units) else s j);
}

abbrev no_iso : Float → Option String
no_iso _ = none

abbrev seven : Value
seven = int (pos 7)

abbrev nowhere : timed.State
nowhere = λ _. none

-- Two tabs of chat, a call of somebody else, and one of video; then a tab of chat is closed.
abbrev visits : History
visits =
    (seven, 1, touching "a" (some "chat"))
    ∷ (str "7", 2, touching "b" (some "chat"))
    ∷ (int (pos 8), 2, touching "d" (some "chat"))
    ∷ (seven, 3, touching "c" (some "video"))
    ∷ (seven, 4, ending "a")
    ∷ []

same_state : {s t : timed.State} → ok s ≡ ok t → s ≡ t
same_state h = cc

missed :
    (place other : String)
    → place ≢ other
    → (v w : Option (Value × ℕ)) → (if str_eq place other then v else w) ≡ w
missed place other n v w = ground (arith, eq_iff place other)

keeps : (place : String) → Keeps timed place
keeps place = record {
  held = λ s. s place;
  writes = λ now timeout doc state. (_, refl, ground (arith, eq_iff place place));
  reads = λ now state. refl;
  apart = λ now timeout other doc state after n h.
      ap (λ (s : timed.State). s place) (sym (same_state h))
      ∙ missed place other (λ e. n (sym e)) _ (state place);
}

differ : (a b : String) → str_eq a b ≡ false → a ≢ b
differ a b h e = ground (arith, eq_iff a b)

named : (id : String) → str_eq id "" ≡ false → id ≢ ""
named id h = differ id "" h

in_turn : AreInTurn 0 visits 9
in_turn = (
  omega arith,
  named "a" refl,
  (
    omega arith,
    named "b" refl,
    (
      omega arith,
      named "d" refl,
      (omega arith, named "c" refl, (omega arith, named "a" refl, omega arith)),
    ),
  ),
)

is_live_refines_example :
    (snap : Snapshot) × (is_live texts no_iso defaults timed 9 seven
        (some "chat")
        (do_writes texts no_iso defaults timed visits nowhere)
      ≡ ok snap)
    × (snap.sessions ≡ 1)
    × (snap.live ≡ ltb 0 snap.sessions)
unfolding count roster noted forget keeps own user_key
is_live_refines_example =
    is_live_refines texts no_iso defaults timed seven
      (keeps (key texts no_iso defaults timed seven)) refl refl refl visits 9 (some "chat") nowhere
      refl in_turn

-- A tab of the same user before the connect, and a call of somebody else and that tab's end after it.
abbrev before : History
before = (seven, 1, touching "a" none) ∷ []

abbrev meanwhile : History
meanwhile = (int (pos 8), 6, touching "d" none) ∷ (seven, 7, ending "a") ∷ []

identified : is_null (user_id context) ≡ false
unfolding user_id or_else truthy
identified = refl

visits_in_turn :
    AreInTurn 0 (before ++ (user_id context, 5, touching "specific.1" (some "chat")) ∷ meanwhile) 9
visits_in_turn = (
  omega arith,
  named "a" refl,
  (
    omega arith,
    named "specific.1" refl,
    (omega arith, named "d" refl, (omega arith, named "a" refl, omega arith)),
  ),
)

stays_live_example :
    (snap : Snapshot) × (Functions.is_live texts no_iso settings timed 9 (question context) (
        do_writes texts no_iso settings timed meanwhile (
          presence_writes context no_iso timed 5
            (connect context socket).1.trace
            (do_writes texts no_iso settings timed before nowhere)))
      ≡ ok snap)
    × (snap.live ≡ true)
unfolding keeps
stays_live_example =
    stays_live context no_iso timed 5 9 socket admission (some "chat") before meanwhile nowhere
      (keeps (key texts no_iso settings timed (user_id context))) refl identified refl of_chat refl
      visits_in_turn (tt, (differ "a" "specific.1" refl, tt)) (omega arith)

-- A tab connects; while a second one connects, the first is closed.
abbrev first_tab : History
first_tab = (seven, 1, touching "a" (some "chat")) ∷ []

abbrev first_left : timed.State
first_left =
    do_writes texts no_iso defaults timed (first_tab ++ (seven, 3, ending "a") ∷ []) nowhere

tabs_in_turn : AreInTurn 0 (first_tab ++ (seven, 2, touching "b" (some "chat")) ∷ []) 9
tabs_in_turn = (omega arith, named "a" refl, (omega arith, named "b" refl, omega arith))

-- Both count.
overlap_forgets_example :
    (snap : Snapshot) × (is_live texts no_iso defaults timed 9 seven
        (some "chat")
        (commit texts no_iso defaults timed 2 seven
          (draft_touch texts no_iso defaults timed 2 seven "b"
            (some "chat")
            (do_writes texts no_iso defaults timed first_tab nowhere))
          first_left).1
      ≡ ok snap)
    × (snap.sessions ≡ 2)
    × (snap.live ≡ ltb 0 snap.sessions)
unfolding count roster noted forget keeps own user_key
overlap_forgets_example =
    overlap_forgets texts no_iso defaults timed seven
      (keeps (key texts no_iso defaults timed seven)) refl refl refl first_tab 2 9 "b" (some "chat")
      (some "chat") nowhere first_left refl tabs_in_turn
