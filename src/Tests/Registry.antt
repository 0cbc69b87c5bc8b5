-- ===== src/Tests/Registry.antt =====
-- The theorems on the presence registry, at a cache that is a dict.
use stapel_realtime.Prelude.{String, true, Option, none, some, [], ◌∷◌, ◌≡◌, refl}
use stapel_realtime.Prelude.Int.{pos}
use stapel_realtime.Python.{
  arr, cons, nil, Float, finite, float, Value, int, str, obj, Fields, end, field, get_or_null, put,
  ok, ◌>>=◌,
}
use stapel_realtime.Conf.{defaults}
use stapel_realtime.Presence.{Cache, entry_of}
use stapel_realtime.Presence.Registry.{idents_of, distinct}
use stapel_realtime.Presence.Batch.{found as found_in}
use stapel_realtime.Functions.{ids_asked, live_batch}
use stapel_realtime.Functions.Agreed.{keys_read, call_each, functions_agree}
use stapel_realtime.Envelope.{contains}
use stapel_realtime.Tests.Fixtures.{texts}

-- A cache that keeps all that it is given.
abbrev keeping : Cache
keeping = record {
  State = Fields;
  opens = true;
  read = λ now k s. ok (get_or_null k s);
  read_many = λ now ks s. ok s;
  write = λ now k v ttl s. ok (put k v s);
}

abbrev no_iso : Float → Option String
no_iso _ = none

abbrev seven : Value
seven = int (pos 7)

abbrev stored : String
stored = "stapel:realtime:presence:7"

abbrev first_document : Value
first_document = obj (
    field "sessions" (obj (field "specific.1" (obj (entry_of 5 (some "chat"))) end))
      (field "last_seen" (float (finite (pos 5))) end))

abbrev after_connect : Fields
after_connect = field stored first_document end

-- Two users in one question.
abbrev both : Fields
both = field "user_ids" (arr (cons (str "7") (cons (str "8") nil))) end

follows :
    (key : String)
    → contains key (keys_read texts no_iso defaults keeping 9 both after_connect) ≡ true
    → keeping.read 9 key after_connect
      ≡ found_in key (
          keeping.read_many 9
            (keys_read texts no_iso defaults keeping 9 both after_connect)
            after_connect)
follows key h = refl

functions_agree_example : live_batch texts no_iso defaults keeping 9 both after_connect ≡ (do
  users ← call_each texts no_iso defaults keeping 9 both after_connect ("7" ∷ "8" ∷ [])
  ok (record { users = users }))
unfolding ids_asked idents_of distinct
functions_agree_example = functions_agree texts no_iso defaults keeping 9 both after_connect follows
