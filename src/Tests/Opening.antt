-- ===== src/Tests/Opening.antt =====
-- The public names of the package, a stream that a test opens, and a journal without its hooks.
use stapel_realtime.Prelude.{
  String, ◌≡◌, refl, Bool, true, false, Option, none, some, List, [], ◌∷◌, map, ℕ,
}
use stapel_realtime.Python.{end, ok, raise, attribute_error, not_implemented, other}
use stapel_realtime.Authorize.{Scope}
use stapel_realtime.Package.{all_names, lazy_exports, Importer, Package, access}
use stapel_realtime.Testing.{Client, open_stream, wait_closed, hang_up}
use stapel_realtime.Envelope.{Frame}
use stapel_realtime.Python.Convert.{truthy}
use stapel_realtime.Consumer.State.{Context, ◌>>=◌}
use stapel_realtime.Consumer.Hello.{get_server_seq, get_replay_rows, last_seq_of, on_hello}
use stapel_realtime.Tests.Fixtures.{context, socket, seven, claims_until_9}

all_exported : map (λ (e : String × String). e.0) lazy_exports ≡ all_names
all_exported = refl

-- An importer that counts what it imports; a module is its name.
abbrev counting : Importer
counting = record {
  State = List String;
  Object = String;
  import_module = λ submodule done. (ok submodule, submodule ∷ done);
  attribute = λ m name. ok name;
}

abbrev bare : Package counting
bare = record { globals = []; imported = [] }

abbrev with_frame : Package counting
with_frame = record { globals = ("frame", "frame") ∷ []; imported = ".envelope" ∷ [] }

first_use : access counting "frame" bare ≡ (ok "frame", with_frame)
unfolding access
first_use = refl

second_use : access counting "frame" with_frame ≡ (ok "frame", with_frame)
unfolding access
second_use = refl

no_such_name : access counting "signal" bare ≡ (raise attribute_error, bare)
unfolding access
no_such_name = refl

-- A connection that is refused with 4403.
abbrev refusing : Scope → Bool × Option ℕ
refusing scope = (false, some 4403)

not_expected : open_stream refusing seven none none true ≡ raise other
unfolding open_stream
not_expected = refl

abbrev refused_client : Client
refused_client = record {
  incoming = [];
  outgoing = [];
  closed_with = none;
  is_disconnected = false;
  connected = false;
  close_code = some 4403;
}

expected : open_stream refusing seven (some claims_until_9) none false ≡ ok refused_client
unfolding open_stream
expected = refl

closed_later :
    wait_closed (record refused_client { closed_with = some 4410 }) ≡ (ok 4410, refused_client)
unfolding wait_closed
closed_later = refl

hung_up : (hang_up refused_client).is_disconnected ≡ true
unfolding hang_up
hung_up = refl

abbrev hookless : Context
hookless = record context { server_seq = get_server_seq; replay_rows = get_replay_rows }

abbrev hello_frame : Frame
hello_frame = record { kind = "hello"; payload = end; seq = none; stream = none }

hookless_raises : on_hello hookless hello_frame socket ≡ (raise not_implemented, socket)
unfolding on_hello last_seq_of truthy ◌>>=◌
hookless_raises = refl
