-- ===== src/Checks.antt =====
-- The system checks (checks.py): what a deployment's settings are judged by, before it serves. The
-- texts of the messages are left out.
pub mod Layer
pub mod Routes
pub mod Liveness
pub mod Origins
pub mod Registered
use stapel_realtime.Prelude.{String, Bool, Option, List, if◌then◌else◌}
use stapel_realtime.Python.{Value, obj, Fields, end, get_or_null, other, Result, ok, raise}
use stapel_realtime.Python.Convert.{truthy}

-- `Warning(…, id=…)` and `Error(…, id=…)`
pub data Problem : Type 0 where
  warning error : String → Problem

-- Where a service runs: the Django settings (a missing one is null where the checks read it so), the
-- environment, the value of `redis.asyncio.connection.DEFAULT_SOCKET_TIMEOUT` where redis can be
-- imported, and the `_route` of each websocket pattern of the installed apps, empty for none.
pub record Deployment : Type 0 where
  pub settings : Fields
  pub environ : String → Option String
  pub redis_timeout : Option Value
  pub routes : List String

-- `v or {}`, of which the program then asks for a key: only a dict has `get`.
abbrev pub dict_of : Value → Result Fields
dict_of (obj d) = ok d
dict_of v = if truthy v then raise other else ok end
