-- ===== src/Tests/Origins.antt =====
-- The Origin guard at one configured origin.
use stapel_realtime.Prelude.{none, some, [], ◌∷◌, ◌≡◌, ◌↔◌}
use stapel_realtime.Asgi.{Origins, passed, guard}
use stapel_realtime.Asgi.Guarded.{IsLetThrough, guard_iff}

-- Every text is an https host.
abbrev https_hosts : Origins
https_hosts = record {
  split = λ s. some (record { scheme = "https"; hostname = s; port = some (some 443) });
  port_text = λ n. "443";
  registry = [];
}

guard_iff_example :
    (guard https_hosts none
        ("studio.example.com" ∷ [])
        "websocket"
        (("origin", "studio.example.com") ∷ [])
      ≡ passed)
    ↔ IsLetThrough https_hosts none
        ("studio.example.com" ∷ [])
        "websocket"
        (("origin", "studio.example.com") ∷ [])
guard_iff_example =
    guard_iff https_hosts none ("studio.example.com" ∷ []) "websocket"
      (("origin", "studio.example.com") ∷ [])
