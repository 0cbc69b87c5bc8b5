-- ===== src/Asgi.antt =====
-- The Origin guard (asgi.py): which websocket handshakes reach the consumers.
pub mod Guarded
pub mod Assembly
use Prim.Native.String.{◌++◌ as append_text}
use stapel_realtime.Prelude.{
  ℕ, String, Bool, true, false, ◌||◌, Option, none, some, List, [], ◌∷◌, ◌++◌, ◌==◌, str_eq,
  if◌then◌else◌,
}
use stapel_realtime.CloseCodes.{close_forbidden}
use stapel_realtime.Envelope.{contains}

-- What `urlsplit` reads in a text: the scheme and the host name, in lower case and empty where they
-- are missing, and the port, `none` where it is malformed.
pub record Split : Type 0 where
  pub scheme : String
  pub hostname : String
  pub port : Option (Option ℕ)

-- `urlsplit(origin.strip())`, `none` where it raises ValueError, and `str(port)`; the site
-- registry's origins, or none where it cannot be read.
pub record Origins : Type 0 where
  pub split : String → Option Split
  pub port_text : ℕ → String
  pub registry : List String

-- `_DEFAULT_PORTS`
unfoldable pub is_default_port : String → ℕ → Bool
is_default_port scheme port =
    if str_eq scheme "http" || str_eq scheme "ws"
    then port == 80
    else if str_eq scheme "https" || str_eq scheme "wss"
    then port == 443
    else false

-- What a request meets: the application behind the guard, or a close.
pub data Outcome : Type 0 where
  passed : Outcome
  closed : ℕ → Outcome

-- `_origin_header`
unfoldable pub origin_header : List (String × String) → Option String
origin_header [] = none
origin_header ((name, value) ∷ headers) =
    if str_eq name "origin" then some value else origin_header headers

module _ (o : Origins) where
  abbrev origin_text : Split → Option ℕ → String
  origin_text s none = append_text s.scheme (append_text "://" s.hostname)
  origin_text s (some port) =
      if is_default_port s.scheme port
      then append_text s.scheme (append_text "://" s.hostname)
      else append_text s.scheme
          (append_text "://" (append_text s.hostname (append_text ":" (o.port_text port))))

  abbrev normal : Split → Option (Option ℕ) → Option String
  normal s none = none
  normal s (some port) =
      if str_eq s.scheme "" || str_eq s.hostname "" then none else some (origin_text s port)

  -- `normalize_origin`; `none` is ValueError.
  unfoldable pub normalize_origin : String → Option String
  unfolding is_default_port
  normalize_origin origin = elim (o.split origin) [ none ↦ none | some s ↦ normal s s.port ]

  unfoldable pub append_new : List String → List String → List String
  unfolding contains
  append_new entries [] = entries
  append_new entries (origin ∷ origins) =
      append_new (if contains origin entries then entries else entries ++ origin ∷ []) origins

  -- `_configured`: an explicit list is all, else the setting and the site registry.
  unfoldable pub configured : Option (List String) → List String → List String
  unfolding append_new
  configured (some explicit) setting = explicit
  configured none setting = append_new setting o.registry

  -- `allowed`: a malformed entry is dropped.
  unfoldable pub allowed : List String → List String
  unfolding normalize_origin
  allowed [] = []
  allowed (entry ∷ entries) =
      let rest = allowed entries in
      elim (normalize_origin entry) [ some origin ↦ origin ∷ rest | none ↦ rest ]

  -- `None in allowed` is false.
  abbrev pub verdict : List String → Option String → Outcome
  verdict origins (some origin) = if contains origin origins then passed else closed close_forbidden
  verdict origins none = closed close_forbidden

  abbrev pub judge : List String → Option String → Outcome
  judge [] origin = passed
  judge entries none = passed
  judge entries (some origin) = verdict (allowed entries) (normalize_origin origin)

  -- `OriginGuard.__call__`, on a scope's type and headers.
  unfoldable pub guard :
      Option (List String) → List String → String → List (String × String) → Outcome
  unfolding configured allowed normalize_origin contains origin_header
  guard explicit setting scope_type headers =
      if str_eq scope_type "websocket"
      then judge (configured explicit setting) (origin_header headers)
      else passed
