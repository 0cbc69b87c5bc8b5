-- ===== src/CloseCodes.antt =====
-- The WebSocket close codes of the fleet (close_codes.py). 4401 is the core's number, and the one
-- that the program falls back to.
use stapel_realtime.Prelude.{ℕ, String, Bool, false, ◌||◌, List, [], ◌∷◌, map, ◌==◌, if◌then◌else◌}

abbrev pub close_protocol_error : ℕ
close_protocol_error = 4400

abbrev pub close_unauthenticated : ℕ
close_unauthenticated = 4401

abbrev pub close_forbidden : ℕ
close_forbidden = 4403

abbrev pub close_stream_unknown : ℕ
close_stream_unknown = 4404

abbrev pub close_heartbeat_timeout : ℕ
close_heartbeat_timeout = 4408

abbrev pub close_revoked : ℕ
close_revoked = 4410

abbrev pub close_overflow : ℕ
close_overflow = 4413

abbrev pub close_data_home_unavailable : ℕ
close_data_home_unavailable = 4503

-- `code in codes`
unfoldable pub has_code : ℕ → List ℕ → Bool
has_code code [] = false
has_code code (c ∷ codes) = c == code || has_code code codes

-- Closes after which a client must not come back with the same credentials.
abbrev pub terminal_close_codes : List ℕ
terminal_close_codes = close_forbidden ∷ close_stream_unknown ∷ close_revoked ∷ []

-- `CLOSE_CODE_NAMES` and its lookup.
abbrev pub close_code_names : List (ℕ × String)
close_code_names =
    (close_protocol_error, "protocol_error")
    ∷ (close_unauthenticated, "unauthenticated")
    ∷ (close_forbidden, "forbidden")
    ∷ (close_stream_unknown, "stream_unknown")
    ∷ (close_heartbeat_timeout, "heartbeat_timeout")
    ∷ (close_revoked, "revoked")
    ∷ (close_overflow, "overflow")
    ∷ (close_data_home_unavailable, "data_home_unavailable")
    ∷ []

name_among : ℕ → List (ℕ × String) → String
name_among code [] = "unknown"
name_among code ((c, name) ∷ names) = if c == code then name else name_among code names

unfoldable pub close_code_name : ℕ → String
unfolding name_among
close_code_name code = name_among code close_code_names

-- `code in CLOSE_CODE_NAMES`
abbrev pub is_canonical : ℕ → Bool
is_canonical code = has_code code (map (λ (named : ℕ × String). named.0) close_code_names)
