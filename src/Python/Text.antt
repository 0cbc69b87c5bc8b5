-- ===== src/Python/Text.antt =====
-- Texts as Python walks them: `s.split(c)`, `s.replace(c, d)` for single characters, `len(s)`,
-- `s[:n]`. A text is a sequence of characters, and a separator is given by its code.
use Prim.Native.Char.{Char, code}
use stapel_realtime.Prelude.{
  ℕ, zero, suc, String, Bool, true, false, ◌&&◌, ◌||◌, List, [], ◌∷◌, ◌==◌, if◌then◌else◌,
}

-- `len(s)`
unfoldable pub size : String → ℕ
size String.[] = 0
size (String.◌∷◌ c s) = suc (size s)

-- `s[:n]`
unfoldable pub prefix : ℕ → String → String
prefix zero s = String.[]
prefix (suc n) String.[] = String.[]
prefix (suc n) (String.◌∷◌ c s) = String.◌∷◌ c (prefix n s)

-- `s.replace(chr(a), d)`
unfoldable pub replace : ℕ → Char → String → String
replace a d String.[] = String.[]
replace a d (String.◌∷◌ c s) = String.◌∷◌ (if code c == a then d else c) (replace a d s)

-- `chr(a) in s`
unfoldable pub has_char : ℕ → String → Bool
has_char a String.[] = false
has_char a (String.◌∷◌ c s) = code c == a || has_char a s

unfoldable pub push_front : Char → List String → List String
push_front c [] = String.◌∷◌ c String.[] ∷ []
push_front c (p ∷ ps) = String.◌∷◌ c p ∷ ps

-- `s.split(chr(a))`
unfoldable pub split : ℕ → String → List String
unfolding push_front
split a String.[] = String.[] ∷ []
split a (String.◌∷◌ c s) =
    let rest = split a s in if code c == a then String.[] ∷ rest else push_front c rest

-- `s.lstrip(chr(a))`
unfoldable pub lstrip : ℕ → String → String
lstrip a String.[] = String.[]
lstrip a (String.◌∷◌ c s) = let rest = lstrip a s in if code c == a then rest else String.◌∷◌ c s

-- What is left of `c` and a stripped text.
unfoldable pub keep_unless : Bool → Char → String → String
keep_unless true c String.[] = String.[]
keep_unless true c (String.◌∷◌ d s) = String.◌∷◌ c (String.◌∷◌ d s)
keep_unless false c s = String.◌∷◌ c s

-- `s.rstrip(chr(a))`
unfoldable pub rstrip : ℕ → String → String
unfolding keep_unless
rstrip a String.[] = String.[]
rstrip a (String.◌∷◌ c s) = keep_unless (code c == a) c (rstrip a s)

-- `s.strip(chr(a))`
unfoldable pub strip : ℕ → String → String
unfolding lstrip rstrip
strip a s = rstrip a (lstrip a s)

-- `s.startswith(t)`
unfoldable pub begins : String → String → Bool
begins s String.[] = true
begins String.[] (String.◌∷◌ d t) = false
begins (String.◌∷◌ c s) (String.◌∷◌ d t) = code c == code d && begins s t

-- `t in s`
unfoldable pub has_part : String → String → Bool
unfolding begins
has_part t String.[] = begins String.[] t
has_part t (String.◌∷◌ c s) = begins (String.◌∷◌ c s) t || has_part t s
