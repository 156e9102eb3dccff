-- ===== src/Base/Text/Search.antt =====
-- The search for a word in the lower case of a text.
use ai_microservices.Base.{
  ℕ, ◌+◌, String, Bool, true, false, ◌&&◌, ◌||◌, leb, if◌then◌else◌, nat_eq, string_eq, ◌==◌,
  pair_eq,
}
use Prim.Native.Char.{code}

-- the lower case of a letter from A to Z; other characters do not matter to a word without k that does
-- not end in i: only the Kelvin sign becomes k, and a dotted capital I becomes an i and a dot
abbrev pub lower_code : ℕ → ℕ
lower_code n = if leb 65 n && leb n 90 then n + 32 else n

abbrev pub begins : String → String → Bool
begins String.[] s = true
begins (String.◌∷◌ w ws) String.[] = false
begins (String.◌∷◌ w ws) (String.◌∷◌ c s) = code w == lower_code (code c) && begins ws s

-- `word in s.lower()`, for a word in lower case
abbrev pub mentions : String → String → Bool
mentions word String.[] = begins word String.[]
mentions word (String.◌∷◌ c s) = begins word (String.◌∷◌ c s) || mentions word s
