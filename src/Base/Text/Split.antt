-- ===== src/Base/Text/Split.antt =====
-- Python's `str.split()` without a separator.
use text.Mathlib.TextLemmas.{nil-append, cons-append, append-nil}
use ai_microservices.Base.{◌≡◌, refl, false, true}
use Prim.Native.String.{String, ◌++◌}
use Prim.Native.Char.{Char, code}
use mathlib.Core.List.{List, [], ◌∷◌}
use ai_microservices.Base.Tests.{if◌then◌else◌}
use ai_microservices.Base.Text.{is_space, truthy}

-- the text up to the first blank, and what follows it
abbrev cut : Char → String × List String → String × List String
cut c (word, words) =
    if is_space (code c)
    then ("", if truthy word then word ∷ words else words)
    else (String.◌∷◌ c word, words)

abbrev pub pieces : String → String × List String
pieces String.[] = ("", [])
pieces (String.◌∷◌ c s) = cut c (pieces s)

abbrev closed : String × List String → List String
closed (word, words) = if truthy word then word ∷ words else words

unfoldable pub split : String → List String
split s = closed (pieces s)

split_example : split "  Bearer\ta.b  " ≡ "Bearer" ∷ "a.b" ∷ []
unfolding split is_space
split_example = refl

-- no character of the text is a blank
abbrev pub HasNoBlank : String → Type 0
HasNoBlank String.[] = Unit
HasNoBlank (String.◌∷◌ c s) = (is_space (code c) ≡ false) × HasNoBlank s

pieces_word : (s : String) → HasNoBlank s → pieces s ≡ (s, [])
pieces_word String.[] h = refl
pieces_word (String.◌∷◌ c s) h = simp (pieces_word s h.1, h.0)

-- what is before the first blank of a text behind a word, and what follows it
pieces_behind : (w t : String) → HasNoBlank w → pieces (w ++ t) ≡ (w ++ (pieces t).0, (pieces t).1)
pieces_behind String.[] t h = simp (nil-append t, nil-append (pieces t).0)
pieces_behind (String.◌∷◌ c w) t h =
    simp (cons-append c w t, cons-append c w (pieces t).0, pieces_behind w t h.1, h.0)

-- Two words with a blank between them.
pub split_two :
    (w s : String) (c : Char)
    → HasNoBlank w
    → HasNoBlank s
    → truthy w ≡ true
    → truthy s ≡ true
    → is_space (code c) ≡ true
    → split (w ++ String.◌∷◌ c s) ≡ w ∷ s ∷ []
unfolding split
split_two w s c h k t u b =
    simp (pieces_behind w (String.◌∷◌ c s) h, pieces_word s k, b, u, append-nil w, t)
