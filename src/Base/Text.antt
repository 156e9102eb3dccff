-- ===== src/Base/Text.antt =====
-- Python's `str.strip` and the truth value of a text.
pub mod Strip
pub mod Split
pub mod Search
use ai_microservices.Base.{string_eq, pair_eq, []}
use Prim.Native.Nat.{ℕ, Ordering, compare as nat_compare}
use native.Mathlib.Omega.{arith}
use text.Mathlib.Text.{is_lt}
use Prim.Native.Char.{code}
use Prim.Native.String.{String, compare}
use Prim.Native.String.compare
use mathlib.Core.Path.{◌≡◌, refl}
use mathlib.Core.Bool.{Bool, true, false, not, ◌&&◌, ◌||◌}
use ai_microservices.Base.Tests.{leb, if◌then◌else◌}
use ai_microservices.Base.Classes.{nat_eq, ◌==◌}

-- `bool(s)`: a text is true unless it is empty
abbrev pub truthy : String → Bool
truthy String.[] = false
truthy (String.◌∷◌ c s) = true

-- the code points for which `str.isspace` holds
unfoldable pub is_space : ℕ → Bool
is_space c =
    leb 9 c && leb c 13
    || leb 28 c && leb c 32
    || c == 0x85
    || c == 0xa0
    || c == 0x1680
    || leb 0x2000 c && leb c 0x200a
    || c == 0x2028
    || c == 0x2029
    || c == 0x202f
    || c == 0x205f
    || c == 0x3000

pub lstrip : String → String
lstrip String.[] = ""
lstrip (String.◌∷◌ c s) = let rest = lstrip s in if is_space (code c) then rest else String.◌∷◌ c s

-- a blank tail is dropped whole
pub rstrip : String → String
rstrip String.[] = ""
rstrip (String.◌∷◌ c s) =
    let rest = rstrip s in if is_space (code c) && not (truthy rest) then "" else String.◌∷◌ c rest

unfoldable pub strip : String → String
unfolding is_space lstrip rstrip
strip s = rstrip (lstrip s)

strip_example : strip "  a b \n" ≡ "a b"
unfolding strip
strip_example = refl

-- Python's `s < t`
abbrev pub text_ltb : String → String → Bool
text_ltb s t = is_lt (compare s t)

compare_asym : (m n : ℕ) → nat_compare m n ≡ Ordering.lt → nat_compare n m ≡ Ordering.gt
compare_asym m n h = ground arith

-- No text is before one that is before it.
pub text_ltb_asym : (s t : String) → text_ltb s t ≡ true → text_ltb t s ≡ false
text_ltb_asym String.[] String.[] h = refl
text_ltb_asym String.[] (String.◌∷◌ d t) h = cc (compare.cons-nil d t)
text_ltb_asym (String.◌∷◌ c s) String.[] h = cc (compare.cons-nil c s)
text_ltb_asym (String.◌∷◌ c s) (String.◌∷◌ d t) h =
    rw compare.cons-cons
      (ground (arith, text_ltb_asym s t, compare.cons-cons c d s t, compare_asym (code c) (code d)))
