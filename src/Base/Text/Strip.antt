-- ===== src/Base/Text/Strip.antt =====
-- What `strip` keeps of a text that is not blank.
use Prim.Native.Char.{code}
use Prim.Native.String.{String}
use mathlib.Core.Path.{◌≡◌, refl, sym, ◌∙◌}
use mathlib.Core.Bool.{Bool, false, not, ◌||◌}
use native.Mathlib.Omega.{arith}
use ai_microservices.Base.Text.{truthy, is_space, lstrip, rstrip, strip}

-- a character that `strip` keeps
abbrev has_ink : String → Bool
has_ink String.[] = false
has_ink (String.◌∷◌ c s) = not (is_space (code c)) || has_ink s

truthy-rstrip : (s : String) → truthy (rstrip s) ≡ has_ink s
unfolding rstrip
truthy-rstrip String.[] = refl
truthy-rstrip (String.◌∷◌ c s) = ground (arith, truthy-rstrip s)

has_ink-rstrip : (s : String) → has_ink (rstrip s) ≡ has_ink s
unfolding rstrip
has_ink-rstrip String.[] = refl
has_ink-rstrip (String.◌∷◌ c s) = ground (arith, has_ink-rstrip s, truthy-rstrip s)

has_ink-lstrip : (s : String) → has_ink (lstrip s) ≡ has_ink s
unfolding lstrip
has_ink-lstrip String.[] = refl
has_ink-lstrip (String.◌∷◌ c s) = ground (arith, has_ink-lstrip s)

-- a text that is not blank is not blank once it is stripped
truthy-strip : (s : String) → truthy (strip s) ≡ has_ink s
unfolding strip
truthy-strip s = truthy-rstrip (lstrip s) ∙ has_ink-lstrip s

has_ink-strip : (s : String) → has_ink (strip s) ≡ has_ink s
unfolding strip
has_ink-strip s = has_ink-rstrip (lstrip s) ∙ has_ink-lstrip s

pub truthy-strip-strip : (s : String) → truthy (strip (strip s)) ≡ truthy (strip s)
truthy-strip-strip s = truthy-strip (strip s) ∙ has_ink-strip s ∙ sym (truthy-strip s)
