-- ===== src/Api/Client/Poll/Messages.antt =====
-- The words that the messages of errors speak of.
use ai_microservices.Base.Text.Search.{mentions, begins}
use mathlib.Core.Path.{subst}
use Prim.Native.String.{◌++◌}
use package.text.Mathlib.TextLemmas.{cons-append}
use ai_microservices.Api.Client.Poll.{handled, stopped}
use ai_microservices.Api.Client.{value_error}
use ai_microservices.Base.{String, ◌≡◌, refl, sym, inl, inr, true, arith, Bool-cases}

begins-append : (v s t : String) → begins v s ≡ true → begins v (s ++ t) ≡ true
begins-append String.[] s t h = refl
begins-append (String.◌∷◌ d v) String.[] t h = cc
begins-append (String.◌∷◌ d v) (String.◌∷◌ c s) t h =
    rw (cons-append c s t) (ground (arith, begins-append v s t))

mentions-empty : (s : String) → mentions "" s ≡ true
mentions-empty String.[] = refl
mentions-empty (String.◌∷◌ c s) = refl

pub mentions-append : (v s t : String) → mentions v s ≡ true → mentions v (s ++ t) ≡ true
mentions-append String.[] s t h = mentions-empty (s ++ t)
mentions-append (String.◌∷◌ d v) String.[] t h = cc
mentions-append (String.◌∷◌ d v) (String.◌∷◌ c s) t h =
    let w = String.◌∷◌ d v in
    let e = cons-append c s t in
    subst (λ u. mentions w u ≡ true) (sym e)
      (elim (Bool-cases (begins w (String.◌∷◌ c s))) [
        | inl b ↦
            let q = subst (λ u. begins w u ≡ true) e (begins-append w (String.◌∷◌ c s) t b) in
            ground (arith, q)
        | inr b ↦ ground (arith, mentions-append w s t, h, b)
      ])

-- A message that says "failed" ends the polling.
pub handled_failed :
    (message : String)
    → mentions "failed" message ≡ true
    → handled (value_error message) ≡ stopped (value_error message)
handled_failed message h = simp (h, handled)
