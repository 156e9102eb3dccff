-- ===== src/Base/Classes.antt =====
-- Python's `==` on keys and on the members of a list, as an instance argument.
use Prim.Native.Nat.{ℕ}
use Prim.Native.String.{String}
use mathlib.Core.Path.{◌≡◌, refl}
use mathlib.Core.Logic.{◌↔◌, ◌≢◌}
use mathlib.Core.Bool.{Bool, true, false, ◌&&◌, ◌||◌}
use mathlib.Core.List.{List, [], ◌∷◌}
use native.Mathlib.Omega.{arith}
use text.Mathlib.Text.{◌==◌ as str_beq}
use text.Mathlib.TextEquality.{eq_iff}
use ai_microservices.Base.Tests.{nat_beq, nat_beq_iff}

pub record Eq {ℓ} (A : Type ℓ) : Type ℓ where
  pub eqb : A → A → Bool
  pub eqb_iff : (a b : A) → (eqb a b ≡ true) ↔ (a ≡ b)

instance abbrev pub nat_eq : Eq ℕ
nat_eq = record { eqb = nat_beq; eqb_iff = nat_beq_iff }

instance abbrev pub string_eq : Eq String
string_eq = record { eqb = str_beq; eqb_iff = eq_iff }

infix 50 ◌==◌
abbrev pub ◌==◌ {ℓ} : {A : Type ℓ} ⦃d : Eq A⦄ → A → A → Bool
◌==◌ ⦃d⦄ = d.eqb

abbrev pair_beq : String × String → String × String → Bool
pair_beq (a, b) (c, d) = str_beq a c && str_beq b d

pub pair_beq_iff : (p q : String × String) → (pair_beq p q ≡ true) ↔ (p ≡ q)
pair_beq_iff (a, b) (c, d) = ground (arith, eq_iff a c, eq_iff b d)

-- A tuple of two texts is a dictionary key too.
instance abbrev pub pair_eq : Eq (String × String)
pair_eq = record { eqb = pair_beq; eqb_iff = pair_beq_iff }

module _ {ℓ} {A : Type ℓ} ⦃e : Eq A⦄ where
  pub ==_refl : (a : A) → (a == a) ≡ true
  ==_refl a = (e.eqb_iff a a).1 refl

  pub ==_ne : (a b : A) → a ≢ b → (a == b) ≡ false
  ==_ne a b h = ground (arith, e.eqb_iff a b)

  -- `a in xs`
  abbrev pub contains : List A → A → Bool
  contains [] a = false
  contains (x ∷ xs) a = x == a || contains xs a
