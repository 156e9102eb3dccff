-- ===== src/Base/Value.antt =====
-- The values of `Dict[str, Any]`: what JSON can say.
use ai_microservices.Base.{nat_eq, pair_eq}
use Prim.Native.Nat.{ℕ}
use Prim.Native.String.{String}
use mathlib.Core.Bool.{Bool}
use mathlib.Core.Option.{Option, none, some}
use ai_microservices.Base.Tests.{if◌then◌else◌}
use ai_microservices.Base.Classes.{string_eq, ◌==◌}
use ai_microservices.Base.Int.{ℤ}

mutual
  pub data Value : Type 0 where
    null : Value
    bool : Bool → Value
    int : ℤ → Value
    -- the 64 bits of an IEEE double
    float : ℕ → Value
    text : String → Value
    -- a `datetime`, which JSON has not and a MongoDB document has
    date : ℕ → Value
    array : Items → Value
    object : Fields → Value

  -- the body of a dictionary with text keys
  pub data Fields : Type 0 where
    end : Fields
    field : String → Value → Fields → Fields

  pub data Items : Type 0 where
    nil : Items
    cons : Value → Items → Items

-- `raw.get(key)`
abbrev pub get : String → Fields → Option Value
get key end = none
get key (field k v fs) = if k == key then some v else get key fs
