-- ===== src/Base/Equality.antt =====
-- Go's comparable types: the keys of a map, which the operator `==` tells apart.
use Prim.Native.Nat.{ℕ}
use mathlib.Core.Path.{◌≡◌}
use mathlib.Core.Logic.{◌↔◌}
use mathlib.Core.Bool.{Bool, true}
use hwarr.Base.Tests.{nat_beq, nat_beq_iff}

infix 50 ◌==◌
-- A test and that it decides equality.
pub record Comparable {κ} (K : Type κ) : Type κ where
  pub equal : K → K → Bool
  pub equal_iff : (j k : K) → (equal j k ≡ true) ↔ (j ≡ k)

instance abbrev pub nat_eq : Comparable ℕ
nat_eq = record { equal = nat_beq; equal_iff = nat_beq_iff }

abbrev pub ◌==◌ {κ} : {K : Type κ} ⦃comparable : Comparable K⦄ → K → K → Bool
◌==◌ ⦃comparable⦄ j k = comparable.equal j k
