-- ===== src/Base/Equality.antt =====
-- Equality tests, as an interface: on numbers, and on byte texts (`std::string`).
use Prim.Native.Nat.{ℕ}
use mathlib.Core.Path.{◌≡◌}
use mathlib.Core.Logic.{◌↔◌}
use mathlib.Core.Bool.{Bool, true, false, ◌&&◌}
use mathlib.Core.List.{List, [], ◌∷◌}
use native.Mathlib.Omega.{arith}
use simple_cgate.Base.Tests.{nat_beq, nat_beq_iff}

-- A test on the keys of a map, and that it finds out which keys are the same.
pub record KeyTest (K : Type 0) : Type 0 where
  pub same_key : K → K → Bool
  pub same_key_iff : (j k : K) → (same_key j k ≡ true) ↔ (j ≡ k)

abbrev pub Text : Type 0
Text = List ℕ

unfoldable pub text_beq : Text → Text → Bool
text_beq [] [] = true
text_beq [] (b ∷ t) = false
text_beq (a ∷ s) [] = false
text_beq (a ∷ s) (b ∷ t) = nat_beq a b && text_beq s t

pub text_beq_iff : (s t : Text) → (text_beq s t ≡ true) ↔ (s ≡ t)
unfolding text_beq
text_beq_iff [] [] = ground arith
text_beq_iff [] (b ∷ t) = ground arith
text_beq_iff (a ∷ s) [] = ground arith
text_beq_iff (a ∷ s) (b ∷ t) = ground (arith, text_beq_iff s t)

instance abbrev pub nat_eq : KeyTest ℕ
nat_eq = record { same_key = nat_beq; same_key_iff = nat_beq_iff }

instance abbrev pub text_eq : KeyTest Text
text_eq = record { same_key = text_beq; same_key_iff = text_beq_iff }

infix 50 ◌==◌
abbrev pub ◌==◌ : {K : Type 0} ⦃test : KeyTest K⦄ → K → K → Bool
◌==◌ ⦃test⦄ j k = test.same_key j k
