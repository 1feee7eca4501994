-- ===== src/Base/Equality.antt =====
-- Equality of keys as an interface: one test `==` for every type that has an instance.
use Prim.Native.Nat.{ℕ}
use mathlib.Core.Path.{◌≡◌}
use mathlib.Core.Logic.{◌↔◌}
use mathlib.Core.Bool.{Bool, true, ◌&&◌}
use native.Mathlib.Omega.{arith}
use oscmix_autostart.Base.Tests.{==_iff, if◌then◌else◌}
use oscmix_autostart.Base.Tests
use oscmix_autostart.Base.Text.{Text, same, same_iff}

pub record Eq {ℓ} (A : Type ℓ) : Type ℓ where
  pub eqb : A → A → Bool
  pub eqb_iff : (a b : A) → (eqb a b ≡ true) ↔ (a ≡ b)

abbrev eq_nat : ℕ → ℕ → Bool
eq_nat a b = Tests.◌==◌ a b

instance abbrev pub nat_eq : Eq ℕ
nat_eq = record { eqb = eq_nat; eqb_iff = ==_iff }

instance abbrev pub text_eq : Eq Text
text_eq = record { eqb = same; eqb_iff = same_iff }

module _ {ℓ κ} {A : Type ℓ} {B : Type κ} ⦃a : Eq A⦄ ⦃b : Eq B⦄ where
  abbrev pub eq_pair : A × B → A × B → Bool
  eq_pair (x, y) (x', y') = a.eqb x x' && b.eqb y y'

  pub eq_pair_iff : (p q : A × B) → (eq_pair p q ≡ true) ↔ (p ≡ q)
  eq_pair_iff (x, y) (x', y') = ground (arith, a.eqb_iff x x', b.eqb_iff y y')
