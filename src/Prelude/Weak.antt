-- ===== src/Prelude/Weak.antt =====
-- Strict weak orders by Boolean tests, and their lexicographic product.
use mathlib.Core.Path.{◌≡◌}
use mathlib.Core.Bool.{Bool, true, false, not, ◌&&◌, ◌||◌}
use mathlib.Core.Logic.{◌⊎◌}
use native.Mathlib.Omega.{arith}

-- A strict weak order on the elements that `on` holds of: nothing is less both ways, and what is
-- less than `c` by way of `a` is so by way of any `b` on one of the two sides.
pub record IsWeakOn {ℓ κ} {A : Type ℓ} (on : A → Type κ) (less : A → A → Bool) : Type (ℓ ⊔ κ) where
  pub asym : (a b : A) → on a → on b → less a b ≡ true → less b a ≡ false
  pub cotrans :
      (a b c : A) → on a → on b → on c → less a c ≡ true → (less a b ≡ true) ⊎ (less b c ≡ true)

-- A first order decides; where it does not, the next does.
abbrev pub or_next : Bool → Bool → Bool → Bool
or_next less more next = less || (not more && next)

abbrev pub lex {ℓ} : {A : Type ℓ} → (A → A → Bool) → (A → A → Bool) → A → A → Bool
lex first next a b = or_next (first a b) (first b a) (next a b)

module _ {ℓ κ} {A : Type ℓ} {on : A → Type κ} {first next : A → A → Bool} where
  pub lex-IsWeakOn : IsWeakOn on first → IsWeakOn on next → IsWeakOn on (lex first next)
  lex-IsWeakOn f n = record {
    asym = λ a b ha hb h. ground (arith, f.asym a b ha hb, f.asym b a hb ha, n.asym a b ha hb);
    cotrans = λ a b c ha hb hc h. ground (
      arith,
      f.cotrans a b c ha hb hc,
      f.cotrans c b a hc hb ha,
      f.cotrans b a c hb ha hc,
      f.cotrans c a b hc ha hb,
      f.cotrans a c b ha hc hb,
      f.cotrans b c a hb hc ha,
      f.asym a b ha hb,
      f.asym b c hb hc,
      f.asym a c ha hc,
      n.cotrans a b c ha hb hc,
    );
  }
