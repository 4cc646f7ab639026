-- ===== src/Prelude/Sums.antt =====
-- Sums over a list.
use Prim.Native.Nat.{ℕ, zero, suc, ◌+◌, ◌≤◌}
use mathlib.Core.Path.{◌≡◌}
use mathlib.Core.List.{List, [], ◌∷◌}
use mathlib.Core.Option.{some}
use native.Mathlib.Omega.{arith}
use go_multi_warp.Prelude.Lists.{length, get_elem?, set}

module _ {A : Type 0} where
  unfoldable pub total : (A → ℕ) → List A → ℕ
  total f [] = 0
  total f (x ∷ xs) = f x + total f xs

  pub total-set :
      (f : A → ℕ) (xs : List A) (i : ℕ) (p q : A)
      → get_elem? xs i ≡ some p
      → total f (set xs i q) + f p ≡ total f xs + f q
  unfolding total
  total-set f [] i p q e = absurd (cc)
  total-set f (x ∷ xs) zero p q e = ground arith
  total-set f (x ∷ xs) (suc i) p q e = omega (arith, total-set f xs i p q e)

  pub total-le : (f g : A → ℕ) (xs : List A) → ((x : A) → f x ≤ g x) → total f xs ≤ total g xs
  unfolding total
  total-le f g [] h = omega arith
  total-le f g (x ∷ xs) h = let k = h x in omega (arith, total-le f g xs h)

  pub total-le-length : (f : A → ℕ) (xs : List A) → ((x : A) → f x ≤ 1) → total f xs ≤ length xs
  unfolding total
  total-le-length f [] h = omega arith
  total-le-length f (x ∷ xs) h = let k = h x in omega (arith, total-le-length f xs h)

  pub le-total :
      (f : A → ℕ) (xs : List A) (i : ℕ) (p : A) → get_elem? xs i ≡ some p → f p ≤ total f xs
  unfolding total
  le-total f [] i p e = absurd (cc)
  le-total f (x ∷ xs) zero p e = ground arith
  le-total f (x ∷ xs) (suc i) p e = omega (arith, le-total f xs i p e)

  pub total-sum :
      (f g h : A → ℕ) (xs : List A)
      → ((x : A) → f x ≡ g x + h x)
      → total f xs ≡ total g xs + total h xs
  unfolding total
  total-sum f g h [] e = omega arith
  total-sum f g h (x ∷ xs) e = let k = e x in omega (arith, total-sum f g h xs e)
