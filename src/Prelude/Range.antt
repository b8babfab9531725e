-- ===== src/Prelude/Range.antt =====
-- The order in which a `range` over a map visits the entries. Go leaves it open, so each such loop
-- of the model takes a list of numbers that picks one order; every order is picked by some list.
use Prim.Native.Nat.{ℕ, zero, suc}
use mathlib.Core.List.{List, [], ◌∷◌, Perm}
use mathlib.Core.List.Perm

abbrev pub Order : Type 0
Order = List ℕ

module _ {ℓ} {A : Type ℓ} where
  -- `x` at place `n`, or last if the list is shorter.
  unfoldable pub place : ℕ → A → List A → List A
  place zero x xs = x ∷ xs
  place (suc n) x [] = x ∷ []
  place (suc n) x (y ∷ ys) = y ∷ place n x ys

  unfoldable pub arrange : Order → List A → List A
  unfolding place
  arrange [] xs = xs
  arrange (n ∷ ns) [] = []
  arrange (n ∷ ns) (x ∷ xs) = place n x (arrange ns xs)

  place-perm : (n : ℕ) (x : A) (xs : List A) → Perm (place n x xs) (x ∷ xs)
  unfolding place
  place-perm zero x xs = Perm.refl (x ∷ xs)
  place-perm (suc n) x [] = Perm.refl (x ∷ [])
  place-perm (suc n) x (y ∷ ys) = Perm.trans (Perm.cons y (place-perm n x ys)) (Perm.swap x y ys)

  pub arrange-perm : (o : Order) (xs : List A) → Perm (arrange o xs) xs
  unfolding arrange
  arrange-perm [] xs = Perm.refl xs
  arrange-perm (n ∷ ns) [] = Perm.refl []
  arrange-perm (n ∷ ns) (x ∷ xs) =
      Perm.trans (place-perm n x (arrange ns xs)) (Perm.cons x (arrange-perm ns xs))
