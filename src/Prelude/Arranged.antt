-- ===== src/Prelude/Arranged.antt =====
-- A list in another order has the same elements, and a map with distinct keys the same values.
use Prim.Native.Nat.{ℕ, zero, suc}
use mathlib.Core.Path.{◌≡◌, refl, ap, ◌∙◌}
use mathlib.Core.Bool.{false, ◌||◌}
use mathlib.Core.Option.{none, some}
use mathlib.Core.List.{List, [], ◌∷◌, map}
use native.Mathlib.Omega.{arith}
use aero_mq.Prelude.Tests.{if◌then◌else◌}
use aero_mq.Prelude.Keys.{Key, ◌==◌, contains, Distinct}
use aero_mq.Prelude.Lists.{length}
use aero_mq.Prelude.Map.{Map, lookup, keys}
use aero_mq.Prelude.Range.{Order, place, arrange}

module _ {ℓ κ} {A : Type ℓ} {B : Type κ} (f : A → B) where
  map-place : (n : ℕ) (x : A) (xs : List A) → map f (place n x xs) ≡ place n (f x) (map f xs)
  unfolding place
  map-place zero x xs = refl
  map-place (suc n) x [] = refl
  map-place (suc n) x (y ∷ ys) = ap (◌∷◌ (f y)) (map-place n x ys)

  pub map-arrange : (o : Order) (xs : List A) → map f (arrange o xs) ≡ arrange o (map f xs)
  unfolding arrange
  map-arrange [] xs = refl
  map-arrange (n ∷ ns) [] = refl
  map-arrange (n ∷ ns) (x ∷ xs) =
      map-place n x (arrange ns xs) ∙ ap (place n (f x)) (map-arrange ns xs)

module _ {ℓ} {A : Type ℓ} where
  length-place : (n : ℕ) (x : A) (xs : List A) → length (place n x xs) ≡ suc (length xs)
  unfolding place
  length-place zero x xs = refl
  length-place (suc n) x [] = refl
  length-place (suc n) x (y ∷ ys) = ap suc (length-place n x ys)

  pub length-arrange : (o : Order) (xs : List A) → length (arrange o xs) ≡ length xs
  unfolding arrange
  length-arrange [] xs = refl
  length-arrange (n ∷ ns) [] = refl
  length-arrange (n ∷ ns) (x ∷ xs) =
      length-place n x (arrange ns xs) ∙ ap suc (length-arrange ns xs)

module _ {ℓ} {A : Type ℓ} ⦃e : Key A⦄ where
  contains-place :
      (a : A) (n : ℕ) (x : A) (xs : List A) → contains a (place n x xs) ≡ (a == x || contains a xs)
  unfolding place
  contains-place a zero x xs = refl
  contains-place a (suc n) x [] = refl
  contains-place a (suc n) x (y ∷ ys) = ground (arith, contains-place a n x ys)

  pub contains-arrange :
      (a : A) (o : Order) (xs : List A) → contains a (arrange o xs) ≡ contains a xs
  unfolding arrange
  contains-arrange a [] xs = refl
  contains-arrange a (n ∷ ns) [] = refl
  contains-arrange a (n ∷ ns) (x ∷ xs) =
      ground (arith, contains-place a n x (arrange ns xs), contains-arrange a ns xs)

  place-Distinct :
      (n : ℕ) (x : A) (xs : List A) → contains x xs ≡ false → Distinct xs → Distinct (place n x xs)
  unfolding place
  place-Distinct zero x xs h d = (h, d)
  place-Distinct (suc n) x [] h d = (refl, tt)
  place-Distinct (suc n) x (y ∷ ys) h d =
      ground (arith, e.same_iff x y, e.same_iff y x, contains-place y n x ys, place-Distinct n x ys)

  pub arrange-Distinct : (o : Order) (xs : List A) → Distinct xs → Distinct (arrange o xs)
  unfolding arrange
  arrange-Distinct [] xs d = d
  arrange-Distinct (n ∷ ns) [] d = tt
  arrange-Distinct (n ∷ ns) (x ∷ xs) d =
      place-Distinct n x (arrange ns xs) (contains-arrange x ns xs ∙ d.0)
        (arrange-Distinct ns xs d.1)

module _ {K V : Type 0} ⦃e : Key K⦄ where
  pub keys-arrange : (o : Order) (m : Map K V) → keys (arrange o m) ≡ arrange o (keys m)
  keys-arrange o m = map-arrange (λ e. e.0) o m

  pub lookup_absent : (k : K) (m : Map K V) → contains k (keys m) ≡ false → lookup k m ≡ none
  lookup_absent k [] h = refl
  lookup_absent k ((j, v) ∷ m) h = ground (arith, lookup_absent k m)

  lookup-place :
      (k j : K) (v : V) (n : ℕ) (m : Map K V)
      → contains j (keys m) ≡ false
      → lookup k (place n (j, v) m) ≡ (if k == j then some v else lookup k m)
  unfolding place
  lookup-place k j v zero m h = refl
  lookup-place k j v (suc n) [] h = refl
  lookup-place k j v (suc n) ((i, w) ∷ m) h =
      ground (arith, e.same_iff k j, e.same_iff k i, e.same_iff j i, lookup-place k j v n m)

  pub lookup-arrange :
      (k : K) (o : Order) (m : Map K V) → Distinct (keys m) → lookup k (arrange o m) ≡ lookup k m
  unfolding arrange
  lookup-arrange k [] m d = refl
  lookup-arrange k (n ∷ ns) [] d = refl
  lookup-arrange k (n ∷ ns) ((j, v) ∷ m) d =
      let absent : contains j (keys (arrange ns m)) ≡ false =
        ap (contains j) (keys-arrange ns m) ∙ contains-arrange j ns (keys m) ∙ d.0 in
      ground (arith, lookup-place k j v n (arrange ns m), lookup-arrange k ns m)
