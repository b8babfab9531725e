-- ===== src/Prelude/Map.antt =====
-- Go's maps as association lists. Go does not fix the order in which `range` visits the entries:
-- the list's order is one order, and `Range` gives every other.
use mathlib.Core.Path.{◌≡◌, refl}
use mathlib.Core.Bool.{true, ◌||◌}
use mathlib.Core.Option
use mathlib.Core.Option.{Option, none, some}
use mathlib.Core.List.{List, [], ◌∷◌, map}
use native.Mathlib.Omega.{arith}
use aero_mq.Prelude.Tests.{if◌then◌else◌}
use aero_mq.Prelude.Keys.{Key, ◌==◌, contains, Distinct}

abbrev pub Map : Type 0 → Type 0 → Type 0
Map K V = List (K × V)

module _ {K V : Type 0} where
  abbrev pub keys : Map K V → List K
  keys = map (λ e. e.0)

module _ {K V : Type 0} ⦃e : Key K⦄ where
  -- `v, ok := m[k]`
  abbrev pub lookup : K → Map K V → Option V
  lookup k [] = none
  lookup k ((j, v) ∷ m) = if k == j then some v else lookup k m

  -- `m[k] = v`
  abbrev pub insert : K → V → Map K V → Map K V
  insert k v [] = (k, v) ∷ []
  insert k v ((j, w) ∷ m) = if k == j then (k, v) ∷ m else (j, w) ∷ insert k v m

  -- The entry at a key, overwritten through its pointer.
  abbrev pub adjust : K → (V → V) → Map K V → Map K V
  adjust k f [] = []
  adjust k f ((j, w) ∷ m) = if k == j then (j, f w) ∷ m else (j, w) ∷ adjust k f m

  pub lookup-insert :
      (k j : K) (v : V) (m : Map K V)
      → lookup j (insert k v m) ≡ (if j == k then some v else lookup j m)
  lookup-insert k j v [] = refl
  lookup-insert k j v ((i, w) ∷ m) =
      ground (
        arith,
        e.same_iff k j,
        e.same_iff k i,
        e.same_iff j i,
        e.same_iff j k,
        lookup-insert k j v m,
      )

  pub lookup-adjust :
      (k j : K) (f : V → V) (m : Map K V)
      → lookup j (adjust k f m) ≡ (if j == k then Option.map f (lookup j m) else lookup j m)
  lookup-adjust k j f [] = ground arith
  lookup-adjust k j f ((i, w) ∷ m) =
      ground (arith, e.same_iff k i, e.same_iff j i, e.same_iff j k, lookup-adjust k j f m)

  pub keys-adjust : (k : K) (f : V → V) (m : Map K V) → keys (adjust k f m) ≡ keys m
  keys-adjust k f [] = refl
  keys-adjust k f ((i, w) ∷ m) = ground (arith, keys-adjust k f m)

  pub contains-keys-insert :
      (k j : K) (v : V) (m : Map K V)
      → contains j (keys (insert k v m)) ≡ (j == k || contains j (keys m))
  contains-keys-insert k j v [] = refl
  contains-keys-insert k j v ((i, w) ∷ m) =
      ground (arith, e.same_iff k i, e.same_iff j k, e.same_iff j i, contains-keys-insert k j v m)

  pub insert-Distinct :
      (k : K) (v : V) (m : Map K V) → Distinct (keys m) → Distinct (keys (insert k v m))
  insert-Distinct k v [] h = ground arith
  insert-Distinct k v ((i, w) ∷ m) h = ground (
    arith,
    e.same_iff k i,
    e.same_iff i k,
    contains-keys-insert k i v m,
    insert-Distinct k v m h.1,
  )

  pub contains_of_lookup :
      (k : K) (m : Map K V) {v : V} → lookup k m ≡ some v → contains k (keys m) ≡ true
  contains_of_lookup k [] h = ground arith
  contains_of_lookup k ((i, w) ∷ m) {v} h = ground (arith, contains_of_lookup k m {v = v})

module _ {K V W : Type 0} where
  -- Every value, rebuilt with its key in sight.
  abbrev pub map_entries : (K → V → W) → Map K V → Map K W
  map_entries f [] = []
  map_entries f ((k, v) ∷ m) = (k, f k v) ∷ map_entries f m

  pub keys-map_entries : (f : K → V → W) (m : Map K V) → keys (map_entries f m) ≡ keys m
  keys-map_entries f [] = refl
  keys-map_entries f ((k, v) ∷ m) = ground (arith, keys-map_entries f m)

module _ {K V W : Type 0} ⦃e : Key K⦄ where
  pub lookup-map_entries :
      (f : K → V → W) (k : K) (m : Map K V)
      → lookup k (map_entries f m) ≡ Option.map (f k) (lookup k m)
  lookup-map_entries f k [] = refl
  lookup-map_entries f k ((j, v) ∷ m) = ground (arith, e.same_iff k j, lookup-map_entries f k m)
