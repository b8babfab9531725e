-- ===== src/Prelude/Entries.antt =====
-- Maps with distinct keys whose every entry has a property.
use mathlib.Core.Option
use aero_mq.Prelude.Tests.{Bool-cases}
use mathlib.Core.Path.{◌≡◌, refl, sym, ◌∙◌, subst}
use mathlib.Core.Logic.{inl, inr}
use mathlib.Core.Option.{Option, none, some}
use mathlib.Core.List.{[], ◌∷◌}
use native.Mathlib.Omega.{arith}
use aero_mq.Prelude.Range.{Order, arrange}
use aero_mq.Prelude.Arranged.{lookup_absent, lookup-arrange, arrange-Distinct, keys-arrange}
use mathlib.Core.List.{◌∷◌}
use aero_mq.Prelude.Keys.{Key, ◌==◌, Distinct}
use aero_mq.Prelude.Map.{
  Map, lookup, insert, adjust, keys, map_entries, lookup-insert, insert-Distinct, lookup-adjust,
  keys-adjust, keys-map_entries, lookup-map_entries,
}

pub record IsMap {K V : Type 0} ⦃e : Key K⦄ (P : K → V → Type 0) (m : Map K V) : Type 0 where
  pub distinct : Distinct (keys m)
  pub each : (k : K) (v : V) → lookup k m ≡ some v → P k v

pub map-eq-some :
    {A B : Type 0} (f : A → B) (o : Option A) {b : B}
    → Option.map f o ≡ some b
    → (a : A) × (o ≡ some a) × (f a ≡ b)
map-eq-some f none h = cc
map-eq-some f (some a) h = (a, refl, cc)

module _ {K V : Type 0} ⦃e : Key K⦄ {P : K → V → Type 0} where
  pub IsMap-nil : IsMap P []
  IsMap-nil = record { distinct = tt; each = λ k v h. cc }

  pub insert-IsMap : (k : K) (v : V) (m : Map K V) → P k v → IsMap P m → IsMap P (insert k v m)
  insert-IsMap k v m p w = record {
    distinct = insert-Distinct k v m w.distinct;
    each = λ j u h. elim (Bool-cases (j == k)) [
      | inl y ↦
          subst (λ x. P x u) (sym ((e.same_iff j k).0 y))
            (subst (P k) (ground (arith, h, lookup-insert k j v m, y)) p)
      | inr n ↦ w.each j u (ground (arith, h, lookup-insert k j v m, n))
    ];
  }

  pub adjust-IsMap :
      (k : K) (f : V → V) (m : Map K V)
      → ((v : V) → P k v → P k (f v))
      → IsMap P m
      → IsMap P (adjust k f m)
  adjust-IsMap k f m p w = record {
    distinct = rw (keys-adjust k f m) w.distinct;
    each = λ j u h. elim (Bool-cases (j == k)) [
      | inl y ↦
          let (v, a, b) =
            map-eq-some f (lookup j m) (ground (arith, h, lookup-adjust k j f m, y)) in
          let s : j ≡ k = (e.same_iff j k).0 y in
          subst (λ x. P x u) (sym s) (subst (P k) b (p v (subst (λ x. P x v) s (w.each j v a))))
      | inr n ↦ w.each j u (ground (arith, h, lookup-adjust k j f m, n))
    ];
  }

module _ {K V : Type 0} ⦃e : Key K⦄ {P : K → V → Type 0} where
  pub map_entries-IsMap :
      (f : K → V → V) (m : Map K V)
      → ((k : K) (v : V) → P k v → P k (f k v))
      → IsMap P m
      → IsMap P (map_entries f m)
  map_entries-IsMap f m p w = record {
    distinct = rw (keys-map_entries f m) w.distinct;
    each = λ j u h.
        let (v, a, b) = map-eq-some (f j) (lookup j m) (sym (lookup-map_entries f j m) ∙ h) in
        subst (P j) b (p j v (w.each j v a));
  }

module _ {K V : Type 0} ⦃e : Key K⦄ {P : K → V → Type 0} where
  pub tail-IsMap : (k : K) (v : V) (m : Map K V) → IsMap P ((k, v) ∷ m) → IsMap P m
  tail-IsMap k v m h = record {
    distinct = h.distinct.1;
    each = λ j w f. h.each j w (ground (arith, e.same_iff j k, lookup_absent k m h.distinct.0));
  }

  pub arrange-IsMap : (o : Order) (m : Map K V) → IsMap P m → IsMap P (arrange o m)
  arrange-IsMap o m h = record {
    distinct = subst Distinct (sym (keys-arrange o m)) (arrange-Distinct o (keys m) h.distinct);
    each = λ j w f. h.each j w (sym (lookup-arrange j o m h.distinct) ∙ f);
  }

pub IsMap-weaken :
    {K V : Type 0} ⦃e : Key K⦄ {P Q : K → V → Type 0} (m : Map K V)
    → ((k : K) (v : V) → P k v → Q k v)
    → IsMap P m
    → IsMap Q m
IsMap-weaken m f h = record { distinct = h.distinct; each = λ k v q. f k v (h.each k v q) }
