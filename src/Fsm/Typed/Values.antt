-- ===== src/Fsm/Typed/Values.antt =====
-- What is read from a JSON value is in the range of its type.
use mathlib.Core.Path.{subst}
use aero_mq.Prelude.{
  ℕ, ◌+◌, ◌*◌, ◌-◌, ◌<◌, ◌^◌, ◌≡◌, Option-cases, inl, inr, Option, some, List, [], ◌∷◌, All, Text,
  nat_key, text_key, arith, some_inj,
}
use aero_mq.Prelude.Int.{ℤ, pos, negsuc, IsIn}
use aero_mq.Prelude.Map.{Map, insert}
use aero_mq.Prelude.Entries.{IsMap, IsMap-nil, insert-IsMap}
use aero_mq.Json.{
  Json, null, bool, num, str, stamp, arr, obj, Items, nil, cons, Fields, end, field, read_uint32,
  read_num, read_int32, read_int64, read_items, read_list, read_digits, read_key, read_entries,
  read_map, read_field, find_field,
}
use aero_mq.Fsm.Commands.{or_empty}
use aero_mq.Fsm.Typed.{IsUint32, IsInt32, IsInt64}

pub read_uint32-IsUint32 : (j : Json) (n : ℕ) → read_uint32 j ≡ some n → IsUint32 n
unfolding read_uint32
read_uint32-IsUint32 null n e = ground (arith, e)
read_uint32-IsUint32 (num (pos v)) n e = ground (arith, e)
read_uint32-IsUint32 (num (negsuc v)) n e = cc
read_uint32-IsUint32 (bool b) n e = cc
read_uint32-IsUint32 (str t) n e = cc
read_uint32-IsUint32 (stamp t) n e = cc
read_uint32-IsUint32 (arr js) n e = cc
read_uint32-IsUint32 (obj fs) n e = cc

read_num-IsIn :
    (size : ℕ) (j : Json) (v : ℤ) → 0 < size → read_num size size j ≡ some v → IsIn size v
unfolding read_num
read_num-IsIn size null v h e = ground (arith, e)
read_num-IsIn size (num (pos n)) v h e = ground (arith, e)
read_num-IsIn size (num (negsuc n)) v h e = ground (arith, e)
read_num-IsIn size (bool b) v h e = cc
read_num-IsIn size (str t) v h e = cc
read_num-IsIn size (stamp t) v h e = cc
read_num-IsIn size (arr js) v h e = cc
read_num-IsIn size (obj fs) v h e = cc

pub read_int32-IsInt32 : (j : Json) (v : ℤ) → read_int32 j ≡ some v → IsInt32 v
unfolding read_int32
read_int32-IsInt32 j v e = read_num-IsIn (2 ^ 31) j v (omega arith) e

pub read_int64-IsInt64 : (j : Json) (v : ℤ) → read_int64 j ≡ some v → IsInt64 v
unfolding read_int64
read_int64-IsInt64 j v e = read_num-IsIn (2 ^ 63) j v (omega arith) e

read_digits-IsUint32 : (s : Text) (acc n : ℕ) → read_digits acc s ≡ some n → IsUint32 n
unfolding read_digits
read_digits-IsUint32 [] acc n e = ground (arith, e)
read_digits-IsUint32 (c ∷ s) acc n e =
    ground (arith, e, read_digits-IsUint32 s (acc * 10 + (c - b'0')) n)

read_key-IsUint32 : (s : Text) (n : ℕ) → read_key s ≡ some n → IsUint32 n
unfolding read_key
read_key-IsUint32 [] n e = cc
read_key-IsUint32 (c ∷ s) n e = read_digits-IsUint32 (c ∷ s) 0 n e

module _ {A : Type 0} where
  -- What a reader gives has a property.
  abbrev Reads : (Json → Option A) → (A → Type 0) → Type 0
  Reads read P = (j : Json) (a : A) → read j ≡ some a → P a

  pub read_field-Reads :
      (read : Json → Option A) (P : A → Type 0) (k : Text) (fs : Fields) (a : A)
      → Reads read P
      → read_field read k fs ≡ some a
      → P a
  unfolding read_field
  read_field-Reads read P k fs a h e = elim (Option-cases (find_field k fs)) [
    | inl n ↦ h null a (ground (arith, e, n))
    | inr (j, n) ↦ h j a (ground (arith, e, n))
  ]

  read_items-Reads :
      (read : Json → Option A) (P : A → Type 0) (js : Items) (xs : List A)
      → Reads read P
      → read_items read js ≡ some xs
      → All P xs
  unfolding read_items
  read_items-Reads read P nil xs h e = subst (All P) (some_inj e) tt
  read_items-Reads read P (cons j js) xs h e = elim (Option-cases (read j)) [
    | inl n ↦ absurd (ground (arith, e, n))
    | inr (a, n) ↦ elim (Option-cases (read_items read js)) [
      | inl m ↦ absurd (ground (arith, e, n, m))
      | inr (rest, m) ↦
          let both : a ∷ rest ≡ xs = ground (arith, e, n, m) in
          subst (All P) both (h j a n, read_items-Reads read P js rest h m)
    ]
  ]

  pub read_list-Reads :
      (read : Json → Option A) (P : A → Type 0)
      → Reads read P
      → (j : Json) (xs : List A) → read_list read j ≡ some xs
      → All P xs
  unfolding read_list
  read_list-Reads read P h null xs e = subst (All P) (some_inj e) tt
  read_list-Reads read P h (arr js) xs e = read_items-Reads read P js xs h e
  read_list-Reads read P h (bool b) xs e = cc
  read_list-Reads read P h (num v) xs e = cc
  read_list-Reads read P h (str t) xs e = cc
  read_list-Reads read P h (stamp t) xs e = cc
  read_list-Reads read P h (obj fs) xs e = cc

  read_entries-Reads :
      (read : Json → Option A) (P : A → Type 0) (before m : Map ℕ A) (fs : Fields)
      → Reads read P
      → IsMap (λ k a. IsUint32 k × P a) before
      → read_entries read_key read before fs ≡ some m
      → IsMap (λ k a. IsUint32 k × P a) m
  unfolding read_entries
  read_entries-Reads read P before m end h w e =
      subst (IsMap (λ k a. IsUint32 k × P a)) (some_inj e) w
  read_entries-Reads read P before m (field k j fs) h w e = elim (Option-cases (read_key k)) [
    | inl n ↦ absurd (ground (arith, e, n))
    | inr (id, n) ↦ elim (Option-cases (read j)) [
      | inl q ↦ absurd (ground (arith, e, n, q))
      | inr (a, q) ↦
          read_entries-Reads read P (insert id a before) m fs h
            (insert-IsMap id a before (read_key-IsUint32 k id n, h j a q) w)
            (ground (arith, e, n, q))
    ]
  ]

  pub read_map-Reads :
      (read : Json → Option A) (P : A → Type 0)
      → Reads read P
      → (j : Json) (o : Option (Map ℕ A)) → read_map read j ≡ some o
      → IsMap (λ k a. IsUint32 k × P a) (or_empty o)
  unfolding read_map
  read_map-Reads read P h null o e =
      subst (λ x. IsMap (λ k a. IsUint32 k × P a) (or_empty x)) (some_inj e) IsMap-nil
  read_map-Reads read P h (obj fs) o e = elim (Option-cases (read_entries read_key read [] fs)) [
    | inl n ↦ absurd (ground (arith, e, n))
    | inr (m, n) ↦
        subst (λ x. IsMap (λ k a. IsUint32 k × P a) (or_empty x)) {x = some m} {y = o}
          (ground (arith, e, n)) (read_entries-Reads read P [] m fs h IsMap-nil n)
  ]
  read_map-Reads read P h (bool b) xs e = cc
  read_map-Reads read P h (num v) xs e = cc
  read_map-Reads read P h (str t) xs e = cc
  read_map-Reads read P h (stamp t) xs e = cc
  read_map-Reads read P h (arr js) xs e = cc
