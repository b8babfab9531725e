-- ===== src/Json/Encode.antt =====
-- What `json.Marshal` makes of numbers and slices. Strings are valid UTF-8, as gRPC's are.
use aero_mq.Prelude.Int.{IsIn, ℤ, negsuc}
use aero_mq.Prelude.{◌<◌, ◌^◌, arith, All, ℕ, some, List, [], ◌∷◌, ◌≡◌, refl, Option}
use aero_mq.Prelude.Int.{pos}
use aero_mq.Json.{
  read_uint32, read_int32, read_int64, Json, num, arr, Items, nil, cons, read_items, read_list,
}

abbrev pub write_uint : ℕ → Json
write_uint n = num (pos n)

module _ {A : Type 0} where
  unfoldable pub write_items : (A → Json) → List A → Items
  write_items write [] = nil
  write_items write (a ∷ rest) = cons (write a) (write_items write rest)

  -- A list that is written is read back, where its elements are.
  pub read_items-write_items :
      (read : Json → Option A) (write : A → Json) (items : List A)
      → All (λ a. read (write a) ≡ some a) items
      → read_items read (write_items write items) ≡ some items
  unfolding read_items write_items
  read_items-write_items read write [] h = refl
  read_items-write_items read write (a ∷ rest) h =
      rw (h.0, read_items-write_items read write rest h.1)

-- A slice that is not nil.
unfoldable pub write_list : {A : Type 0} → (A → Json) → List A → Json
unfolding write_items
write_list write items = arr (write_items write items)

pub read_list-write_list :
    {A : Type 0} (read : Json → Option A) (write : A → Json) (items : List A)
    → All (λ a. read (write a) ≡ some a) items
    → read_list read (write_list write items) ≡ some items
unfolding read_list write_list
read_list-write_list read write items h = read_items-write_items read write items h

pub read_uint32-write_uint : (n : ℕ) → n < 2 ^ 32 → read_uint32 (write_uint n) ≡ some n
unfolding read_uint32
read_uint32-write_uint n h = ground arith

pub read_int32-num : (v : ℤ) → IsIn (2 ^ 31) v → read_int32 (num v) ≡ some v
unfolding read_int32
read_int32-num (pos n) h = ground arith
read_int32-num (negsuc n) h = ground arith

pub read_int64-num : (v : ℤ) → IsIn (2 ^ 63) v → read_int64 (num v) ≡ some v
unfolding read_int64
read_int64-num (pos n) h = ground arith
read_int64-num (negsuc n) h = ground arith
