-- ===== src/Json.antt =====
-- JSON values and what the program uses of Go's encoding/json: reading a value into a uint32, an
-- int32 or int64, a string, a time, a bool, a slice, a map or a struct. A reader gives `none` where
-- `Unmarshal` returns an error. The text of a value is not modelled: a log entry is a value, or
-- malformed. Field names are matched exactly and occur once, as the program writes them.
pub mod Encode
use aero_mq.Prelude.{
  ◌≡◌, refl, ℕ, ◌+◌, ◌-◌, ◌*◌, ◌^◌, Bool, false, ◌&&◌, Option, none, some, List, [], ◌∷◌, ltb, leb,
  Text, Key, text_key, nat_key, ◌==◌, if◌then◌else◌,
}
use aero_mq.Prelude.Int.{ℤ, pos, negsuc}
use aero_mq.Prelude.Map.{Map, insert}

mutual
  -- `stamp` is the RFC 3339 string of a time, kept as the time that it stands for.
  pub data Json : Type 0 where
    null : Json
    bool : Bool → Json
    num : ℤ → Json
    str : Text → Json
    stamp : ℕ → Json
    arr : Items → Json
    obj : Fields → Json

  pub data Items : Type 0 where
    nil : Items
    cons : Json → Items → Items

  pub data Fields : Type 0 where
    end : Fields
    field : Text → Json → Fields → Fields

infixl 5 ◌>>=◌
abbrev pub ◌>>=◌ {ℓ κ} : {A : Type ℓ} {B : Type κ} → Option A → (A → Option B) → Option B
none >>= f = none
some a >>= f = f a

pub >>=-eq-some {ℓ κ} :
    {A : Type ℓ} {B : Type κ} (o : Option A) (f : A → Option B) {b : B}
    → (o >>= f) ≡ some b
    → (a : A) × (o ≡ some a) × (f a ≡ some b)
>>=-eq-some none f h = cc
>>=-eq-some (some a) f h = (a, refl, h)

-- A number in the range of a type; `below` excludes its end, `under` is the size of its negative part.
unfoldable pub read_num : ℕ → ℕ → Json → Option ℤ
read_num below under null = some (pos 0)
read_num below under (num (pos n)) = if ltb n below then some (pos n) else none
read_num below under (num (negsuc n)) = if ltb n under then some (negsuc n) else none
read_num below under _ = none

unfoldable pub read_int32 : Json → Option ℤ
unfolding read_num
read_int32 j = read_num (2 ^ 31) (2 ^ 31) j

unfoldable pub read_int64 : Json → Option ℤ
unfolding read_num
read_int64 j = read_num (2 ^ 63) (2 ^ 63) j

unfoldable pub read_uint32 : Json → Option ℕ
read_uint32 null = some 0
read_uint32 (num (pos n)) = if ltb n (2 ^ 32) then some n else none
read_uint32 _ = none

unfoldable pub read_text : Json → Option Text
read_text null = some []
read_text (str s) = some s
read_text _ = none

unfoldable pub read_bool : Json → Option Bool
read_bool null = some false
read_bool (bool b) = some b
read_bool _ = none

unfoldable pub read_time : Json → Option ℕ
read_time null = some 0
read_time (stamp t) = some t
read_time _ = none

-- The digits of a map's uint32 key.
unfoldable pub read_digits : ℕ → Text → Option ℕ
read_digits n [] = if ltb n (2 ^ 32) then some n else none
read_digits n (c ∷ cs) =
    let rest = read_digits (n * 10 + (c - b'0')) cs in
    if leb b'0' c && leb c b'9' then rest else none

unfoldable pub read_key : Text → Option ℕ
unfolding read_digits
read_key [] = none
read_key (c ∷ cs) = read_digits 0 (c ∷ cs)

-- The members of an object; null leaves a struct as it is.
unfoldable pub read_struct : Json → Option Fields
read_struct null = some end
read_struct (obj fs) = some fs
read_struct _ = none

unfoldable pub find_field : Text → Fields → Option Json
find_field k end = none
find_field k (field j v rest) = if k == j then some v else find_field k rest

module _ {A : Type 0} where
  -- A field of a struct; one that is missing keeps its zero value, which is what null is read as.
  unfoldable pub read_field : (Json → Option A) → Text → Fields → Option A
  unfolding find_field
  read_field read k fs = elim (find_field k fs) [ none ↦ read null | some j ↦ read j ]

  unfoldable pub read_items : (Json → Option A) → Items → Option (List A)
  read_items read nil = some []
  read_items read (cons j js) = do a ← read j; rest ← read_items read js; some (a ∷ rest)

  unfoldable pub read_list : (Json → Option A) → Json → Option (List A)
  unfolding read_items
  read_list read null = some []
  read_list read (arr js) = read_items read js
  read_list read _ = none

  -- A pointer: null is nil.
  unfoldable pub read_pointer : (Json → Option A) → Json → Option (Option A)
  read_pointer read null = some none
  read_pointer read j = do a ← read j; some (some a)

  -- A pointer that is not null.
  unfoldable pub read_present : (Json → Option A) → Json → Option A
  read_present read null = none
  read_present read j = read j

module _ {K A : Type 0} ⦃e : Key K⦄ where
  -- The entries of a map, whose keys `key` reads, after those read so far.
  unfoldable pub read_entries :
      (Text → Option K) → (Json → Option A) → Map K A → Fields → Option (Map K A)
  read_entries key read m end = some m
  read_entries key read m (field k j rest) = do
    id ← key k
    a ← read j
    read_entries key read (insert id a m) rest

  -- null is the nil map.
  unfoldable pub read_map_by :
      (Text → Option K) → (Json → Option A) → Json → Option (Option (Map K A))
  unfolding read_entries
  read_map_by key read null = some none
  read_map_by key read (obj fs) = do m ← read_entries key read [] fs; some (some m)
  read_map_by key read _ = none

module _ {A : Type 0} where
  -- A map with uint32 keys.
  unfoldable pub read_map : (Json → Option A) → Json → Option (Option (Map ℕ A))
  unfolding read_map_by read_key
  read_map read j = read_map_by read_key read j

  -- A map with strings for keys.
  unfoldable pub read_dict : (Json → Option A) → Json → Option (Option (Map Text A))
  unfolding read_map_by
  read_dict read j = read_map_by some read j
