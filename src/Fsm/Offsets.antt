-- ===== src/Fsm/Offsets.antt =====
-- The `commit_offset` command of fsm.go and `GetOffset`, with the key under which an offset is kept.
pub mod Store
pub mod Collisions
pub mod Runes
pub mod Book
pub mod Refinement
use aero_mq.Prelude.{
  ℕ, ◌+◌, ◌-◌, ◌*◌, ◌/◌, ◌%◌, ◌^◌, Bool, ◌&&◌, ◌||◌, Option, none, some, List, [], ◌∷◌, ◌++◌, ltb,
  leb, Text, codes, nat_key, text_key, if◌then◌else◌,
}
use aero_mq.Prelude.Int.{ℤ, pos, negsuc}
use aero_mq.Prelude.Map.{Map, lookup, insert}
use aero_mq.Fsm.State.{ClusterState}

-- The UTF-8 bytes of the replacement character U+FFFD.
abbrev pub replacement : Text
replacement = 239 ∷ 191 ∷ 189 ∷ []

-- `rune(n)` of a uint32 is negative from 2^31 on.
unfoldable pub is_rune : ℕ → Bool
is_rune n = ltb n 55296 || (leb 57344 n && leb n 1114111)

-- `string(rune(n))`: the UTF-8 form of the code point `n`, and of U+FFFD where `n` is none.
unfoldable pub rune_text : ℕ → Text
unfolding is_rune
rune_text n =
    if ltb n 128
    then n ∷ []
    else if ltb n 2048
    then (192 + n / 64) ∷ (128 + n % 64) ∷ []
    else if is_rune n
    then (if ltb n 65536
        then (224 + n / 4096) ∷ (128 + n / 64 % 64) ∷ (128 + n % 64) ∷ []
        else (240 + n / 262144) ∷ (128 + n / 4096 % 64) ∷ (128 + n / 64 % 64) ∷ (128 + n % 64) ∷ [])
    else replacement

abbrev pub slash : ℕ
slash = 47

-- `groupID + "/" + topic + "/" + string(rune(partition))`
unfoldable pub offset_key : Text → Text → ℕ → Text
offset_key group topic partition = group ++ slash ∷ (topic ++ slash ∷ rune_text partition)

pub record CommitOffsetPayload : Type 0 where
  pub group_id : Text
  pub topic : Text
  pub partition : ℕ
  pub offset : ℤ

-- The first value that the code gives to `key` is overwritten before it is used.
unfoldable pub commit_offset : CommitOffsetPayload → ClusterState → ClusterState
commit_offset payload s = record s {
  offsets =
      insert (offset_key payload.group_id payload.topic payload.partition) payload.offset s.offsets;
}

unfoldable pub get_offset : ClusterState → Text → Text → ℕ → ℤ
get_offset s group topic partition = elim (lookup (offset_key group topic partition) s.offsets) [
  | some v ↦ v
  | none ↦ negsuc 0
]
