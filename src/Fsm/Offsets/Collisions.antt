-- ===== src/Fsm/Offsets/Collisions.antt =====
-- Commits that overwrite one another.
use mathlib.Core.List.{append_assoc}
use aero_mq.Prelude.{ℕ, ◌≡◌, refl, ap, ◌∙◌, sym, false, ◌∷◌, ◌++◌, Text, text_key, beq_refl}
use aero_mq.Prelude.Int.{ℤ}
use aero_mq.Fsm.State.{ClusterState}
use aero_mq.Fsm.Offsets.{slash, is_rune, offset_key, CommitOffsetPayload, commit_offset, get_offset}
use aero_mq.Fsm.Offsets.Runes.{rune_text_replaced}
use aero_mq.Fsm.Offsets.Store.{get_offset-commit_offset_key}

same_key :
    (payload : CommitOffsetPayload) (s : ClusterState) (g t : Text) (p : ℕ)
    → offset_key g t p ≡ offset_key payload.group_id payload.topic payload.partition
    → get_offset (commit_offset payload s) g t p ≡ payload.offset
same_key payload s g t p e =
    get_offset-commit_offset_key payload s g t p
    ∙ rw (e, beq_refl (offset_key payload.group_id payload.topic payload.partition)) refl

-- Partitions whose numbers are no code points (the surrogates and all from 1114112 on) share one
-- key: an offset committed for one of them is read back for every other of the same topic.
pub commit_offset_overwrites :
    (s : ClusterState) (g t : Text) (p q : ℕ) (offset : ℤ)
    → is_rune p ≡ false
    → is_rune q ≡ false
    → get_offset
        (commit_offset (record { group_id = g; topic = t; partition = p; offset = offset }) s)
        g
        t
        q
      ≡ offset
unfolding offset_key
commit_offset_overwrites s g t p q offset hp hq =
    same_key (record { group_id = g; topic = t; partition = p; offset = offset }) s g t q
      (ap (λ r. g ++ slash ∷ (t ++ slash ∷ r))
        (rune_text_replaced q hq ∙ sym (rune_text_replaced p hp)))

-- A slash in a name moves between the group and the topic: an offset committed for the group `a/b`
-- and the topic `c` is read back for the group `a` and the topic `b/c`.
pub commit_offset-slash :
    (s : ClusterState) (a b c : Text) (p : ℕ) (offset : ℤ)
    → get_offset
        (commit_offset
          (record { group_id = a ++ slash ∷ b; topic = c; partition = p; offset = offset })
          s)
        a
        (b ++ slash ∷ c)
        p
      ≡ offset
unfolding offset_key
commit_offset-slash s a b c p offset =
    same_key (record { group_id = a ++ slash ∷ b; topic = c; partition = p; offset = offset }) s a
      (b ++ slash ∷ c) p (simp append_assoc)
