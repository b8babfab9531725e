-- ===== src/Fsm/Offsets/Store.antt =====
-- Reading an offset back.
use mathlib.Core.Bool.{false≢true}
use aero_mq.Prelude.{
  Bool-cases, inl, inr, ℕ, ◌≡◌, refl, sym, ◌∙◌, true, false, ◌&&◌, [], ◌∷◌, ◌++◌, Text, text_key,
  nat_key, text_beq_iff, nat_beq_iff, contains, arith, ◌==◌, if◌then◌else◌,
}
use aero_mq.Prelude.Map.{lookup-insert}
use aero_mq.Fsm.State.{ClusterState}
use aero_mq.Fsm.Offsets.{
  slash, is_rune, rune_text, offset_key, CommitOffsetPayload, commit_offset, get_offset,
}
use aero_mq.Fsm.Offsets.Runes.{rune_text_inj}

-- What stands before the first slash, and what after it, is determined.
split_slash :
    (xs ys a b : Text)
    → contains slash xs ≡ false
    → contains slash ys ≡ false
    → xs ++ slash ∷ a ≡ ys ++ slash ∷ b
    → (xs ≡ ys) × (a ≡ b)
split_slash [] [] a b p q e = (refl, cc)
split_slash [] (y ∷ ys) a b p q e = absurd (ground (arith, nat_beq_iff slash y))
split_slash (x ∷ xs) [] a b p q e = absurd (ground (arith, nat_beq_iff slash x))
split_slash (x ∷ xs) (y ∷ ys) a b p q e =
    let r = split_slash xs ys a b (ground arith) (ground arith) (cc) in (cc r.0, r.1)

-- Groups and topics with no slash, and partitions that are code points, have a key of their own.
pub offset_key_inj :
    (g h t u : Text) (p q : ℕ)
    → contains slash g ≡ false
    → contains slash h ≡ false
    → contains slash t ≡ false
    → contains slash u ≡ false
    → is_rune p ≡ true
    → is_rune q ≡ true
    → offset_key g t p ≡ offset_key h u q
    → (g ≡ h) × (t ≡ u) × (p ≡ q)
unfolding offset_key
offset_key_inj g h t u p q ng nh nt nu rp rq e =
    let r = split_slash g h (t ++ slash ∷ rune_text p) (u ++ slash ∷ rune_text q) ng nh e in
    let r' = split_slash t u (rune_text p) (rune_text q) nt nu r.1 in
    (r.0, r'.0, rune_text_inj p q rp rq r'.1)

same_test :
    (g h t u : Text) (p q : ℕ)
    → (g == h && (t == u && p == q)) ≡ true
    → (offset_key g t p == offset_key h u q) ≡ true
unfolding offset_key
same_test g h t u p q y =
    let same : (g ≡ h) × (t ≡ u) × (p ≡ q) =
      ground (arith, text_beq_iff g h, text_beq_iff t u, nat_beq_iff p q) in
    (text_beq_iff (offset_key g t p) (offset_key h u q)).1 (rw (same.0, same.1, same.2) refl)

key_test :
    (g h t u : Text) (p q : ℕ)
    → (offset_key g t p ≡ offset_key h u q → (g ≡ h) × (t ≡ u) × (p ≡ q))
    → (offset_key g t p == offset_key h u q) ≡ (g == h && (t == u && p == q))
key_test g h t u p q inj = elim (Bool-cases (offset_key g t p == offset_key h u q)) [
  | inl e ↦
      let r = inj ((text_beq_iff (offset_key g t p) (offset_key h u q)).0 e) in
      rw e (ground (arith, r, text_beq_iff g h, text_beq_iff t u, nat_beq_iff p q))
  | inr n ↦ elim (Bool-cases (g == h && (t == u && p == q))) [
    | inl y ↦ absurd (false≢true (sym n ∙ same_test g h t u p q y))
    | inr z ↦ rw (n, z)
  ]
]

-- What is read at a key after a commit.
pub get_offset-commit_offset_key :
    (payload : CommitOffsetPayload) (s : ClusterState) (g t : Text) (p : ℕ)
    → get_offset (commit_offset payload s) g t p ≡ (
        if offset_key g t p == offset_key payload.group_id payload.topic payload.partition
        then payload.offset
        else get_offset s g t p)
unfolding get_offset commit_offset
get_offset-commit_offset_key payload s g t p = ground (
  arith,
  lookup-insert (offset_key payload.group_id payload.topic payload.partition) (offset_key g t p)
      payload.offset s.offsets,
)

-- For groups and topics with no slash in their names, and partition numbers that are Unicode code
-- points, the offset committed for a group, topic and partition is the one read back for them, and
-- a commit changes what is read for no other group, topic or partition.
pub get_offset-commit_offset :
    (payload : CommitOffsetPayload) (s : ClusterState) (g t : Text) (p : ℕ)
    → contains slash payload.group_id ≡ false
    → contains slash payload.topic ≡ false
    → is_rune payload.partition ≡ true
    → contains slash g ≡ false
    → contains slash t ≡ false
    → is_rune p ≡ true
    → get_offset (commit_offset payload s) g t p ≡ (
        if g == payload.group_id && (t == payload.topic && p == payload.partition)
        then payload.offset
        else get_offset s g t p)
get_offset-commit_offset payload s g t p ng nt rp mg mt rq =
    get_offset-commit_offset_key payload s g t p
    ∙ rw (
        key_test g payload.group_id t payload.topic p payload.partition (λ e.
          offset_key_inj g payload.group_id t payload.topic p payload.partition mg ng mt nt rq rp
            e))
