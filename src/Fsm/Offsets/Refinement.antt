-- ===== src/Fsm/Offsets/Refinement.antt =====
-- The offsets of the state machine implement the book.
use mathlib.Core.Path.{subst}
use aero_mq.Prelude.{
  ℕ, ◌≡◌, refl, ap, ◌∙◌, true, Option, some, List, [], ◌∷◌, Text, Option-cases, inl, inr, some_inj,
  arith, false, nat_key, contains,
}
use aero_mq.Prelude.Int.{ℤ}
use aero_mq.Prelude.{text_key}
use aero_mq.Json.{Json, ◌>>=◌}
use aero_mq.Fsm.State.{ClusterState, Env}
use aero_mq.Fsm.Commands.{read_command}
use aero_mq.Fsm.Brokers.{register_broker, broker_heartbeat}
use aero_mq.Fsm.Topics.{assign_partitions}
use aero_mq.Fsm.Groups.{join_consumer_group}
use aero_mq.Fsm.Replication.{update_isr_and_hw}
use aero_mq.Fsm.Apply.{
  Op, register, heartbeat, create, assign, join, commit, clean, skip, op_of, execute, apply,
}
use aero_mq.Fsm.Kept.{clean_inactive-kept, create_topic-kept, assign_partitions-kept}
use aero_mq.Fsm.Replay.{replay, after}
use aero_mq.Fsm.Offsets.{is_rune, slash, get_offset}
use aero_mq.Fsm.Offsets.Store.{get_offset-commit_offset}
use aero_mq.Fsm.Offsets.Book.{
  commit_in, commit_of, is_plain, is_plain_commit, ArePlain, note_commit, last_committed,
}

is_plain-parts :
    (g t : Text) (p : ℕ)
    → is_plain g t p ≡ true
    → (contains slash g ≡ false) × (contains slash t ≡ false) × (is_rune p ≡ true)
unfolding is_plain
is_plain-parts g t p h = (ground (arith, h), ground (arith, h), ground (arith, h))

-- An equal map of offsets is read the same.
get_offset-kept :
    (s s' : ClusterState) (g t : Text) (p : ℕ)
    → s'.offsets ≡ s.offsets
    → get_offset s' g t p ≡ get_offset s g t p
unfolding get_offset
get_offset-kept s s' g t p e = rw (e) refl

module _ (g t : Text) (p : ℕ) (plain : is_plain g t p ≡ true) where
  after_done :
      (s r : ClusterState) (v : ℤ)
      → get_offset s g t p ≡ v
      → some s ≡ some r
      → get_offset r g t p ≡ v
  after_done s r v e h = subst (λ x. get_offset x g t p ≡ v) (some_inj h) e

  execute-note_commit :
      (env : Env) (op : Op) (s r : ClusterState)
      → is_plain_commit (commit_in op) ≡ true
      → after s (execute env op s) ≡ some r
      → get_offset r g t p ≡ note_commit (commit_in op) g t p (get_offset s g t p)
  unfolding execute note_commit register_broker broker_heartbeat join_consumer_group
      update_isr_and_hw
  execute-note_commit env (register x) s r h a = after_done _ r _ (get_offset-kept s _ g t p refl) a
  execute-note_commit env (heartbeat x) s r h a =
      after_done _ r _ (get_offset-kept s _ g t p refl) a
  execute-note_commit env (create x) s r h a =
      after_done _ r _ (get_offset-kept s _ g t p (ap (λ m. m.1) (create_topic-kept env x s))) a
  execute-note_commit env (assign x) s r h a = elim (Option-cases (assign_partitions env x s)) [
    | inl e ↦ cc (e, a)
    | inr (s', e) ↦
        after_done s' r _
          (get_offset-kept s s' g t p (ap (λ m. m.1) (assign_partitions-kept env x s s' e)))
          (ground (arith, e, a))
  ]
  execute-note_commit env (join x) s r h a = after_done _ r _ (get_offset-kept s _ g t p refl) a
  execute-note_commit env (commit x) s r h a =
      let q = is_plain-parts g t p plain in
      let c = is_plain-parts x.group_id x.topic x.partition h in
      after_done _ r _ (get_offset-commit_offset x s g t p c.0 c.1 c.2 q.0 q.1 q.2) a
  execute-note_commit env clean s r h a =
      after_done _ r _ (get_offset-kept s _ g t p (ap (λ m. m.1) (clean_inactive-kept env s))) a
  execute-note_commit env skip s r h a = after_done s r _ refl a

  apply-note_commit :
      (env : Env) (entry : Option Json) (s r : ClusterState)
      → is_plain_commit (commit_of entry) ≡ true
      → after s (apply env entry s) ≡ some r
      → get_offset r g t p ≡ note_commit (commit_of entry) g t p (get_offset s g t p)
  unfolding apply commit_of note_commit
  apply-note_commit env entry s r h a = elim (Option-cases (entry >>= read_command)) [
    | inl e ↦ ground (arith, e, a, after_done s r _ refl)
    | inr (cmd, e) ↦
        rw (e, commit_of)
          (execute-note_commit env (op_of cmd) s r (ground (arith, e, h)) (ground (arith, e, a)))
  ]

  replay-last_committed_from :
      (log : List (Env × Option Json)) (s r : ClusterState)
      → ArePlain log
      → replay log s ≡ some r
      → get_offset r g t p ≡ last_committed log g t p (get_offset s g t p)
  unfolding replay last_committed
  replay-last_committed_from [] s r a h = after_done s r _ refl h
  replay-last_committed_from ((env, entry) ∷ rest) s r a h =
      elim (Option-cases (after s (apply env entry s))) [
        | inl e ↦ cc (h, e)
        | inr (s', e) ↦
            replay-last_committed_from rest s' r a.1 (ground (arith, e, h))
            ∙ ap (last_committed rest g t p) (apply-note_commit env entry s s' a.0 e)
      ]

-- The state machine implements the book: over a log whose commits, like the question, name a group
-- and a topic with no slash and a partition that is a Unicode code point, the offset that is read
-- after the log is the one that the log committed last for that group, topic and partition, and the
-- one that was read before the log if it committed none. The log may hold any other entries, and
-- may not end the process.
pub replay-last_committed :
    (log : List (Env × Option Json)) (s r : ClusterState) (g t : Text) (p : ℕ)
    → is_plain g t p ≡ true
    → ArePlain log
    → replay log s ≡ some r
    → get_offset r g t p ≡ last_committed log g t p (get_offset s g t p)
replay-last_committed log s r g t p plain = replay-last_committed_from g t p plain log s r
