-- ===== src/Fsm/Known.antt =====
-- A group that is known stays known.
use mathlib.Core.Path.{subst, sym}
use aero_mq.Prelude.{
  ◌≡◌, true, Option-cases, inl, inr, Option, none, some, List, Text, text_key, text_beq_iff, arith,
  Bool, false,
}
use aero_mq.Prelude.Map.{lookup, insert, lookup-insert}
use aero_mq.Json.{Json}
use aero_mq.Fsm.State.{ClusterState, Env}
use aero_mq.Fsm.Groups.{JoinGroupPayload, join_consumer_group}
use aero_mq.Fsm.Topics.{assign_partitions}
use aero_mq.Fsm.Brokers.{register_broker, broker_heartbeat}
use aero_mq.Fsm.Offsets.{commit_offset}
use aero_mq.Fsm.Replication.{update_isr_and_hw}
use aero_mq.Fsm.Apply.{
  Op, register, heartbeat, create, assign, join, commit, clean, skip, execute, or_panic,
}
use aero_mq.Fsm.Kept.{clean_inactive-kept, create_topic-kept, assign_partitions-kept}
use aero_mq.Fsm.Replay.Induction.{Leaves, replay_inv}
use aero_mq.Fsm.Replay.{replay}
use aero_mq.Fsm.State.{ConsumerGroupState}
use aero_mq.Prelude.{nat_key}
use aero_mq.Prelude.Map.{Map}

abbrev pub is_some {ℓ} : {A : Type ℓ} → Option A → Bool
is_some none = false
is_some (some _) = true

-- The group `g` is known.
abbrev pub Knows : Text → ClusterState → Type 0
Knows g s = is_some (lookup g s.consumer_groups) ≡ true

insert-Knows :
    (k g : Text) (v : ConsumerGroupState) (m : Map Text ConsumerGroupState)
    → is_some (lookup g m) ≡ true
    → is_some (lookup g (insert k v m)) ≡ true
insert-Knows k g v m h = ground (arith, h, lookup-insert k g v m)

insert-Knows_key :
    (k : Text) (v : ConsumerGroupState) (m : Map Text ConsumerGroupState)
    → is_some (lookup k (insert k v m)) ≡ true
insert-Knows_key k v m = ground (arith, text_beq_iff k k, lookup-insert k k v m)

join-Knows :
    (env : Env) (p : JoinGroupPayload) (g : Text) (s : ClusterState)
    → Knows g s
    → Knows g (join_consumer_group env p s)
unfolding join_consumer_group
join-Knows env p g s h = insert-Knows p.group_id g _ s.consumer_groups h

pub join-Knows_joined :
    (env : Env) (p : JoinGroupPayload) (s : ClusterState)
    → Knows p.group_id (join_consumer_group env p s)
unfolding join_consumer_group
join-Knows_joined env p s = insert-Knows_key p.group_id _ s.consumer_groups

execute-Knows :
    (g : Text) (env : Env) (op : Op) (s : ClusterState)
    → Knows g s
    → Leaves (Knows g) (execute env op s)
unfolding execute register_broker broker_heartbeat update_isr_and_hw commit_offset
execute-Knows g env (register p) s h = h
execute-Knows g env (heartbeat p) s h = h
execute-Knows g env (create p) s h =
    subst (λ m. is_some (lookup g m.0) ≡ true) (sym (create_topic-kept env p s)) h
execute-Knows g env (assign p) s h = elim (Option-cases (assign_partitions env p s)) [
  | inl e ↦ rw (e, or_panic) tt
  | inr (s', e) ↦
      rw (e, or_panic)
        (subst (λ m. is_some (lookup g m.0) ≡ true) (sym (assign_partitions-kept env p s s' e)) h)
]
execute-Knows g env (join p) s h = join-Knows env p g s h
execute-Knows g env (commit p) s h = h
execute-Knows g env clean s h =
    subst (λ m. is_some (lookup g m.0) ≡ true) (sym (clean_inactive-kept env s)) h
execute-Knows g env skip s h = h

-- No log of entries removes a group.
pub replay-Knows :
    (g : Text) (log : List (Env × Option Json)) (s s' : ClusterState)
    → Knows g s
    → replay log s ≡ some s'
    → Knows g s'
replay-Knows g =
    replay_inv (Knows g) (λ _. Unit) (λ _. tt) (λ env op s _ w. execute-Knows g env op s w)
