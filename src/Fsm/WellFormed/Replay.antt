-- ===== src/Fsm/WellFormed/Replay.antt =====
-- The state after any log of commands, and when a command ends the process.
use aero_mq.Fsm.Topics.{assign_partitions}
use aero_mq.Prelude.{nat_key, ◌≡◌, Option, some, List, Option-cases, inl, inr, text_key}
use aero_mq.Prelude.Entries.{IsMap-nil}
use aero_mq.Json.{Json}
use aero_mq.Fsm.State.{ClusterState, Env, new_fsm}
use aero_mq.Fsm.Apply.{
  Op, register, heartbeat, create, assign, join, commit, clean, skip, execute, or_panic,
}
use aero_mq.Fsm.Replay.{replay}
use aero_mq.Fsm.Replay.Induction.{Leaves, replay_inv}
use aero_mq.Fsm.WellFormed.{IsWellFormed}
use aero_mq.Fsm.WellFormed.Topics.{
  register_broker-IsWellFormed, broker_heartbeat-IsWellFormed, create_topic-IsWellFormed,
  assign_partitions-IsWellFormed, commit_offset-IsWellFormed,
}
use aero_mq.Fsm.WellFormed.Steps.{join_consumer_group-IsWellFormed, clean_inactive-IsWellFormed}

execute-IsWellFormed :
    (env : Env) (op : Op) (s : ClusterState)
    → IsWellFormed s
    → Leaves IsWellFormed (execute env op s)
unfolding execute
execute-IsWellFormed env (register payload) s w = register_broker-IsWellFormed env payload s w
execute-IsWellFormed env (heartbeat payload) s w = broker_heartbeat-IsWellFormed env payload s w
execute-IsWellFormed env (create payload) s w = create_topic-IsWellFormed env payload s w
execute-IsWellFormed env (assign payload) s w =
    elim (Option-cases (assign_partitions env payload s)) [
      | inl e ↦ rw (e, or_panic) tt
      | inr (s', e) ↦ rw (e, or_panic) (assign_partitions-IsWellFormed env payload s s' e w)
    ]
execute-IsWellFormed env (join payload) s w = join_consumer_group-IsWellFormed env payload s w
execute-IsWellFormed env (commit payload) s w = commit_offset-IsWellFormed payload s w
execute-IsWellFormed env clean s w = clean_inactive-IsWellFormed env s w
execute-IsWellFormed env skip s w = w

-- From a well-formed state, any log of entries, whether they are commands or not and whatever the
-- clock and the map orders are, leads to a well-formed state, unless an entry ends the process.
pub replay-IsWellFormed :
    (log : List (Env × Option Json)) (s s' : ClusterState)
    → IsWellFormed s
    → replay log s ≡ some s'
    → IsWellFormed s'
replay-IsWellFormed =
    replay_inv IsWellFormed (λ _. Unit) (λ _. tt) (λ env op s _ w. execute-IsWellFormed env op s w)

-- The new state machine is well formed.
pub new_fsm-IsWellFormed : IsWellFormed new_fsm
new_fsm-IsWellFormed = record {
  brokers = IsMap-nil;
  topics = IsMap-nil;
  groups = IsMap-nil;
  offsets = tt;
}
