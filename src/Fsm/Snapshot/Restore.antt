-- ===== src/Fsm/Snapshot/Restore.antt =====
-- What a node that restores a snapshot has.
use aero_mq.Prelude.{◌≡◌, Option, some, List, false}
use aero_mq.Json.{Json}
use aero_mq.Fsm.State.{ClusterState, Env, new_fsm}
use aero_mq.Fsm.Replay.{replay}
use aero_mq.Fsm.Typed.Replay.{replay-IsTyped, new_fsm-IsTyped}
use aero_mq.Fsm.Snapshot.{snapshot, restore}
use aero_mq.Fsm.Snapshot.RoundTrip.{read_state-snapshot}

-- For every state that a log of entries leads to from the new state machine, a node that restores
-- the snapshot of that state has that state, whatever state it had before, and no error.
pub restore-snapshot :
    (log : List (Env × Option Json)) (s before : ClusterState)
    → replay log new_fsm ≡ some s
    → restore (some (snapshot s)) before ≡ (s, false)
unfolding restore
restore-snapshot log s before h =
    rw (read_state-snapshot s (replay-IsTyped log new_fsm s new_fsm-IsTyped h), restore)
