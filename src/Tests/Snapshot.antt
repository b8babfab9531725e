-- ===== src/Tests/Snapshot.antt =====
-- Tests of Fsm/Snapshot and Fsm/Typed.
use aero_mq.Prelude.{◌≡◌, refl, none, some, [], ◌∷◌, codes, false}
use aero_mq.Fsm.State.{new_fsm}
use aero_mq.Fsm.Typed.{IsTyped}
use aero_mq.Fsm.Typed.Replay.{replay-IsTyped, new_fsm-IsTyped}
use aero_mq.Fsm.Snapshot.{snapshot, restore, persist, sink_write, sink_close, sink_cancel}
use aero_mq.Fsm.Snapshot.Restore.{restore-snapshot}
use aero_mq.Json.{null}
use aero_mq.Tests.Apply.{log, after_register, replay-log}
use aero_mq.Tests.Samples.{cluster}

replay-IsTyped_example : IsTyped after_register
replay-IsTyped_example = replay-IsTyped log new_fsm after_register new_fsm-IsTyped replay-log

restore-snapshot_example :
    restore (some (snapshot after_register)) cluster ≡ (after_register, false)
restore-snapshot_example = restore-snapshot log after_register cluster replay-log

persist-close_fails :
    persist null none (some (codes "disk full"))
    ≡ (sink_write null ∷ sink_close ∷ sink_cancel ∷ [], some (codes "disk full"))
unfolding persist
persist-close_fails = refl
