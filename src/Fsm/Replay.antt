-- ===== src/Fsm/Replay.antt =====
-- A controller that applies a log to its state, as hashicorp/raft calls `Apply` for each committed
-- entry in turn. An entry that is refused leaves the state as it was; a panic ends the process.
pub mod Induction
pub mod Appended
use aero_mq.Prelude.{Option, none, some, List, [], ◌∷◌}
use aero_mq.Json.{Json}
use aero_mq.Fsm.State.{ClusterState, Env}
use aero_mq.Fsm.Apply.{Outcome, done, refused, panicked, apply}

abbrev pub after : ClusterState → Outcome → Option ClusterState
after s (done s') = some s'
after s refused = some s
after s panicked = none

-- Each entry with what its run takes from the surroundings; `none` once the process has ended.
unfoldable pub replay : List (Env × Option Json) → ClusterState → Option ClusterState
replay [] s = some s
replay ((env, entry) ∷ rest) s = elim (after s (apply env entry s)) [
  | none ↦ none
  | some s' ↦ replay rest s'
]
