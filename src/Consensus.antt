-- ===== src/Consensus.antt =====
-- go-controller/pkg/consensus/raft.go: the node that proposes commands to hashicorp/raft.
--
-- The raft library is the parameter `Raft`: a world, what the library answers in it, and `submit`,
-- the call of `Raft.Apply` with the wait for its future. What other requests and other nodes do
-- meanwhile is part of that step.
pub mod Encode
pub mod Setup
pub mod Log
pub mod Overtaken
pub mod Invariant
use aero_mq.Prelude.{Bool, Option, none, some, Text, codes, ◌++◌, if◌then◌else◌}
use aero_mq.Json.{Json}
use aero_mq.Fsm.State.{ClusterState}
use aero_mq.Consensus.Encode.{write_command}

-- The future of a proposal: its error, or the response of `FSM.Apply`, an error or nil.
pub data Future : Type 0 where
  failed : Text → Future
  responded : Option Text → Future

pub record Raft (World : Type 0) : Type 0 where
  pub is_leader : World → Bool
  pub leader : World → Text
  pub submit : Json → World → Future × World
  pub add_voter : Text → Text → World → Option Text × World
  pub state : World → ClusterState

-- The error of a future or of its response.
abbrev pub future_error : Future → Option Text
future_error (failed e) = some (codes "raft apply error: " ++ e)
future_error (responded e) = e

module _ {World : Type 0} (raft : Raft World) where
  -- `none` is a nil error. `json.Marshal` fails for no payload of the program.
  unfoldable pub propose : Text → Json → World → Option Text × World
  unfolding write_command
  propose op payload w =
      let submitted = raft.submit (write_command op payload) w in
      if raft.is_leader w
      then (future_error submitted.0, submitted.1)
      else (some (codes "not the leader (current leader is " ++ (raft.leader w ++ codes ")")), w)

  unfoldable pub join_node : Text → Text → World → Option Text × World
  join_node id addr w =
      let added = raft.add_voter id addr w in
      if raft.is_leader w
      then (
        elim added.0 [
          | none ↦ none
          | some e ↦
              some (
                codes "failed to add voter "
                ++ (id ++ (codes " (" ++ (addr ++ (codes "): " ++ e)))))
        ],
        added.1,
      )
      else (some (codes "cannot join node: not the leader"), w)
