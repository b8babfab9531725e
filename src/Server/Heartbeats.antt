-- ===== src/Server/Heartbeats.antt =====
-- The answer of `Heartbeat`, from the state that the proposal leaves.
use mathlib.Core.Path.{subst, sym}
use aero_mq.Prelude.{
  ap, ◌∙◌, [], ℕ, ◌≡◌, Option-cases, inl, inr, Text, text_key, nat_key, map, arith,
}
use aero_mq.Fsm.State.Lookup.{find_partition}
use aero_mq.Fsm.State.{ClusterState}
use aero_mq.Fsm.Commands.{cmd_broker_heartbeat}
use aero_mq.Fsm.Metadata.{get_metadata}
use aero_mq.Fsm.WellFormed.{IsWellFormed}
use aero_mq.Json.{Json}
use aero_mq.Consensus.{Raft, propose}
use aero_mq.Consensus.Log.{Replicates}
use aero_mq.Consensus.Invariant.{propose-IsWellFormed}
use aero_mq.Server.Messages.{HeartbeatRequest, HeartbeatResponse}
use aero_mq.Server.Payloads.{write_heartbeat}
use aero_mq.Server.Listing.{Orders, assigned_to}
use aero_mq.Server.Handlers.{response, heartbeat_rpc, report_of, check_leader, as_leader}
use aero_mq.Server.Assigned.{lists, leads, follows, AreTopics, assigned_to_iff}

well_formed-AreTopics : (s : ClusterState) → IsWellFormed s → AreTopics s.topics
well_formed-AreTopics s h = record {
  distinct = h.topics.distinct;
  each = λ k t f. (h.topics.each k t f).1;
}

abbrev heartbeat_payload : HeartbeatRequest → Json
heartbeat_payload req =
    write_heartbeat
      (record { id = req.broker_id; replica_offsets = map report_of req.replica_offsets })

module _ {World : Type 0} (raft : Raft World) where
  -- A response comes from the state right after the proposal.
  heartbeat_rpc-response :
      (o : Orders) (req : HeartbeatRequest) (w w' : World) (r : HeartbeatResponse)
      → heartbeat_rpc raft o req w ≡ (response r, w')
      → (w' ≡ (propose raft cmd_broker_heartbeat (heartbeat_payload req) w).1)
        × (r.assigned_leaders
            ≡ (assigned_to o req.broker_id (get_metadata [] (raft.state w'))).leaders)
        × (r.assigned_followers
            ≡ (assigned_to o req.broker_id (get_metadata [] (raft.state w'))).followers)
  unfolding heartbeat_rpc as_leader
  heartbeat_rpc-response o req w w' r h = elim (Option-cases (check_leader raft w)) [
    | inr (e, c) ↦ absurd (ground (arith, c, h))
    | inl c ↦ elim (Option-cases (propose raft cmd_broker_heartbeat (heartbeat_payload req) w).0) [
      | inr (e, p) ↦ absurd (ground (arith, c, p, h))
      | inl p ↦ (ground (arith, c, p, h), ground (arith, c, p, h), ground (arith, c, p, h))
    ]
  ]

  -- If the raft library replicates proposals as it promises, the state is well formed, and a
  -- heartbeat is answered with a response, then the partitions that it lists to lead are those of
  -- which the broker is the leader in the state after the proposal, and those that it lists to
  -- follow are those of which it is a replica and not the leader.
  pub heartbeat_rpc-assigned :
      (o : Orders) (req : HeartbeatRequest) (w w' : World) (r : HeartbeatResponse)
      → Replicates raft
      → IsWellFormed (raft.state w)
      → heartbeat_rpc raft o req w ≡ (response r, w')
      → (t : Text) (p : ℕ)
      → (lists t p r.assigned_leaders
          ≡ leads req.broker_id (find_partition t p (raft.state w').topics))
        × (lists t p r.assigned_followers
            ≡ follows req.broker_id (find_partition t p (raft.state w').topics))
  heartbeat_rpc-assigned o req w w' r law h answered t p =
      let (world, leaders, followers) = heartbeat_rpc-response o req w w' r answered in
      let h' : IsWellFormed (raft.state w') =
        subst (λ x. IsWellFormed (raft.state x)) (sym world)
          (propose-IsWellFormed raft cmd_broker_heartbeat (heartbeat_payload req) w law h) in
      let (led, followed) =
        assigned_to_iff o req.broker_id (raft.state w') t p
          (well_formed-AreTopics (raft.state w') h') in
      (ap (lists t p) leaders ∙ led, ap (lists t p) followers ∙ followed)
