-- ===== src/Server/Joins.antt =====
-- `JoinGroup`: once its proposal is applied, the group is there.
use mathlib.Core.Path.{subst, sym}
use aero_mq.Prelude.{
  ◌≡◌, refl, ap, ◌∙◌, Bool-cases, Option-cases, inl, inr, none, some, List, [], Text, text_key,
  arith, some_inj,
}
use aero_mq.Prelude.Map.{lookup}
use aero_mq.Fsm.State.{ClusterState}
use aero_mq.Fsm.Groups.{JoinGroupPayload}
use aero_mq.Fsm.Commands.{cmd_join_consumer_group}
use aero_mq.Fsm.Apply.{join, execute}
use aero_mq.Fsm.Replay.{after}
use aero_mq.Fsm.Known.{Knows, join-Knows_joined, replay-Knows}
use aero_mq.Server.Handlers.{
  Answer, response, status, missing_group, joined, join_group_rpc, as_leader, check_leader,
  member_of, unavailable, internal,
}
use aero_mq.Server.Messages.{JoinGroupRequest, JoinGroupResponse}
use aero_mq.Server.Payloads.{write_join_group}
use aero_mq.Server.Written.{apply-written}
use aero_mq.Consensus.{Raft, propose}
use aero_mq.Consensus.Encode.{write_command}
use aero_mq.Consensus.Log.{Applied, Replicates}
use aero_mq.Consensus.Invariant.{propose-Applied}
use aero_mq.Fsm.Metadata.{get_metadata}
use aero_mq.Fsm.Metadata.Copy.{get_metadata-copies}
use aero_mq.Prelude.{nat_key, ℕ, ◌≢◌, ◌++◌, codes, get_or}

module _ {World : Type 0} (raft : Raft World) where
  -- If the proposal to join was answered without an error, the group is known afterwards.
  pub Applied-Knows :
      (p : JoinGroupPayload) (w w' : World)
      → Applied raft (write_command cmd_join_consumer_group (write_join_group p)) w none w'
      → Knows p.group_id (raft.state w')
  unfolding execute
  Applied-Knows p w w' a =
      let run = apply-written a.env (join p) a.from refl tt in
      replay-Knows p.group_id a.behind a.to (raft.state w')
        (subst (Knows p.group_id) (some_inj (ap (after a.from) (sym run) ∙ a.applied))
          (join-Knows_joined a.env p a.from))
        a.continued

-- An answer that is not the error of a group that is missing.
abbrev pub Found : Answer JoinGroupResponse → Type 0
Found (response r) = Unit
Found (status code message) = message ≢ missing_group

joined-Found :
    (g : Text) (member : Text) (s : ClusterState)
    → Knows g s
    → Found (joined (get_metadata [] s) g member)
unfolding joined
joined-Found g member s h =
    subst (λ m. Found (joined (record (get_metadata [] s) { consumer_groups = m }) g member))
      (sym (get_metadata-copies [] s).1)
      (elim (Option-cases (lookup g s.consumer_groups)) [
        | inl e ↦ absurd (ground (arith, e, h))
        | inr (group, e) ↦ rw (e, joined) tt
      ])

heads_apart : ◌≡◌ {A = ℕ} 114 103 → ⊥
heads_apart h = omega arith

module _ {World : Type 0} (raft : Raft World) where
  other_error : (e : Text) → Found (status internal (codes "rebalance/join group failed: " ++ e))
  other_error e q = absurd (heads_apart (ap (λ t. get_or t 0 0) q))

  check_leader-other :
      (w : World) (e : Text) → check_leader raft w ≡ some e → Found (status unavailable e)
  unfolding check_leader
  check_leader-other w e c q = elim (Bool-cases (raft.is_leader w)) [
    | inl l ↦ absurd (ground (arith, l, c))
    | inr l ↦ absurd (ground (arith, l, c, q))
  ]

  -- If the raft library replicates proposals as it promises, a request to join a group is never
  -- answered that the group is not found after the proposal, whatever other entries are applied
  -- before and after it.
  pub join_group_rpc-Found :
      (bytes : List ℕ) (req : JoinGroupRequest) (w w' : World) (answer : Answer JoinGroupResponse)
      → Replicates raft
      → join_group_rpc raft bytes req w ≡ (answer, w')
      → Found answer
  unfolding join_group_rpc as_leader check_leader
  join_group_rpc-Found bytes req w w' answer law h =
      let member = member_of req bytes in
      let payload : JoinGroupPayload = record {
        group_id = req.group_id;
        member_id = member;
        topics = req.topics;
      } in
      let proposed = propose raft cmd_join_consumer_group (write_join_group payload) w in
      elim (Option-cases (check_leader raft w)) [
        | inr (e, c) ↦
            subst Found {x = status unavailable e} (ground (arith, c, h)) (check_leader-other w e c)
        | inl c ↦ elim (Option-cases proposed.0) [
          | inr (e, p) ↦
              subst Found {x = status internal (codes "rebalance/join group failed: " ++ e)}
                (ground (arith, c, p, h)) (other_error e)
          | inl p ↦ subst Found (ground (arith, c, p, h)) (
              joined-Found req.group_id member (raft.state proposed.1) (
                Applied-Knows raft payload w proposed.1 (
                  propose-Applied raft cmd_join_consumer_group (write_join_group payload) w law p)))
        ]
      ]
