-- ===== src/Server/Commits.antt =====
-- What `CommitOffsets` of server.go has done where it answers with success.
use mathlib.Core.Path.{subst}
use aero_mq.Prelude.{
  true, Option-cases, inl, inr, none, some, List, [], ◌∷◌, ◌++◌, Text, ◌≡◌, refl, sym, ap, ◌∙◌,
  arith,
}
use aero_mq.Json.{Json}
use aero_mq.Fsm.State.{Env}
use aero_mq.Fsm.Replay.{replay}
use aero_mq.Fsm.Replay.Appended.{replay-append}
use aero_mq.Fsm.Commands.{cmd_commit_offset}
use aero_mq.Consensus.{Raft, propose}
use aero_mq.Consensus.Encode.{write_command}
use aero_mq.Consensus.Log.{Entry, Applied, Replicates}
use aero_mq.Consensus.Invariant.{propose-Applied}
use aero_mq.Consensus.Overtaken.{replay-one}
use aero_mq.Server.Messages.{TopicPartitionOffset, CommitOffsetsRequest}
use aero_mq.Server.Payloads.{write_commit_offset}
use aero_mq.Server.Handlers.{response, check_leader, as_leader, commit_all, commit_offsets_rpc}

-- The payload that is proposed for one of the offsets of a request.
abbrev pub commit_payload : Text → TopicPartitionOffset → Json
commit_payload group o =
    write_commit_offset
      (record { group_id = group; topic = o.topic; partition = o.partition; offset = o.offset })

-- A log that holds the commits of these offsets, in their order, among other entries.
pub data Commits (group : Text) : List TopicPartitionOffset → List Entry → Type 0 where
  ends : Commits group [] []
  passes :
      (e : Entry) (os : List TopicPartitionOffset) (log : List Entry)
      → Commits group os log
      → Commits group os (e ∷ log)
  commits :
      (env : Env) (o : TopicPartitionOffset) (os : List TopicPartitionOffset) (log : List Entry)
      → Commits group os log
      → Commits group
          (o ∷ os)
          ((env, some (write_command cmd_commit_offset (commit_payload group o))) ∷ log)

Commits-after :
    (group : Text) (os : List TopicPartitionOffset) (before log : List Entry)
    → Commits group os log
    → Commits group os (before ++ log)
Commits-after group os [] log c = c
Commits-after group os (e ∷ before) log c =
    passes e os (before ++ log) (Commits-after group os before log c)

module _ {World : Type 0} (raft : Raft World) where
  -- The offsets have been applied between two worlds, in their order.
  abbrev pub Committed : Text → List TopicPartitionOffset → World → World → Type 0
  Committed group os w w' =
      (log : List Entry) × (replay log (raft.state w) ≡ some (raft.state w')) × Commits group os log

  commit_first :
      (group : Text) (o : TopicPartitionOffset) (os : List TopicPartitionOffset) (w w' w'' : World)
      → Applied raft (write_command cmd_commit_offset (commit_payload group o)) w none w'
      → Committed group os w' w''
      → Committed group (o ∷ os) w w''
  commit_first group o os w w' w'' a (log, h, c) =
      let entry : Entry =
        (a.env, some (write_command cmd_commit_offset (commit_payload group o))) in
      (
        a.before ++ (entry ∷ (a.behind ++ log)),
        replay-append a.before (entry ∷ (a.behind ++ log)) (raft.state w) a.from a.reached
            ∙ replay-append (entry ∷ []) (a.behind ++ log) a.from a.to
                (replay-one a.env _ a.from a.to a.applied)
            ∙ replay-append a.behind log a.to (raft.state w') a.continued
            ∙ h,
        Commits-after group (o ∷ os) a.before _
            (commits a.env o os _ (Commits-after group os a.behind log c)),
      )

  commit_all-next :
      (group : Text) (o : TopicPartitionOffset) (os : List TopicPartitionOffset) (w : World)
      → (propose raft cmd_commit_offset (commit_payload group o) w).0 ≡ none
      → commit_all raft group (o ∷ os) w
        ≡ commit_all raft group os (propose raft cmd_commit_offset (commit_payload group o) w).1
  unfolding commit_all
  commit_all-next group o os w p = rw (p, commit_all) refl

  commit_all-Committed :
      (group : Text) (os : List TopicPartitionOffset) (w : World)
      → Replicates raft
      → (commit_all raft group os w).0 ≡ true
      → Committed group os w (commit_all raft group os w).1
  unfolding commit_all replay
  commit_all-Committed group [] w law h = ([], refl, ends)
  commit_all-Committed group (o ∷ os) w law h =
      elim (Option-cases (propose raft cmd_commit_offset (commit_payload group o) w).0) [
        | inr (e, p) ↦ absurd (ground (arith, p, h))
        | inl p ↦
            let w' = (propose raft cmd_commit_offset (commit_payload group o) w).1 in
            let next = commit_all-next group o os w p in
            subst (λ r. Committed group (o ∷ os) w r.1) (sym next)
              (commit_first group o os w w' (commit_all raft group os w').1
                (propose-Applied raft cmd_commit_offset (commit_payload group o) w law p)
                (commit_all-Committed group os w' law (ap (λ r. r.0) (sym next) ∙ h)))
      ]

  -- If the raft library replicates proposals as it promises, and `CommitOffsets` answers with success,
  -- then the state it leaves is that of a log applied to the state before, in which the commits of all
  -- offsets of the request stand in their order, among what others have proposed meanwhile.
  pub commit_offsets_rpc-Committed :
      (req : CommitOffsetsRequest) (w w' : World)
      → Replicates raft
      → commit_offsets_rpc raft req w ≡ (response (record { success = true }), w')
      → Committed req.group_id req.offsets w w'
  unfolding commit_offsets_rpc as_leader
  commit_offsets_rpc-Committed req w w' law h = elim (Option-cases (check_leader raft w)) [
    | inr (e, c) ↦ absurd (ground (arith, c, h))
    | inl c ↦
        let done : (commit_all raft req.group_id req.offsets w).0 ≡ true = ground (arith, c, h) in
        let left : (commit_all raft req.group_id req.offsets w).1 ≡ w' = ground (arith, c, h) in
        subst (λ x. Committed req.group_id req.offsets w x) left
          (commit_all-Committed req.group_id req.offsets w law done)
  ]
