-- ===== src/Controller/Durable.antt =====
-- A topic whose creation the controller has confirmed.
use mathlib.Core.Path.{subst, sym}
use aero_mq.Prelude.{
  refl, ◌<◌, ◌^◌, ◌≡◌, true, Option-cases, inl, inr, none, some_inj, ap, ◌∙◌, Text, arith,
}
use aero_mq.Fsm.Topics.{CreateTopicPayload}
use aero_mq.Fsm.Commands.{cmd_create_topic}
use aero_mq.Fsm.Apply.{create, execute}
use aero_mq.Fsm.Replay.{after}
use aero_mq.Fsm.Lasting.{HasTopic, create-HasTopic_created, replay-HasTopic}
use aero_mq.Consensus.{Raft, propose}
use aero_mq.Consensus.Encode.{write_command}
use aero_mq.Consensus.Log.{Applied, Replicates}
use aero_mq.Consensus.Invariant.{propose-Applied}
use aero_mq.Consensus.Overtaken.{AddsByLog}
use aero_mq.Server.Messages.{CreateTopicRequest}
use aero_mq.Server.Payloads.{write_create_topic}
use aero_mq.Server.Written.{apply-written}
use aero_mq.Server.Handlers.{response, check_leader, as_leader, create_topic_rpc}
use aero_mq.Controller.Runs.{Run, run-Reaches}

module _ {World : Type 0} (raft : Raft World) where
  Applied-HasTopic :
      (p : CreateTopicPayload) (w w' : World)
      → p.partitions < 2 ^ 32
      → p.replication_factor < 2 ^ 32
      → Applied raft (write_command cmd_create_topic (write_create_topic p)) w none w'
      → HasTopic p.name (raft.state w')
  unfolding execute
  Applied-HasTopic p w w' hp hr a =
      let run = apply-written a.env (create p) a.from refl (hp, hr) in
      replay-HasTopic p.name a.behind a.to (raft.state w')
        (subst (HasTopic p.name) (some_inj (ap (after a.from) (sym run) ∙ a.applied))
          (create-HasTopic_created a.env p a.from))
        a.continued

  -- If the raft library changes the state only by applying entries, for proposals as it promises and
  -- for new voters too, and `CreateTopic` has answered with success, for numbers that fit in 32 bits,
  -- then the topic is in the state after that and after any run of requests, ticks, join requests and
  -- entries from other nodes that follows.
  pub create_topic_rpc-HasTopic :
      (req : CreateTopicRequest) (message : Text) (w w' w'' : World)
      → Replicates raft
      → AddsByLog raft
      → req.partitions < 2 ^ 32
      → req.replication_factor < 2 ^ 32
      → create_topic_rpc raft req w ≡ (response (record { success = true; message = message }), w')
      → Run raft w' w''
      → HasTopic req.topic (raft.state w'')
  unfolding create_topic_rpc as_leader
  create_topic_rpc-HasTopic req message w w' w'' law adds hp hr h run =
      let payload : CreateTopicPayload = record {
        name = req.topic;
        partitions = req.partitions;
        replication_factor = req.replication_factor;
      } in
      let proposed = propose raft cmd_create_topic (write_create_topic payload) w in
      let (log, reached) = (run-Reaches raft law adds run).by_log in
      elim (Option-cases (check_leader raft w)) [
        | inr (e, c) ↦ absurd (ground (arith, c, h))
        | inl c ↦ elim (Option-cases proposed.0) [
          | inr (e, p) ↦ absurd (ground (arith, c, p, h))
          | inl p ↦
              let left : proposed.1 ≡ w' = ground (arith, c, p, h) in
              replay-HasTopic req.topic log (raft.state w') (raft.state w'')
                (subst (λ x. HasTopic req.topic (raft.state x)) left
                  (Applied-HasTopic payload w proposed.1 hp hr
                    (propose-Applied raft cmd_create_topic (write_create_topic payload) w law p)))
                reached
        ]
      ]
