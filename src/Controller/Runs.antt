-- ===== src/Controller/Runs.antt =====
-- A controller as a transition system: the handlers of server.go and of the controller's HTTP API that
-- change its state, one after the other.
use aero_mq.Prelude.{
  ℕ, Bool-cases, Option-cases, inl, inr, none, some, ◌≡◌, ap, sym, Bool, false, ◌∙◌, Text, List, [],
  ◌∷◌, ◌||◌, text_key, ◌==◌,
}
use aero_mq.Json.{Json, null}
use aero_mq.Fsm.State.{new_fsm}
use aero_mq.Fsm.Commands.{
  cmd_register_broker, cmd_broker_heartbeat, cmd_create_topic, cmd_join_consumer_group,
  cmd_commit_offset, cmd_clean_inactive,
}
use aero_mq.Fsm.Replay.{replay}
use aero_mq.Fsm.WellFormed.{IsWellFormed}
use aero_mq.Fsm.WellFormed.Replay.{replay-IsWellFormed, new_fsm-IsWellFormed}
use aero_mq.Fsm.Typed.{IsTyped}
use aero_mq.Fsm.Typed.Replay.{replay-IsTyped, new_fsm-IsTyped}
use aero_mq.Consensus.{Raft, propose, join_node}
use aero_mq.Consensus.Log.{Entry, Replicates, Overtaken}
use aero_mq.Consensus.Overtaken.{
  AddsByLog, Overtaken-refl, Overtaken-trans, propose-Overtaken, join_node-Overtaken,
}
use aero_mq.Server.Messages.{
  RegisterBrokerRequest, HeartbeatRequest, CreateTopicRequest, JoinGroupRequest,
  CommitOffsetsRequest, TopicPartitionOffset,
}
use aero_mq.Server.Listing.{Orders}
use aero_mq.Server.Handlers.{
  Answer, check_leader, as_leader, register_broker_rpc, heartbeat_rpc, create_topic_rpc,
  join_group_rpc, commit_all, commit_offsets_rpc, detect_failures,
}
use aero_mq.Controller.{handle_join}

module _ {World : Type 0} (raft : Raft World) where
  -- What changes the state: a request, a tick of the failure detection, or entries that the library
  -- applies by itself, as on a node that follows.
  pub data Event : World → World → Type 0 where
    registers :
        (req : RegisterBrokerRequest) (w : World) → Event w (register_broker_rpc raft req w).1
    beats :
        (o : Orders) (req : HeartbeatRequest) (w : World) → Event w (heartbeat_rpc raft o req w).1
    creates : (req : CreateTopicRequest) (w : World) → Event w (create_topic_rpc raft req w).1
    joins_group :
        (bytes : List ℕ) (req : JoinGroupRequest) (w : World)
        → Event w (join_group_rpc raft bytes req w).1
    commits : (req : CommitOffsetsRequest) (w : World) → Event w (commit_offsets_rpc raft req w).1
    ticks : (w : World) → Event w (detect_failures raft w)
    adds_node : (id addr : Text) (w : World) → Event w (handle_join raft id addr w).1
    applies : (w w' : World) → Overtaken raft w w' → Event w w'

  pub data Run : World → World → Type 0 where
    starts : (w : World) → Run w w
    continues : (w w' w'' : World) → Run w w' → Event w' w'' → Run w w''

  -- A world that the library reaches by entries that it applies.
  pub record Reaches (w w' : World) : Type 0 where
    pub by_log : Overtaken raft w w'

  stays-Reaches : (w : World) → Reaches w w
  stays-Reaches w = record { by_log = Overtaken-refl raft w }

  proposed-Reaches :
      (op : Text) (payload : Json) (w : World)
      → Replicates raft
      → Reaches w (propose raft op payload w).1
  proposed-Reaches op payload w law = record { by_log = propose-Overtaken raft op payload w law }

  -- A handler that reaches the world it leaves.
  record Keeps {A : Type 0} (handle : World → A × World) : Type 0 where
    keeps : (w : World) → Reaches w (handle w).1

  as_leader-Keeps :
      {A : Type 0} (handle : World → Answer A × World)
      → Keeps handle
      → Keeps (as_leader raft handle)
  unfolding as_leader
  as_leader-Keeps handle h = record {
    keeps = λ w. elim (Option-cases (check_leader raft w)) [
      | inr (e, c) ↦ rw (c, as_leader) (stays-Reaches w)
      | inl c ↦ rw (c, as_leader) (h.keeps w)
    ];
  }

  -- A handler that answers by the error of its proposal, and leaves the world that the proposal left.
  answered-Keeps :
      {A : Type 0} (op : Text) (payload : Json) (bad : World → Text → A) (good : World → A)
      → Replicates raft
      → Keeps (λ w. elim (propose raft op payload w).0 as (λ _. A × World) [
        | none ↦ (good w, (propose raft op payload w).1)
        | some e ↦ (bad w e, (propose raft op payload w).1)
      ])
  answered-Keeps op payload bad good law = record {
    keeps = λ w. elim (Option-cases (propose raft op payload w).0) [
      | inl e ↦ rw e (proposed-Reaches op payload w law)
      | inr (x, e) ↦ rw e (proposed-Reaches op payload w law)
    ];
  }

  register_broker_rpc-Keeps :
      (req : RegisterBrokerRequest) → Replicates raft → Keeps (register_broker_rpc raft req)
  unfolding register_broker_rpc
  register_broker_rpc-Keeps req law =
      as_leader-Keeps _ (answered-Keeps cmd_register_broker _ _ _ law)

  heartbeat_rpc-Keeps :
      (o : Orders) (req : HeartbeatRequest) → Replicates raft → Keeps (heartbeat_rpc raft o req)
  unfolding heartbeat_rpc
  heartbeat_rpc-Keeps o req law = as_leader-Keeps _ (answered-Keeps cmd_broker_heartbeat _ _ _ law)

  create_topic_rpc-Keeps :
      (req : CreateTopicRequest) → Replicates raft → Keeps (create_topic_rpc raft req)
  unfolding create_topic_rpc
  create_topic_rpc-Keeps req law = as_leader-Keeps _ (answered-Keeps cmd_create_topic _ _ _ law)

  join_group_rpc-Keeps :
      (bytes : List ℕ) (req : JoinGroupRequest)
      → Replicates raft
      → Keeps (join_group_rpc raft bytes req)
  unfolding join_group_rpc
  join_group_rpc-Keeps bytes req law =
      as_leader-Keeps _ (answered-Keeps cmd_join_consumer_group _ _ _ law)

  then-Reaches : (w w' w'' : World) → Reaches w w' → Reaches w' w'' → Reaches w w''
  then-Reaches w w' w'' a b = record { by_log = Overtaken-trans raft w w' w'' a.by_log b.by_log }

  next-Reaches :
      (op : Text) (payload : Json) (w : World) (next : World → Bool × World)
      → Replicates raft
      → ((v : World) → Reaches v (next v).1)
      → Reaches w
          (elim (propose raft op payload w).0 as (λ _. Bool × World) [
            | none ↦ next (propose raft op payload w).1
            | some e ↦ (false, (propose raft op payload w).1)
          ]).1
  next-Reaches op payload w next law h =
      let proposed = proposed-Reaches op payload w law in
      elim (Option-cases (propose raft op payload w).0) [
        | inl e ↦ rw e (then-Reaches w _ _ proposed (h (propose raft op payload w).1))
        | inr (x, e) ↦ rw e proposed
      ]

  commit_all-Reaches :
      (group : Text) (offsets : List TopicPartitionOffset) (w : World)
      → Replicates raft
      → Reaches w (commit_all raft group offsets w).1
  unfolding commit_all
  commit_all-Reaches group [] w law = stays-Reaches w
  commit_all-Reaches group (offset ∷ rest) w law =
      next-Reaches cmd_commit_offset _ w (commit_all raft group rest) law
        (λ v. commit_all-Reaches group rest v law)

  commit_offsets_rpc-Keeps :
      (req : CommitOffsetsRequest) → Replicates raft → Keeps (commit_offsets_rpc raft req)
  unfolding commit_offsets_rpc
  commit_offsets_rpc-Keeps req law =
      as_leader-Keeps _ (record { keeps = λ w. commit_all-Reaches req.group_id req.offsets w law })

  detect_failures-Reaches : (w : World) → Replicates raft → Reaches w (detect_failures raft w)
  unfolding detect_failures
  detect_failures-Reaches w law = elim (Bool-cases (raft.is_leader w)) [
    | inl e ↦ rw (e, detect_failures) (proposed-Reaches cmd_clean_inactive null w law)
    | inr n ↦ rw (n, detect_failures) (stays-Reaches w)
  ]

  handle_join-Reaches :
      (id addr : Text) (w : World) → AddsByLog raft → Reaches w (handle_join raft id addr w).1
  unfolding handle_join
  handle_join-Reaches id addr w law = elim (Bool-cases (id == [] || addr == [])) [
    | inl b ↦ rw (b, handle_join) (stays-Reaches w)
    | inr b ↦
        let added : Reaches w (join_node raft id addr w).1 = record {
          by_log = join_node-Overtaken raft id addr w law;
        } in
        elim (Option-cases (join_node raft id addr w).0) [
          | inl e ↦ rw (b, e, handle_join) added
          | inr (x, e) ↦ rw (b, e, handle_join) added
        ]
  ]

  event-Reaches : {w w' : World} → Replicates raft → AddsByLog raft → Event w w' → Reaches w w'
  event-Reaches law adds (registers req w) = (register_broker_rpc-Keeps req law).keeps w
  event-Reaches law adds (beats o req w) = (heartbeat_rpc-Keeps o req law).keeps w
  event-Reaches law adds (creates req w) = (create_topic_rpc-Keeps req law).keeps w
  event-Reaches law adds (joins_group bytes req w) = (join_group_rpc-Keeps bytes req law).keeps w
  event-Reaches law adds (commits req w) = (commit_offsets_rpc-Keeps req law).keeps w
  event-Reaches law adds (ticks w) = detect_failures-Reaches w law
  event-Reaches law adds (adds_node id addr w) = handle_join-Reaches id addr w adds
  event-Reaches law adds (applies w w' entries) = record { by_log = entries }

  pub run-Reaches : {w w' : World} → Replicates raft → AddsByLog raft → Run w w' → Reaches w w'
  run-Reaches law adds (starts w) = stays-Reaches w
  run-Reaches law adds (continues w w' w'' before event) =
      then-Reaches w w' w'' (run-Reaches law adds before) (event-Reaches law adds event)

  -- If the raft library changes the state only by applying entries, for proposals as it promises and
  -- for new voters too, and a controller starts with a new state, then after any run of its requests,
  -- its ticks, join requests and entries that come from other nodes, its state is that of a log
  -- applied to a new state; it is well formed, and each value is in the range of its Go type.
  pub run-replays :
      {w w' : World}
      → Replicates raft
      → AddsByLog raft
      → raft.state w ≡ new_fsm
      → Run w w'
      → (log : List Entry) × (replay log new_fsm ≡ some (raft.state w'))
        × IsWellFormed (raft.state w')
        × IsTyped (raft.state w')
  run-replays {w} {w'} law adds fresh run =
      let (log, h) = (run-Reaches law adds run).by_log in
      let replayed = ap (replay log) (sym fresh) ∙ h in
      (
        log,
        replayed,
        replay-IsWellFormed log new_fsm (raft.state w') new_fsm-IsWellFormed replayed,
        replay-IsTyped log new_fsm (raft.state w') new_fsm-IsTyped replayed,
      )
