-- ===== src/Fsm/Brokers/Liveness.antt =====
-- What `register_broker` and `broker_heartbeat` do to the brokers and to the reported offsets.
use mathlib.Core.Option
use aero_mq.Prelude.{
  ℕ, ◌≡◌, refl, ap, ◌∙◌, Bool, true, false, ◌&&◌, Option, none, some, List, [], ◌∷◌, Text, text_key,
  nat_key, nat_beq_iff, arith, ◌==◌, if◌then◌else◌, beq_refl,
}
use aero_mq.Prelude.Int.{ℤ}
use aero_mq.Prelude.Map.{Map, lookup, adjust, insert, lookup-adjust, lookup-insert}
use aero_mq.Fsm.State.{BrokerStatus, PartitionState, TopicState, ClusterState, Env, made}
use aero_mq.Fsm.State.Lookup.{find_in, find_partition, find_partition-each}
use aero_mq.Fsm.Replication.{offset_of, refresh_partition, update_isr_and_hw}
use aero_mq.Fsm.Brokers.{
  ReplicaOffset, HeartbeatPayload, seen, report, adjust_partition, report_offsets, broker_heartbeat,
}

-- What a list of reports from one broker makes of partition `p` of topic `t`.
abbrev pub report_to : ℕ → Text → ℕ → List ReplicaOffset → PartitionState → PartitionState
report_to id t p [] ps = ps
report_to id t p (ro ∷ rest) ps =
    report_to id t p rest
      (if t == ro.topic && p == ro.partition then report id ro.offset ps else ps)

-- The last offset that is reported for partition `p` of topic `t`, or else `v`.
abbrev pub latest : Text → ℕ → List ReplicaOffset → ℤ → ℤ
latest t p [] v = v
latest t p (ro ∷ rest) v =
    latest t p rest (if t == ro.topic && p == ro.partition then ro.offset else v)

find_in-adjust :
    (p q : ℕ) (f : PartitionState → PartitionState) (o : Option TopicState)
    → find_in p (Option.map (adjust_partition q f) o)
      ≡ (if p == q then Option.map f (find_in p o) else find_in p o)
find_in-adjust p q f none = ground arith
find_in-adjust p q f (some t) = lookup-adjust q p f t.partitions

find_partition-adjust :
    (t u : Text) (p q : ℕ) (f : PartitionState → PartitionState) (topics : Map Text TopicState)
    → find_partition t p (adjust u (adjust_partition q f) topics) ≡ (
        if t == u && p == q
        then Option.map f (find_partition t p topics)
        else find_partition t p topics)
find_partition-adjust t u p q f topics =
    ap (find_in p) (lookup-adjust u t (adjust_partition q f) topics)
    ∙ ground (arith, find_in-adjust p q f (lookup t topics))

find_partition-report_offsets :
    (id : ℕ) (t : Text) (p : ℕ) (ros : List ReplicaOffset) (topics : Map Text TopicState)
    → find_partition t p (report_offsets id ros topics)
      ≡ Option.map (report_to id t p ros) (find_partition t p topics)
unfolding report_offsets
find_partition-report_offsets id t p [] topics = ground arith
find_partition-report_offsets id t p (ro ∷ rest) topics =
    let one = adjust ro.topic (adjust_partition ro.partition (report id ro.offset)) topics in
    find_partition-report_offsets id t p rest one
    ∙ ground (arith, find_partition-adjust t ro.topic p ro.partition (report id ro.offset) topics)

leader_id-report_to :
    (id : ℕ) (t : Text) (p : ℕ) (ros : List ReplicaOffset) (ps : PartitionState)
    → (report_to id t p ros ps).leader_id ≡ ps.leader_id
leader_id-report_to id t p [] ps = refl
leader_id-report_to id t p (ro ∷ rest) ps = leader_id-report_to id t p rest _ ∙ ground arith

replica_ids-report_to :
    (id : ℕ) (t : Text) (p : ℕ) (ros : List ReplicaOffset) (ps : PartitionState)
    → (report_to id t p ros ps).replica_ids ≡ ps.replica_ids
replica_ids-report_to id t p [] ps = refl
replica_ids-report_to id t p (ro ∷ rest) ps = replica_ids-report_to id t p rest _ ∙ ground arith

offset_of-insert :
    (m : Map ℕ ℤ) (id j : ℕ) (v : ℤ)
    → offset_of (insert id v m) j ≡ (if j == id then v else offset_of m j)
unfolding offset_of
offset_of-insert m id j v = ground (arith, lookup-insert id j v m)

offset_of-told :
    (c : Bool) (id j : ℕ) (v : ℤ) (ps : PartitionState)
    → offset_of (made (if c then report id v ps else ps).replica_offsets) j ≡ (
        if j == id
        then (if c then v else offset_of (made ps.replica_offsets) id)
        else offset_of (made ps.replica_offsets) j)
offset_of-told true id j v ps = offset_of-insert (made ps.replica_offsets) id j v
offset_of-told false id j v ps =
    ground (arith, nat_beq_iff j id, ap (offset_of (made ps.replica_offsets)) {x = j} {y = id})

-- The first report, then the rest.
join_reports :
    (rest : ℤ → ℤ) (id j : ℕ) (old told : ℕ → ℤ) (v : ℤ)
    → told id ≡ v
    → told j ≡ (if j == id then v else old j)
    → (if j == id then rest (told id) else told j) ≡ (if j == id then rest v else old j)
join_reports rest id j old told v e h = ground (arith, ap rest e)

offset_of-report_to :
    (id : ℕ) (t : Text) (p j : ℕ) (ros : List ReplicaOffset) (ps : PartitionState)
    → offset_of (made (report_to id t p ros ps).replica_offsets) j ≡ (
        if j == id
        then latest t p ros (offset_of (made ps.replica_offsets) id)
        else offset_of (made ps.replica_offsets) j)
offset_of-report_to id t p j [] ps =
    ground (arith, nat_beq_iff j id, ap (offset_of (made ps.replica_offsets)))
offset_of-report_to id t p j (ro ∷ rest) ps =
    let c : Bool = t == ro.topic && p == ro.partition in
    offset_of-report_to id t p j rest (if c then report id ro.offset ps else ps)
    ∙ join_reports (latest t p rest) id j (offset_of (made ps.replica_offsets))
        (offset_of (made (if c then report id ro.offset ps else ps).replica_offsets))
        (if c then ro.offset else offset_of (made ps.replica_offsets) id)
        (offset_of-told c id id ro.offset ps ∙ rw (beq_refl id) refl)
        (offset_of-told c id j ro.offset ps)

module _ (env : Env) (payload : HeartbeatPayload) (s : ClusterState) where
  -- A heartbeat marks its broker as active and seen now, if the broker is registered, and leaves the
  -- other brokers as they are.
  pub broker_heartbeat-brokers :
      (j : ℕ)
      → lookup j (broker_heartbeat env payload s).brokers ≡ (
          if j == payload.id
          then Option.map (seen env.now) (lookup j s.brokers)
          else lookup j s.brokers)
  unfolding broker_heartbeat update_isr_and_hw
  broker_heartbeat-brokers j = lookup-adjust payload.id j (seen env.now) s.brokers

  -- After a heartbeat every partition that was there is there, with the same leader and replicas.
  -- The offset that it keeps for the broker is the last one reported for it, or the one before if
  -- none is, and the offsets that it keeps for the other brokers are those of before.
  pub broker_heartbeat-offsets :
      (t : Text) (p : ℕ) (ps : PartitionState)
      → find_partition t p s.topics ≡ some ps
      → (qs : PartitionState) × (find_partition t p (broker_heartbeat env payload s).topics
          ≡ some qs)
        × (qs.leader_id ≡ ps.leader_id)
        × (qs.replica_ids ≡ ps.replica_ids)
        × ((j : ℕ)
            → offset_of (made qs.replica_offsets) j ≡ (
                if j == payload.id
                then latest t p payload.replica_offsets
                    (offset_of (made ps.replica_offsets) payload.id)
                else offset_of (made ps.replica_offsets) j))
  unfolding broker_heartbeat update_isr_and_hw refresh_partition
  broker_heartbeat-offsets t p ps h =
      let ros : List ReplicaOffset = payload.replica_offsets in
      let brokers : Map ℕ BrokerStatus = adjust payload.id (seen env.now) s.brokers in
      let told : PartitionState = report_to payload.id t p ros ps in
      (
        refresh_partition env.later brokers told,
        find_partition-each (refresh_partition env.later brokers) t p
              (report_offsets payload.id ros s.topics)
            ∙ ap (Option.map (refresh_partition env.later brokers)) (
                find_partition-report_offsets payload.id t p ros s.topics
                ∙ ap (Option.map (report_to payload.id t p ros)) h),
        leader_id-report_to payload.id t p ros ps,
        replica_ids-report_to payload.id t p ros ps,
        λ j. offset_of-report_to payload.id t p j ros ps,
      )
