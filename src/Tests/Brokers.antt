-- ===== src/Tests/Brokers.antt =====
-- Tests of Fsm/Brokers.
use aero_mq.Prelude.{ℕ, ◌≡◌, refl, some, [], ◌∷◌, codes, text_key, nat_key, if◌then◌else◌, ◌==◌}
use aero_mq.Prelude.Int.{pos}
use aero_mq.Prelude.Map.{lookup}
use aero_mq.Fsm.State.{PartitionState, made}
use aero_mq.Fsm.State.Lookup.{find_partition}
use aero_mq.Fsm.Replication.{offset_of}
use aero_mq.Fsm.Brokers.{HeartbeatPayload, broker_heartbeat}
use aero_mq.Fsm.Brokers.Liveness.{latest, broker_heartbeat-offsets}
use aero_mq.Fsm.Brokers.Lease.{clean_inactive-broker_heartbeat}
use aero_mq.Fsm.Failover.{clean_inactive}
use aero_mq.Tests.Samples.{seconds, broker, cluster, orders_topic, partition_0, at}

abbrev beat_2 : HeartbeatPayload
beat_2 = record {
  id = 2;
  replica_offsets =
      record { topic = orders_topic; partition = 0; offset = pos 38 }
      ∷ record { topic = codes "gone"; partition = 0; offset = pos 1 }
      ∷ [];
}

-- Broker 1 was last seen at 0 s. With a heartbeat at 7 s it is active at 15 s.
abbrev beat_1 : HeartbeatPayload
beat_1 = record { id = 1; replica_offsets = [] }

clean_inactive-broker_heartbeat_example :
    lookup 1
      (clean_inactive (at (seconds 15)) (broker_heartbeat (at (seconds 7)) beat_1 cluster)).brokers
    ≡ some (broker 1 (seconds 7))
clean_inactive-broker_heartbeat_example =
    clean_inactive-broker_heartbeat (at (seconds 7)) (at (seconds 15)) beat_1 cluster 1

broker_heartbeat-offsets_example :
    (qs : PartitionState) × (find_partition orders_topic 0
        (broker_heartbeat (at (seconds 7)) beat_2 cluster).topics
      ≡ some qs)
    × (qs.leader_id ≡ 1)
    × (qs.replica_ids ≡ 1 ∷ 2 ∷ [])
    × ((j : ℕ)
        → offset_of (made qs.replica_offsets) j ≡ (
            if j == 2
            then latest orders_topic 0 beat_2.replica_offsets
                (offset_of (made partition_0.replica_offsets) 2)
            else offset_of (made partition_0.replica_offsets) j))
broker_heartbeat-offsets_example =
    broker_heartbeat-offsets (at (seconds 7)) beat_2 cluster orders_topic 0 partition_0 refl
