-- ===== src/Fsm/Failover/Promotion.antt =====
-- A partition with a replica that stays active is led by one of its replicas after a sweep.
use mathlib.Core.Option
use mathlib.Core.Bool.{false≢true}
use aero_mq.Prelude.{
  ℕ, true, false, Bool-cases, Option-cases, inl, inr, ◌≡◌, ◌≢◌, refl, sym, ap, ◌∙◌, some, List, [],
  ◌∷◌, Text, contains, nat_key, nat_beq_iff, arith, ◌==◌, some_inj,
}
use aero_mq.Prelude.Map.{Map, lookup, adjust, keys}
use aero_mq.Prelude.Range.{arrange}
use aero_mq.Fsm.State.{BrokerStatus, PartitionState, ClusterState, Env}
use aero_mq.Fsm.State.Lookup.{find_partition, find_partition-each}
use aero_mq.Fsm.Replication.{update_isr_and_hw, refresh_partition}
use aero_mq.Fsm.Failover.{
  is_active, reelect, reelect_all, handle_broker_failure, get_active_broker_ids, is_expired,
  deactivate, sweep_broker, sweep, clean_inactive,
}
use aero_mq.Fsm.Failover.Leaders.{choose_leader-replica}
use aero_mq.Fsm.Failover.Expiry.{expire, sweep_broker-brokers, clean_inactive-brokers}
use aero_mq.Fsm.Failover.Sweep.{Sound, sweep_broker-Sound, clean_inactive-Sound, deactivated}

module _ (env : Env) (t : Text) (p : ℕ) (rs : List ℕ) (follower : ℕ)
    (listed : contains follower rs ≡ true) (nonzero : contains 0 rs ≡ false) where
  -- The partition has the replicas `rs`, one of which leads it.
  abbrev pub IsHeld : PartitionState → Type 0
  IsHeld ps = (ps.replica_ids ≡ rs) × (contains ps.leader_id rs ≡ true)

  -- A state in which the partition is held, and the follower active with its lease.
  pub record Holds (s : ClusterState) : Type 0 where
    pub held : (ps : PartitionState) × (find_partition t p s.topics ≡ some ps) × IsHeld ps
    pub alive :
        (b : BrokerStatus) × (lookup follower s.brokers ≡ some b)
        × (b.active ≡ true)
        × (is_expired env.now b ≡ false)

  reelect-IsHeld :
      (failed fallback : ℕ) (brokers : Map ℕ BrokerStatus) (ps : PartitionState)
      → follower ≢ failed
      → is_active brokers follower ≡ true
      → IsHeld ps
      → IsHeld (reelect failed brokers fallback ps)
  unfolding reelect
  reelect-IsHeld failed fallback brokers ps d a (e, h) =
      elim (Bool-cases (ps.leader_id == failed)) [
        | inl y ↦
            rw (y, e)
              (
                refl,
                (choose_leader-replica failed fallback follower brokers rs listed a d nonzero).0,
              )
        | inr n ↦ rw n (e, h)
      ]

  reelect_all-IsHeld :
      (failed : ℕ) (ids : List ℕ) (s : ClusterState)
      → follower ≢ failed
      → is_active s.brokers follower ≡ true
      → (ps : PartitionState) × (find_partition t p s.topics ≡ some ps) × IsHeld ps
      → (ps : PartitionState) × (find_partition t p (reelect_all failed ids s).topics ≡ some ps)
        × IsHeld ps
  unfolding reelect_all
  reelect_all-IsHeld failed [] s d a h = h
  reelect_all-IsHeld failed (k ∷ ks) s d a (ps, e, h) = (
    reelect failed s.brokers k ps,
    find_partition-each (reelect failed s.brokers k) t p s.topics
        ∙ ap (Option.map (reelect failed s.brokers k)) e,
    reelect-IsHeld failed k s.brokers ps d a h,
  )

  is_active-alive : (s : ClusterState) → Holds s → is_active s.brokers follower ≡ true
  unfolding is_active
  is_active-alive s w = let (b, e, a, _) = w.alive in rw (e, is_active) a

  -- An expired broker is not the follower.
  expired-differs :
      (s : ClusterState) (k : ℕ) (b : BrokerStatus)
      → Holds s
      → lookup k s.brokers ≡ some b
      → is_expired env.now b ≡ true
      → follower ≢ k
  expired-differs s k b w e x d =
      let (f, g, _, n) = w.alive in
      let same : some b ≡ some f = sym e ∙ ap (λ j. lookup j s.brokers) (sym d) ∙ g in
      false≢true (sym n ∙ ap (is_expired env.now) (sym (some_inj same)) ∙ x)

  sweep_broker-IsHeld :
      (k : ℕ) (s : ClusterState)
      → Sound s
      → Holds s
      → (ps : PartitionState) × (find_partition t p (sweep_broker env k s).topics ≡ some ps)
        × IsHeld ps
  unfolding sweep_broker handle_broker_failure
  sweep_broker-IsHeld k s v w = elim (Option-cases (lookup k s.brokers)) [
    | inl e ↦ rw (e, sweep_broker) w.held
    | inr (b, e) ↦
        rw (e, sweep_broker)
          (elim (Bool-cases (is_expired env.now b)) [
            | inr x ↦ rw x w.held
            | inl x ↦
                let d = expired-differs s k b w e x in
                rw x (
                  reelect_all-IsHeld b.id
                    (get_active_broker_ids (env.failover_orders b.id)
                      (record s { brokers = adjust k deactivate s.brokers }))
                    (record s { brokers = adjust k deactivate s.brokers })
                    (λ f. d (f ∙ v.keyed k b e))
                    (deactivated k follower s.brokers
                      ∙ ground (arith, is_active-alive s w, nat_beq_iff follower k, d))
                    w.held)
          ])
  ]

  sweep_broker-Holds : (k : ℕ) (s : ClusterState) → Sound s → Holds s → Holds (sweep_broker env k s)
  sweep_broker-Holds k s v w =
      let (b, e, a, n) = w.alive in
      record {
        held = sweep_broker-IsHeld k s v w;
        alive = (b, sweep_broker-brokers env k follower s ∙ ground (arith, e, n), a, n);
      }

  sweep-Holds : (ks : List ℕ) (s : ClusterState) → Sound s → Holds s → Holds (sweep env ks s)
  unfolding sweep
  sweep-Holds [] s v w = w
  sweep-Holds (k ∷ ks) s v w =
      sweep-Holds ks (sweep_broker env k s) (sweep_broker-Sound env k s v)
        (sweep_broker-Holds k s v w)

  pub clean_inactive-Holds : (s : ClusterState) → Sound s → Holds s → Holds (clean_inactive env s)
  unfolding clean_inactive update_isr_and_hw refresh_partition
  clean_inactive-Holds s v w =
      let swept = sweep env (keys (arrange env.sweep_order s.brokers)) s in
      let r = sweep-Holds (keys (arrange env.sweep_order s.brokers)) s v w in
      let (ps, e, h) = r.held in
      record {
        held = (
          refresh_partition env.later swept.brokers ps,
          find_partition-each (refresh_partition env.later swept.brokers) t p swept.topics
              ∙ ap (Option.map (refresh_partition env.later swept.brokers)) e,
          h,
        );
        alive = r.alive;
      }

active-after :
    (brokers : Map ℕ BrokerStatus) (k : ℕ) (b : BrokerStatus)
    → lookup k brokers ≡ some b
    → is_active brokers k ≡ b.active
unfolding is_active
active-after brokers k b e = rw (e, is_active) refl

expired-inactive :
    (now : ℕ) (b : BrokerStatus) → is_expired now b ≡ true → (expire now b).active ≡ false
expired-inactive now b x = rw x refl

-- Of two replicas, one that is not active does not lead.
other-of_two :
    (brokers : Map ℕ BrokerStatus) (a b leader : ℕ)
    → contains leader (a ∷ b ∷ []) ≡ true
    → is_active brokers leader ≡ true
    → is_active brokers a ≡ false
    → leader ≡ b
other-of_two brokers a b leader c h n = elim (Bool-cases (leader == a)) [
  | inl y ↦
      absurd (false≢true (sym n ∙ ap (is_active brokers) (sym ((nat_beq_iff leader a).0 y)) ∙ h))
  | inr m ↦ (nat_beq_iff leader b).0 (ground (arith, c, m))
]

-- A partition with two replicas, the leader and one other. If every partition has an active leader
-- before, or no broker is active, and the leader's lease has run out, while the other replica is
-- active with its own, then after `clean_inactive`, whatever the order of the sweep and whichever
-- other brokers it marks, the other replica leads the partition, and it is still active.
pub clean_inactive-promotes :
    (env : Env) (s : ClusterState) (t : Text) (p : ℕ) (ps : PartitionState) (follower : ℕ)
    (bl bf : BrokerStatus)
    → Sound s
    → find_partition t p s.topics ≡ some ps
    → ps.replica_ids ≡ ps.leader_id ∷ follower ∷ []
    → ps.leader_id ≢ 0
    → follower ≢ 0
    → lookup ps.leader_id s.brokers ≡ some bl
    → is_expired env.now bl ≡ true
    → lookup follower s.brokers ≡ some bf
    → bf.active ≡ true
    → is_expired env.now bf ≡ false
    → (qs : PartitionState) × (find_partition t p (clean_inactive env s).topics ≡ some qs)
      × (qs.leader_id ≡ follower)
      × (lookup follower (clean_inactive env s).brokers ≡ some bf)
clean_inactive-promotes env s t p ps follower bl bf v found two lz fz led x kept active fresh =
    let rs = ps.leader_id ∷ follower ∷ [] in
    let r =
      clean_inactive-Holds env t p rs follower (ground (arith, nat_beq_iff follower follower))
        (ground (arith, nat_beq_iff 0 ps.leader_id, nat_beq_iff 0 follower, lz, fz)) s v
        (record {
          held = (ps, found, (two, ground (arith, nat_beq_iff ps.leader_id ps.leader_id)));
          alive = (bf, kept, active, fresh);
        }) in
    let (qs, e, (same, mem)) = r.held in
    let after = clean_inactive-brokers env follower s ∙ ground (arith, kept, fresh) in
    let dead =
      active-after (clean_inactive env s).brokers ps.leader_id (expire env.now bl)
        (clean_inactive-brokers env ps.leader_id s ∙ ap (Option.map (expire env.now)) led)
      ∙ expired-inactive env.now bl x in
    let up = active-after (clean_inactive env s).brokers follower bf after ∙ active in
    (
      qs,
      e,
      elim (clean_inactive-Sound env s v).led [
        | inl n ↦ absurd (false≢true (sym (n follower) ∙ up))
        | inr l ↦
            other-of_two (clean_inactive env s).brokers ps.leader_id follower qs.leader_id mem
              (l t p qs e) dead
      ],
      after,
    )
