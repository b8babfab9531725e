-- ===== src/Client/Leader/Listed.antt =====
-- The client's two searches, on the lists that the server makes of a state.
use mathlib.Core.Path.{subst}
use mathlib.Core.Option
use aero_mq.Prelude.{
  ℕ, Bool-cases, inl, inr, true, false, Option, none, some, List, [], ◌∷◌, Text, nat_key, text_key,
  ◌==◌, ◌≡◌, refl, sym, ap, ◌∙◌, if◌then◌else◌, arith, nat_beq_iff, text_beq_iff, Distinct,
  contains, some_inj,
}
use aero_mq.Prelude.Map.{Map, lookup, keys}
use aero_mq.Prelude.Range.{arrange}
use aero_mq.Prelude.Arranged.{lookup-arrange, lookup_absent}
use aero_mq.Fsm.Failover.{is_active}
use aero_mq.Prelude.Entries.{IsMap, tail-IsMap}
use aero_mq.Fsm.State.{BrokerStatus, PartitionState, TopicState}
use aero_mq.Fsm.State.Lookup.{find_partition}
use aero_mq.Fsm.WellFormed.{IsBroker, IsTopic}
use aero_mq.Server.Messages.{BrokerInfo}
use aero_mq.Server.Listing.{Orders, list_brokers, list_partitions, list_topics}
use aero_mq.Client.Leader.{find_leader_in, find_leader, find_broker}

abbrev pub info_of : BrokerStatus → BrokerInfo
info_of b = record { broker_id = b.id; host = b.host; port = b.port }

find_broker-skip :
    (id : ℕ) (c : BrokerStatus) (rest : List BrokerInfo)
    → (c.id == id) ≡ false
    → find_broker id (if c.active then info_of c ∷ rest else rest) ≡ find_broker id rest
unfolding find_broker
find_broker-skip id c rest n = elim (Bool-cases c.active) [
  | inl y ↦ rw (y, n) refl
  | inr y ↦ rw y refl
]

find_broker-head :
    (id : ℕ) (c : BrokerStatus) (rest : List BrokerInfo)
    → (c.id == id) ≡ true
    → c.active ≡ true
    → find_broker id (if c.active then info_of c ∷ rest else rest) ≡ some (info_of c)
unfolding find_broker
find_broker-head id c rest y a = rw (a, y) refl

pub find_broker-list_brokers :
    (id : ℕ) (m : Map ℕ BrokerStatus) (b : BrokerStatus)
    → IsMap IsBroker m
    → lookup id m ≡ some b
    → b.active ≡ true
    → find_broker id (list_brokers m) ≡ some (info_of b)
unfolding find_broker list_brokers
find_broker-list_brokers id [] b w h a = absurd (ground (arith, h))
find_broker-list_brokers id ((k, c) ∷ m) b w h a =
    let named : c.id ≡ k = w.each k c (ground (arith, nat_beq_iff k k)) in
    elim (Bool-cases (id == k)) [
      | inl y ↦
          let same : c ≡ b = some_inj (ground (arith, y, h)) in
          find_broker-head id c (list_brokers m)
            (rw named (ground (arith, y, nat_beq_iff id k, nat_beq_iff k id)))
            (ap (λ x. x.active) same ∙ a)
          ∙ ap (λ x. some (info_of x)) same
      | inr n ↦
          find_broker-skip id c (list_brokers m)
            (rw named (ground (arith, n, nat_beq_iff id k, nat_beq_iff k id)))
          ∙ find_broker-list_brokers id m b (tail-IsMap k c m w) (ground (arith, n, h)) a
    ]

find_broker-cons :
    (id k : ℕ) (c : BrokerStatus) (m : Map ℕ BrokerStatus)
    → find_broker id (list_brokers ((k, c) ∷ m))
      ≡ find_broker id (if c.active then info_of c ∷ list_brokers m else list_brokers m)
unfolding list_brokers
find_broker-cons id k c m = refl

find_broker-nil : (id : ℕ) → find_broker id (list_brokers []) ≡ none
unfolding find_broker list_brokers
find_broker-nil id = refl

-- A broker that is not active is not listed.
pub find_broker-inactive :
    (id : ℕ) (m : Map ℕ BrokerStatus)
    → IsMap IsBroker m
    → is_active m id ≡ false
    → find_broker id (list_brokers m) ≡ none
unfolding is_active
find_broker-inactive id [] w h = find_broker-nil id
find_broker-inactive id ((k, c) ∷ m) w h =
    let named : c.id ≡ k = w.each k c (ground (arith, nat_beq_iff k k)) in
    elim (Bool-cases (id == k)) [
      | inl y ↦
          let gone : lookup id m ≡ none =
            rw ((nat_beq_iff id k).0 y) (lookup_absent k m w.distinct.0) in
          let off : c.active ≡ false = ground (arith, y, h) in
          find_broker-cons id k c m
          ∙ rw off (find_broker-inactive id m (tail-IsMap k c m w) (rw (gone, is_active) refl))
      | inr n ↦
          find_broker-cons id k c m
          ∙ find_broker-skip id c (list_brokers m)
              (rw named (ground (arith, n, nat_beq_iff id k, nat_beq_iff k id)))
          ∙ find_broker-inactive id m (tail-IsMap k c m w) (ground (arith, n, h))
    ]

find_leader_in-list_partitions :
    (p : ℕ) (m : Map ℕ PartitionState)
    → find_leader_in p (list_partitions m) ≡ Option.map (λ ps. ps.leader_id) (lookup p m)
unfolding find_leader_in list_partitions
find_leader_in-list_partitions p [] = refl
find_leader_in-list_partitions p ((k, ps) ∷ m) =
    ground (arith, nat_beq_iff p k, nat_beq_iff k p, find_leader_in-list_partitions p m)

-- What the loop over the topics has found at its end, with what it had found before.
abbrev pub or_leader : Option ℕ → Option PartitionState → Option ℕ
or_leader found none = found
or_leader found (some ps) = some ps.leader_id

find_leader-empty :
    (o : Orders) (topic : Text) (p : ℕ) (found : Option ℕ)
    → find_leader topic p found (list_topics o []) ≡ found
unfolding find_leader list_topics
find_leader-empty o topic p found = refl

find_leader-skip :
    (o : Orders) (topic k : Text) (p : ℕ) (found : Option ℕ) (t : TopicState)
    (m : Map Text TopicState)
    → (k == topic) ≡ false
    → find_leader topic p found (list_topics o ((k, t) ∷ m))
      ≡ find_leader topic p found (list_topics o m)
unfolding find_leader list_topics
find_leader-skip o topic k p found t m n = rw (n, find_leader) refl

find_leader-absent :
    (o : Orders) (topic : Text) (p : ℕ) (found : Option ℕ) (m : Map Text TopicState)
    → contains topic (keys m) ≡ false
    → find_leader topic p found (list_topics o m) ≡ found
find_leader-absent o topic p found [] h = find_leader-empty o topic p found
find_leader-absent o topic p found ((k, t) ∷ m) h =
    find_leader-skip o topic k p found t m
      (ground (arith, h, text_beq_iff k topic, text_beq_iff topic k))
    ∙ find_leader-absent o topic p found m (ground (arith, h))

or_leader-map :
    (found : Option ℕ) (q : Option PartitionState)
    → (elim (Option.map (λ ps. ps.leader_id) q) [ none ↦ found | some leader ↦ some leader ])
      ≡ or_leader found q
or_leader-map found none = refl
or_leader-map found (some ps) = refl

round_value :
    (o : Orders) (topic : Text) (p : ℕ) (found : Option ℕ) (t : TopicState)
    → Distinct (keys t.partitions)
    → (if topic == topic
        then (elim (find_leader_in p
            (list_partitions (arrange (o.partition_orders topic) t.partitions))) [
              | none ↦ found
              | some leader ↦ some leader
            ])
        else found)
      ≡ or_leader found (lookup p t.partitions)
round_value o topic p found t d =
    rw
      (
        (text_beq_iff topic topic).1 refl,
        find_leader_in-list_partitions p (arrange (o.partition_orders topic) t.partitions),
        lookup-arrange p (o.partition_orders topic) t.partitions d,
      )
      (or_leader-map found (lookup p t.partitions))

-- The round of the topic itself.
find_leader-round :
    (o : Orders) (topic : Text) (p : ℕ) (found : Option ℕ) (t : TopicState)
    (m : Map Text TopicState)
    → Distinct (keys t.partitions)
    → find_leader topic p found (list_topics o ((topic, t) ∷ m))
      ≡ find_leader topic p (or_leader found (lookup p t.partitions)) (list_topics o m)
unfolding find_leader list_topics
find_leader-round o topic p found t m d =
    ap (λ v. find_leader topic p v (list_topics o m)) (round_value o topic p found t d)

find_partition-cons :
    (topic k : Text) (p : ℕ) (t : TopicState) (m : Map Text TopicState)
    → (k == topic) ≡ false
    → find_partition topic p ((k, t) ∷ m) ≡ find_partition topic p m
find_partition-cons topic k p t m n = ground (arith, n, text_beq_iff k topic, text_beq_iff topic k)

find_partition-head :
    (topic : Text) (p : ℕ) (t : TopicState) (m : Map Text TopicState)
    → find_partition topic p ((topic, t) ∷ m) ≡ lookup p t.partitions
find_partition-head topic p t m = rw ((text_beq_iff topic topic).1 refl) refl

lookup-head : (k : Text) (t : TopicState) (m : Map Text TopicState) → lookup k ((k, t) ∷ m) ≡ some t
lookup-head k t m = rw ((text_beq_iff k k).1 refl) refl

pub find_leader-list_topics :
    (o : Orders) (topic : Text) (p : ℕ) (found : Option ℕ) (m : Map Text TopicState)
    → IsMap IsTopic m
    → find_leader topic p found (list_topics o m) ≡ or_leader found (find_partition topic p m)
find_leader-list_topics o topic p found [] w = find_leader-empty o topic p found
find_leader-list_topics o topic p found ((k, t) ∷ m) w = elim (Bool-cases (k == topic)) [
  | inl y ↦
      subst
        (λ x.
          find_leader x p found (list_topics o ((k, t) ∷ m))
          ≡ or_leader found (find_partition x p ((k, t) ∷ m)))
        ((text_beq_iff k topic).0 y)
        (find_leader-round o k p found t m (w.each k t (lookup-head k t m)).1
          ∙ find_leader-absent o k p (or_leader found (lookup p t.partitions)) m w.distinct.0
          ∙ ap (or_leader found) (sym (find_partition-head k p t m)))
  | inr n ↦
      find_leader-skip o topic k p found t m n
      ∙ find_leader-list_topics o topic p found m (tail-IsMap k t m w)
      ∙ ap (or_leader found) (sym (find_partition-cons topic k p t m n))
]
