-- ===== src/Client/Answered.antt =====
-- What a reader of the answer of `GetMetadata` finds in it.
use mathlib.Core.Option
use aero_mq.Prelude.{
  ℕ, Bool, Bool-cases, Option-cases, inl, inr, true, false, not, Option, none, some, List, [], ◌∷◌,
  Text, text_key, nat_key, contains, ◌≡◌, refl, ap, ◌∙◌, if◌then◌else◌, arith,
}
use aero_mq.Prelude.Map.{lookup}
use aero_mq.Fsm.State.{BrokerStatus, PartitionState, ClusterState, made}
use aero_mq.Fsm.State.Lookup.{find_partition}
use aero_mq.Fsm.Failover.{is_active}
use aero_mq.Fsm.WellFormed.{IsWellFormed}
use aero_mq.Fsm.Metadata.{is_left_out}
use aero_mq.Fsm.Metadata.Copy.{map_entries_id, with_made}
use aero_mq.Consensus.{Raft}
use aero_mq.Server.Messages.{PartitionMetadata, TopicMetadata, MetadataRequest}
use aero_mq.Server.Listing.{Orders}
use aero_mq.Server.Handlers.{metadata_response, get_metadata_rpc}
use aero_mq.Client.Leader.{find_broker}
use aero_mq.Client.Leader.Found.{listed_broker, inactive_broker}
use aero_mq.Client.Leader.Listed.{info_of}
use aero_mq.Client.Integration.Answers.{over_topics}
use aero_mq.Client.Integration.Listed.{stepped, over_topics-asked}

-- A request asks for the topics that it names, or for all if it names none.
abbrev pub asks_for : List Text → Text → Bool
asks_for [] t = true
asks_for (u ∷ us) t = contains t (u ∷ us)

-- How a partition of the state is told.
abbrev pub described : ℕ → PartitionState → PartitionMetadata
described p ps = record {
  partition_id = p;
  leader_id = ps.leader_id;
  replica_ids = ps.replica_ids;
  isr = ps.isr;
  high_watermark = ps.high_watermark;
  replica_offsets = made ps.replica_offsets;
}

-- The last partition of that topic and number in an answer.
abbrev pub find_listed : Text → ℕ → List TopicMetadata → Option PartitionMetadata
find_listed t p topics = over_topics (λ _ q. some q) t p none topics

left_out : (wanted : List Text) (t : Text) → is_left_out wanted t ≡ not (asks_for wanted t)
unfolding is_left_out
left_out [] t = refl
left_out (u ∷ us) t = ground arith

stepped-described :
    (p : ℕ) (o : Option PartitionState)
    → stepped (λ _ q. some q) p none (Option.map with_made o) ≡ Option.map (described p) o
stepped-described p none = refl
stepped-described p (some ps) =
    ap (λ m. some (record (described p ps) { replica_offsets = m }))
      (map_entries_id (made ps.replica_offsets))

asked_for :
    (b : Bool) (p : ℕ) (o : Option PartitionState)
    → stepped (λ _ q. some q) p none (if not b then none else Option.map with_made o)
      ≡ (if b then Option.map (described p) o else none)
asked_for true p o = stepped-described p o
asked_for false p o = refl

active_broker :
    (s : ClusterState) (id : ℕ)
    → is_active s.brokers id ≡ true
    → (b : BrokerStatus) × (lookup id s.brokers ≡ some b) × (b.active ≡ true)
unfolding is_active
active_broker s id h = elim (Option-cases (lookup id s.brokers)) [
  | inl e ↦ absurd (ground (arith, e, h))
  | inr (b, e) ↦ (b, e, ground (arith, e, h))
]

found_broker :
    (o : Orders) (s : ClusterState) (wanted : List Text) (id : ℕ)
    → IsWellFormed s
    → find_broker id (metadata_response o (record { topics = wanted }) s).brokers
      ≡ (if is_active s.brokers id then Option.map info_of (lookup id s.brokers) else none)
unfolding metadata_response
found_broker o s wanted id w = elim (Bool-cases (is_active s.brokers id)) [
  | inr n ↦ rw n (inactive_broker o s wanted id w n)
  | inl y ↦ let (b, e, a) = active_broker s id y in rw (y, e) (listed_broker o s wanted id b w e a)
]

module _ {World : Type 0} (raft : Raft World) where
  -- In the answer of `GetMetadata` on a well-formed state, a partition is found exactly if its topic
  -- is asked for and the state has it, with the state's leader, replicas, in-sync replicas, high
  -- watermark and reported offsets; and a broker is found exactly if it is active, with the address
  -- that it registered.
  pub get_metadata_rpc-found :
      (o : Orders) (req : MetadataRequest) (w : World) (t : Text) (p id : ℕ)
      → IsWellFormed (raft.state w)
      → let answer = get_metadata_rpc raft o req w in
        (find_listed t p answer.topics ≡ (
          if asks_for req.topics t
          then Option.map (described p) (find_partition t p (raft.state w).topics)
          else none))
        × (find_broker id answer.brokers ≡ (
            if is_active (raft.state w).brokers id
            then Option.map info_of (lookup id (raft.state w).brokers)
            else none))
  unfolding get_metadata_rpc metadata_response
  get_metadata_rpc-found o req w t p id h = (
    over_topics-asked (λ _ q. some q) o (raft.state w) req.topics t p none h
        ∙ ap
            (λ b.
              stepped (λ _ q. some q) p none
                (if b
                  then none
                  else Option.map with_made (find_partition t p (raft.state w).topics)))
            (left_out req.topics t)
        ∙ asked_for (asks_for req.topics t) p (find_partition t p (raft.state w).topics),
    found_broker o (raft.state w) req.topics id h,
  )
