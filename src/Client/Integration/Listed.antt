-- ===== src/Client/Integration/Listed.antt =====
-- The loops over a metadata answer, on the controller's answer about a well-formed state.
use mathlib.Core.Path.{subst}
use mathlib.Core.Option
use aero_mq.Prelude.{
  ℕ, Bool-cases, inl, inr, false, Option, none, some, [], ◌∷◌, Text, nat_key, text_key, Key, ◌==◌,
  ◌≡◌, refl, ap, ◌∙◌, if◌then◌else◌, arith, Distinct, contains, List,
}
use aero_mq.Prelude.Map.{Map, lookup, keys, map_entries}
use aero_mq.Prelude.Range.{arrange}
use aero_mq.Prelude.Arranged.{lookup-arrange, arrange-Distinct, keys-arrange, lookup_absent}
use aero_mq.Prelude.Entries.{IsMap, arrange-IsMap}
use aero_mq.Fsm.State.{PartitionState, TopicState, ClusterState, made}
use aero_mq.Fsm.State.Lookup.{find_in, find_partition}
use aero_mq.Fsm.WellFormed.{IsTopic, IsWellFormed}
use aero_mq.Fsm.Metadata.{get_metadata, is_left_out}
use aero_mq.Fsm.Metadata.Copy.{get_metadata-copies, with_made}
use aero_mq.Fsm.Metadata.Topics.{copy_topics-IsMap}
use aero_mq.Server.Messages.{PartitionMetadata}
use aero_mq.Server.Listing.{Orders, list_partitions, list_topics}
use aero_mq.Client.Leader.Found.{wanted_topic}
use aero_mq.Client.Integration.Answers.{over_partitions, over_topics}

-- A partition as the controller lists it.
abbrev pub listed : ℕ → PartitionState → PartitionMetadata
listed p ps = record {
  partition_id = p;
  leader_id = ps.leader_id;
  replica_ids = ps.replica_ids;
  isr = ps.isr;
  high_watermark = ps.high_watermark;
  replica_offsets = map_entries (λ _ v. v) (made ps.replica_offsets);
}

-- A loop over a map that makes its round for one key only, once where the keys are distinct.
module _ {K V A : Type 0} ⦃e : Key K⦄ (round : K → A → V → A) where
  abbrev pub visited : K → A → Option V → A
  visited k a none = a
  visited k a (some v) = round k a v

  visited-head :
      (p : K) (a : A) (v : V) (m : Map K V)
      → contains p (keys m) ≡ false
      → visited p (if p == p then round p a v else a) (lookup p m)
        ≡ visited p a (lookup p ((p, v) ∷ m))
  visited-head p a v m d = rw ((e.same_iff p p).1 refl, lookup_absent p m d) refl

  pub visited-cons :
      (p k : K) (a : A) (v : V) (m : Map K V)
      → contains k (keys m) ≡ false
      → visited p (if k == p then round k a v else a) (lookup p m)
        ≡ visited p a (lookup p ((k, v) ∷ m))
  visited-cons p k a v m d = elim (Bool-cases (k == p)) [
    | inl y ↦
        subst
          (λ x.
            visited x (if k == x then round k a v else a) (lookup x m)
            ≡ visited x a (lookup x ((k, v) ∷ m)))
          ((e.same_iff k p).0 y) (visited-head k a v m d)
    | inr n ↦ rw n (ground (arith, n, e.same_iff k p, e.same_iff p k))
  ]

module _ {A : Type 0} (step : A → PartitionMetadata → A) where
  -- A round for the partition, if it is there.
  abbrev pub stepped : ℕ → A → Option PartitionState → A
  stepped = visited (λ k a ps. step a (listed k ps))

  over_partitions-nil : (p : ℕ) (a : A) → over_partitions step p a (list_partitions []) ≡ a
  unfolding over_partitions list_partitions
  over_partitions-nil p a = refl

  over_partitions-cons :
      (p k : ℕ) (a : A) (ps : PartitionState) (m : Map ℕ PartitionState)
      → over_partitions step p a (list_partitions ((k, ps) ∷ m))
        ≡ over_partitions step p (if k == p then step a (listed k ps) else a) (list_partitions m)
  unfolding over_partitions list_partitions
  over_partitions-cons p k a ps m = refl

  over_partitions-list_partitions :
      (p : ℕ) (a : A) (m : Map ℕ PartitionState)
      → Distinct (keys m)
      → over_partitions step p a (list_partitions m) ≡ stepped p a (lookup p m)
  over_partitions-list_partitions p a [] d = over_partitions-nil p a
  over_partitions-list_partitions p a ((k, ps) ∷ m) d =
      over_partitions-cons p k a ps m
      ∙ over_partitions-list_partitions p (if k == p then step a (listed k ps) else a) m d.1
      ∙ visited-cons (λ j b q. step b (listed j q)) p k a ps m d.0

  over_topics-nil :
      (o : Orders) (topic : Text) (p : ℕ) (a : A)
      → over_topics step topic p a (list_topics o []) ≡ a
  unfolding over_topics list_topics
  over_topics-nil o topic p a = refl

  over_topics-cons :
      (o : Orders) (topic k : Text) (p : ℕ) (a : A) (t : TopicState) (m : Map Text TopicState)
      → over_topics step topic p a (list_topics o ((k, t) ∷ m))
        ≡ over_topics step topic p
            (if k == topic
              then over_partitions step p a
                  (list_partitions (arrange (o.partition_orders k) t.partitions))
              else a)
            (list_topics o m)
  unfolding over_topics list_topics
  over_topics-cons o topic k p a t m = refl

  -- The round of a topic.
  abbrev topic_round : Orders → ℕ → Text → A → TopicState → A
  topic_round o p k a t =
      over_partitions step p a (list_partitions (arrange (o.partition_orders k) t.partitions))

  over_topics-visited :
      (o : Orders) (topic : Text) (p : ℕ) (a : A) (m : Map Text TopicState)
      → Distinct (keys m)
      → over_topics step topic p a (list_topics o m)
        ≡ visited (topic_round o p) topic a (lookup topic m)
  over_topics-visited o topic p a [] d = over_topics-nil o topic p a
  over_topics-visited o topic p a ((k, t) ∷ m) d =
      over_topics-cons o topic k p a t m
      ∙ over_topics-visited o topic p (if k == topic then topic_round o p k a t else a) m d.1
      ∙ visited-cons (topic_round o p) topic k a t m d.0

  visited-stepped :
      (o : Orders) (topic : Text) (p : ℕ) (a : A) (q : Option TopicState)
      → ((t : TopicState) → q ≡ some t → Distinct (keys t.partitions))
      → visited (topic_round o p) topic a q ≡ stepped p a (find_in p q)
  visited-stepped o topic p a none d = refl
  visited-stepped o topic p a (some t) d =
      over_partitions-list_partitions p a (arrange (o.partition_orders topic) t.partitions) (
        rw (keys-arrange (o.partition_orders topic) t.partitions)
          (arrange-Distinct (o.partition_orders topic) (keys t.partitions) (d t refl)))
      ∙ ap (stepped p a) (lookup-arrange p (o.partition_orders topic) t.partitions (d t refl))

  over_topics-list_topics :
      (o : Orders) (topic : Text) (p : ℕ) (a : A) (m : Map Text TopicState)
      → IsMap IsTopic m
      → over_topics step topic p a (list_topics o m) ≡ stepped p a (find_partition topic p m)
  over_topics-list_topics o topic p a m w =
      over_topics-visited o topic p a m w.distinct
      ∙ visited-stepped o topic p a (lookup topic m) (λ t h. (w.each topic t h).1)

  -- On the answer to a request, the two loops make one round for the partition of the state, and none
  -- where it is not there or its topic is left out.
  pub over_topics-asked :
      (o : Orders) (s : ClusterState) (wanted : List Text) (topic : Text) (p : ℕ) (a : A)
      → IsWellFormed s
      → over_topics step topic p a
          (list_topics o (arrange o.topic_order (get_metadata wanted s).topics))
        ≡ stepped p a (
            if is_left_out wanted topic
            then none
            else Option.map with_made (find_partition topic p s.topics))
  unfolding get_metadata
  over_topics-asked o s wanted topic p a w =
      let copied = copy_topics-IsMap wanted s.topics w.topics in
      over_topics-list_topics o topic p a _ (arrange-IsMap o.topic_order _ copied)
      ∙ ap (λ x. stepped p a (find_in p x)) (lookup-arrange topic o.topic_order _ copied.distinct)
      ∙ ap (stepped p a) ((get_metadata-copies wanted s).3 topic p)

  pub over_topics-get_metadata :
      (o : Orders) (s : ClusterState) (topic : Text) (p : ℕ) (a : A)
      → IsWellFormed s
      → over_topics step topic p a
          (list_topics o (arrange o.topic_order (get_metadata (topic ∷ []) s).topics))
        ≡ stepped p a (Option.map with_made (find_partition topic p s.topics))
  over_topics-get_metadata o s topic p a w =
      over_topics-asked o s (topic ∷ []) topic p a w
      ∙ ap (stepped p a) (rw (wanted_topic topic) refl)
