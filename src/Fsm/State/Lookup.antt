-- ===== src/Fsm/State/Lookup.antt =====
-- Reading one partition out of a cluster state, as `Topics[t].Partitions[p]` does with its checks.
use mathlib.Core.Option
use aero_mq.Prelude.{ℕ, ◌≡◌, refl, sym, Option, none, some, Text, text_key, nat_key, ap, ◌∙◌}
use aero_mq.Prelude.Map.{Map, lookup, lookup-map_entries}
use aero_mq.Fsm.State.{PartitionState, TopicState, over_topic, each_partition}

abbrev pub find_in : ℕ → Option TopicState → Option PartitionState
find_in p none = none
find_in p (some topic) = lookup p topic.partitions

abbrev pub find_partition : Text → ℕ → Map Text TopicState → Option PartitionState
find_partition t p topics = find_in p (lookup t topics)

module _ (f : PartitionState → PartitionState) where
  found-over :
      (p : ℕ) (o : Option TopicState)
      → find_in p (Option.map (over_topic f) o) ≡ Option.map f (find_in p o)
  found-over p none = refl
  found-over p (some topic) = lookup-map_entries (λ _ q. f q) p topic.partitions

  pub find_partition-each :
      (t : Text) (p : ℕ) (topics : Map Text TopicState)
      → find_partition t p (each_partition f topics) ≡ Option.map f (find_partition t p topics)
  find_partition-each t p topics =
      ap (find_in p) (lookup-map_entries (λ _ topic. over_topic f topic) t topics)
      ∙ found-over p (lookup t topics)

  map-eq-some :
      (o : Option PartitionState) {q : PartitionState}
      → Option.map f o ≡ some q
      → (p : PartitionState) × (o ≡ some p) × (f p ≡ q)
  map-eq-some none h = cc
  map-eq-some (some p) h = (p, refl, cc)

  -- A partition that is there after the pass was there before.
  pub find_partition-each_inv :
      (t : Text) (p : ℕ) (topics : Map Text TopicState) {q : PartitionState}
      → find_partition t p (each_partition f topics) ≡ some q
      → (old : PartitionState) × (find_partition t p topics ≡ some old) × (f old ≡ q)
  find_partition-each_inv t p topics h =
      map-eq-some (find_partition t p topics) (sym (find_partition-each t p topics) ∙ h)
