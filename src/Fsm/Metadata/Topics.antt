-- ===== src/Fsm/Metadata/Topics.antt =====
-- The copy of the topics holds a name once, and each topic under its name.
use mathlib.Core.Path.{subst}
use mathlib.Core.Option
use aero_mq.Prelude.{
  Bool, true, false, none, some, List, [], ◌∷◌, Text, nat_key, text_key, ◌≡◌, refl, sym, ◌∙◌,
  if◌then◌else◌, arith, Distinct, contains,
}
use aero_mq.Prelude.Map.{Map, lookup, keys, keys-map_entries}
use aero_mq.Prelude.Entries.{IsMap, map-eq-some}
use aero_mq.Fsm.State.{TopicState}
use aero_mq.Fsm.WellFormed.{IsTopic}
use aero_mq.Fsm.Metadata.{copy_partition, copy_topics, copy_topic, is_left_out}
use aero_mq.Fsm.Metadata.Copy.{lookup-copy_topics}

contains-copy_topics :
    (wanted : List Text) (k : Text) (m : Map Text TopicState)
    → contains k (keys m) ≡ false
    → contains k (keys (copy_topics wanted m)) ≡ false
unfolding copy_topics
contains-copy_topics wanted k [] h = refl
contains-copy_topics wanted k ((j, t) ∷ m) h = ground (arith, h, contains-copy_topics wanted k m)

copy_topics-Distinct :
    (wanted : List Text) (m : Map Text TopicState)
    → Distinct (keys m)
    → Distinct (keys (copy_topics wanted m))
unfolding copy_topics
copy_topics-Distinct wanted [] d = tt
copy_topics-Distinct wanted ((j, t) ∷ m) d =
    ground (arith, d, copy_topics-Distinct wanted m d.1, contains-copy_topics wanted j m d.0)

copy_topic-IsTopic : (k : Text) (t : TopicState) → IsTopic k t → IsTopic k (copy_topic t)
unfolding copy_topic
copy_topic-IsTopic k t h = (h.0, rw (keys-map_entries (λ _ q. copy_partition q) t.partitions) h.1)

copied-IsTopic :
    (k : Text) (t : TopicState) (m : Map Text TopicState)
    → IsMap IsTopic m
    → (b : Bool) → (if b then none else Option.map copy_topic (lookup k m)) ≡ some t
    → IsTopic k t
copied-IsTopic k t m w true h = cc
copied-IsTopic k t m w false h =
    let r = map-eq-some copy_topic (lookup k m) h in
    subst (IsTopic k) r.2 (copy_topic-IsTopic k r.0 (w.each k r.0 r.1))

pub copy_topics-IsMap :
    (wanted : List Text) (m : Map Text TopicState)
    → IsMap IsTopic m
    → IsMap IsTopic (copy_topics wanted m)
copy_topics-IsMap wanted m w = record {
  distinct = copy_topics-Distinct wanted m w.distinct;
  each = λ k t h.
      copied-IsTopic k t m w (is_left_out wanted k) (sym (lookup-copy_topics wanted k m) ∙ h);
}
