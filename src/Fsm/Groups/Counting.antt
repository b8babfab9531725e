-- ===== src/Fsm/Groups/Counting.antt =====
-- How often a pair of a topic and a partition is assigned.
use aero_mq.Prelude.{
  ℕ, ◌≡◌, ◌≢◌, refl, ap, ◌∙◌, true, false, ◌&&◌, List, [], ◌∷◌, ◌++◌, Text, nat_key, text_key,
  text_beq_iff, nat_beq_iff, contains, Distinct, arith, ◌==◌, if◌then◌else◌, ◌+◌, ◌%◌, length,
  contains-get_or,
}
use aero_mq.Prelude.Map.{Map, keys, lookup-insert}
use aero_mq.Prelude.Arranged.{lookup_absent, keys-arrange, contains-arrange, arrange-Distinct}
use native.Mathlib.Nat.{mod-lt}
use aero_mq.Prelude.Range.{Order, arrange}
use aero_mq.Fsm.State.{PartitionTopic, TopicState}
use aero_mq.Fsm.Groups.{slice, push, owner, assign_topic}

-- How often a list of assignments names partition `p` of topic `t`.
abbrev pub times : Text → ℕ → List PartitionTopic → ℕ
times t p [] = 0
times t p (x ∷ xs) = (if t == x.topic && p == x.partition then 1 else 0) + times t p xs

-- How often a number occurs in a list.
abbrev pub occurs : ℕ → List ℕ → ℕ
occurs p [] = 0
occurs p (q ∷ qs) = (if p == q then 1 else 0) + occurs p qs

times-append :
    (t : Text) (p : ℕ) (xs ys : List PartitionTopic)
    → times t p (xs ++ ys) ≡ times t p xs + times t p ys
times-append t p [] ys = omega arith
times-append t p (x ∷ xs) ys = omega (arith, times-append t p xs ys)

times-push :
    (t a k : Text) (p : ℕ) (x : PartitionTopic) (m : Map Text (List PartitionTopic))
    → times t p (slice a (push k x m))
      ≡ times t p (slice a m) + (if a == k && (t == x.topic && p == x.partition) then 1 else 0)
times-push t a k p x m = ground (
  arith,
  lookup-insert k a (slice k m ++ x ∷ []) m,
  times-append t p (slice k m) (x ∷ []),
  text_beq_iff a k,
)

pub times-assign_topic :
    (t a topic : Text) (members : List Text) (p : ℕ) (ps : List ℕ)
    (m : Map Text (List PartitionTopic))
    → times t p (slice a (assign_topic topic members ps m))
      ≡ times t p (slice a m) + (if t == topic && a == owner members p then occurs p ps else 0)
unfolding assign_topic
times-assign_topic t a topic members p [] m = ground arith
times-assign_topic t a topic members p (q ∷ ps) m =
    let x : PartitionTopic = record { topic = topic; partition = q } in
    ground (
      arith,
      times-assign_topic t a topic members p ps (push (owner members q) x m),
      times-push t a (owner members q) p x m,
      nat_beq_iff p q,
      ap (owner members),
    )

occurs-contains :
    (p : ℕ) (qs : List ℕ) → Distinct qs → occurs p qs ≡ (if contains p qs then 1 else 0)
occurs-contains p [] d = refl
occurs-contains p (q ∷ qs) d =
    ground (arith, occurs-contains p qs d.1, nat_beq_iff p q, ap (λ x. contains x qs))

pub absent_slice :
    (t : Text) (m : Map Text (List Text)) → contains t (keys m) ≡ false → slice t m ≡ []
absent_slice t m h = ground (arith, lookup_absent t m h)

pub owner_mem :
    (member : Text) (rest : List Text) (p : ℕ)
    → contains (owner (member ∷ rest) p) (member ∷ rest) ≡ true
owner_mem member rest p =
    contains-get_or (member ∷ rest) (p % length (member ∷ rest)) [] (mod-lt p (omega arith))

pub owner_of :
    (p : ℕ) (members : List Text) → members ≢ [] → contains (owner members p) members ≡ true
owner_of p [] h = absurd (h refl)
owner_of p (member ∷ rest) h = owner_mem member rest p

occurs-absent : (p : ℕ) (qs : List ℕ) → contains p qs ≡ false → occurs p qs ≡ 0
occurs-absent p [] h = refl
occurs-absent p (q ∷ qs) h = ground (arith, occurs-absent p qs)

contains-visited :
    (p : ℕ) (topic : TopicState) (o : Order)
    → contains p (keys (arrange o topic.partitions)) ≡ contains p (keys topic.partitions)
contains-visited p topic o =
    ap (contains p) (keys-arrange o topic.partitions) ∙ contains-arrange p o (keys topic.partitions)

pub occurs-ne-zero :
    (p : ℕ) (topic : TopicState) (o : Order)
    → occurs p (keys (arrange o topic.partitions)) ≢ 0
    → contains p (keys topic.partitions) ≡ true
occurs-ne-zero p topic o h =
    ground (arith, contains-visited p topic o, occurs-absent p (keys (arrange o topic.partitions)))

pub occurs_visited :
    (p : ℕ) (topic : TopicState) (o : Order)
    → Distinct (keys topic.partitions)
    → occurs p (keys (arrange o topic.partitions))
      ≡ (if contains p (keys topic.partitions) then 1 else 0)
occurs_visited p topic o d = ground (
  arith,
  contains-visited p topic o,
  occurs-contains p (keys (arrange o topic.partitions))
      (rw (keys-arrange o topic.partitions) (arrange-Distinct o (keys topic.partitions) d)),
)
