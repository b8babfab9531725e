-- ===== src/Fsm/Groups/Assignment.antt =====
-- Who is assigned which partition after `rebalanceGroup`.
use aero_mq.Prelude.{
  ℕ, ◌≡◌, ◌≢◌, refl, ap, sym, ◌∙◌, beq_refl, true, none, some, List, [], ◌∷◌, Text, nat_key,
  text_key, text_beq_iff, contains, Distinct, arith, ◌==◌, Option, if◌then◌else◌, ◌+◌, Option-cases,
  inl, inr,
}
use aero_mq.Prelude.Map.{Map, lookup, keys}
use aero_mq.Prelude.Arranged.{keys-arrange, arrange-Distinct, lookup-arrange}
use aero_mq.Prelude.Range.{arrange}
use aero_mq.Fsm.State.{PartitionTopic, ConsumerGroupState, TopicState, Env}
use aero_mq.Fsm.Groups.{slice, owner, subscribers, assign_round, assign_all, rebalance_group}
use aero_mq.Fsm.Groups.Subscribers.{subscribed, contains-subscribers_arranged, subscribers-Distinct}
use aero_mq.Fsm.Groups.Counting.{
  times, occurs, times-assign_topic, absent_slice, owner_mem, owner_of, occurs-ne-zero,
  occurs_visited,
}

module _ (env : Env) (topics : Map Text TopicState) (t a : Text) (p : ℕ) where
  -- What one round adds for the topic `t` to the assignments of `a`.
  abbrev load_of : List Text → Option TopicState → ℕ
  load_of members none = 0
  load_of members (some topic) =
      if a == owner members p
      then occurs p (keys (arrange (env.partition_orders t) topic.partitions))
      else 0

  abbrev load : List Text → ℕ
  load [] = 0
  load (member ∷ rest) = load_of (member ∷ rest) (lookup t topics)

  times-assign_round :
      (topic : Text) (members : List Text) (m : Map Text (List PartitionTopic))
      → times t p (slice a (assign_round env topics topic members m))
        ≡ times t p (slice a m) + (if t == topic then load members else 0)
  unfolding assign_round
  times-assign_round topic [] m = ground arith
  times-assign_round topic (member ∷ rest) m = elim (Option-cases (lookup topic topics)) [
    | inl e ↦ ground (arith, e, text_beq_iff t topic, ap (λ x. lookup x topics))
    | inr (tp, e) ↦ ground (
      arith,
      e,
      text_beq_iff t topic,
      ap (λ x. lookup x topics),
      ap env.partition_orders {x = t} {y = topic},
      times-assign_topic t a topic (member ∷ rest) p
          (keys (arrange (env.partition_orders topic) tp.partitions)) m,
    )
  ]

  times-assign_all :
      (entries : Map Text (List Text)) (m : Map Text (List PartitionTopic))
      → Distinct (keys entries)
      → times t p (slice a (assign_all env topics entries m))
        ≡ times t p (slice a m) + load (slice t entries)
  unfolding assign_all
  times-assign_all [] m d = ground arith
  times-assign_all ((topic, members) ∷ rest) m d = ground (
    arith,
    times-assign_all rest (assign_round env topics topic members m) d.1,
    times-assign_round topic members m,
    text_beq_iff t topic,
    absent_slice t rest,
  )

  load-ne-zero :
      (members : List Text)
      → load members ≢ 0
      → (contains a members ≡ true)
        × ((topic : TopicState) × (lookup t topics ≡ some topic)
            × (contains p (keys topic.partitions) ≡ true))
  load-ne-zero [] h = absurd (h refl)
  load-ne-zero (member ∷ rest) h = elim (Option-cases (lookup t topics)) [
    | inl e ↦ absurd (h (ground (arith, e)))
    | inr (topic, e) ↦ (
      ground (arith, e, text_beq_iff a (owner (member ∷ rest) p), owner_mem member rest p),
      (topic, e, ground (arith, e, occurs-ne-zero p topic (env.partition_orders t))),
    )
  ]

  load_one :
      (members : List Text) (topic : TopicState)
      → lookup t topics ≡ some topic
      → Distinct (keys topic.partitions)
      → contains p (keys topic.partitions) ≡ true
      → members ≢ []
      → load members ≡ (if a == owner members p then 1 else 0)
  load_one [] topic e d c ne = absurd (ne refl)
  load_one (member ∷ rest) topic e d c ne =
      ground (arith, e, occurs_visited p topic (env.partition_orders t) d)

-- The members that `rebalanceGroup` collects for a topic, in the order in which it visits them.
abbrev pub members_of : Env → ConsumerGroupState → Text → List Text
members_of env g t = slice t (subscribers (arrange env.member_order g.members) [])

-- How often the group's member `a` is assigned partition `p` of topic `t`.
abbrev pub assigned : ConsumerGroupState → Text → Text → ℕ → ℕ
assigned g a t p = times t p (slice a g.assignments)

module _ (env : Env) (topics : Map Text TopicState) (g : ConsumerGroupState) (t : Text)
    (p : ℕ) where
  assigned-rebalance :
      (a : Text)
      → assigned (rebalance_group env topics g) a t p ≡ load env topics t a p (members_of env g t)
  unfolding rebalance_group
  assigned-rebalance a =
      let ttm : Map Text (List Text) = subscribers (arrange env.member_order g.members) [] in
      let d : Distinct (keys ttm) =
        subscribers-Distinct (arrange env.member_order g.members) [] tt in
      times-assign_all env topics t a p (arrange env.subscription_order ttm) [] (
        rw (keys-arrange env.subscription_order ttm)
          (arrange-Distinct env.subscription_order (keys ttm) d))
      ∙ ground (arith, lookup-arrange t env.subscription_order ttm d)

  -- A partition is assigned only to members that subscribe to its topic, and only if the topic
  -- exists and has that partition.
  pub rebalance_only_subscribed :
      (a : Text)
      → assigned (rebalance_group env topics g) a t p ≢ 0
      → (subscribed g.members t a ≡ true)
        × ((topic : TopicState) × (lookup t topics ≡ some topic)
            × (contains p (keys topic.partitions) ≡ true))
  rebalance_only_subscribed a h =
      let r =
        load-ne-zero env topics t a p (members_of env g t) (λ e. h (assigned-rebalance a ∙ e)) in
      (sym (contains-subscribers_arranged t a env.member_order g.members) ∙ r.0, r.1)

  -- If some member subscribes to a topic, each partition of the topic is assigned exactly once, to
  -- exactly one member, and that member subscribes to the topic. This holds for every order in
  -- which the maps are visited.
  pub rebalance_exactly_one :
      (topic : TopicState) (b : Text)
      → lookup t topics ≡ some topic
      → Distinct (keys topic.partitions)
      → contains p (keys topic.partitions) ≡ true
      → subscribed g.members t b ≡ true
      → (a : Text) × (subscribed g.members t a ≡ true)
        × (assigned (rebalance_group env topics g) a t p ≡ 1)
        × ((c : Text) → c ≢ a → assigned (rebalance_group env topics g) c t p ≡ 0)
  rebalance_exactly_one topic b e d c h =
      let ms : List Text = members_of env g t in
      let mem : contains b ms ≡ true =
        contains-subscribers_arranged t b env.member_order g.members ∙ h in
      let ne : ms ≢ [] = λ n. cc (mem, ap (contains b) n) in
      let share : (x : Text)
          → assigned (rebalance_group env topics g) x t p ≡ (if x == owner ms p then 1 else 0) =
        λ x. assigned-rebalance x ∙ load_one env topics t x p ms topic e d c ne in
      (
        owner ms p,
        sym (contains-subscribers_arranged t (owner ms p) env.member_order g.members)
            ∙ owner_of p ms ne,
        ground (arith, share (owner ms p), beq_refl (owner ms p)),
        λ x n. ground (arith, share x, text_beq_iff x (owner ms p)),
      )
