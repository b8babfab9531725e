-- ===== src/Client/Integration/Verdict.antt =====
-- The verdict of the integration test: what has been seen where it passes.
use aero_mq.Prelude.{
  ℕ, zero, suc, ◌<◌, ◌≡◌, ap, ◌∙◌, Bool-cases, inl, inr, some, ◌++◌, Text, codes, nat_key, text_key,
  ◌==◌, arith, nat_beq_iff, Option-cases,
}
use aero_mq.Prelude.Decimal.{decimal_ℕ}
use aero_mq.Server.Messages.{BrokerInfo, MetadataResponse}
use aero_mq.Script.{Result-cases, value}
use aero_mq.Client.Exchange.{Conn}
use aero_mq.Client.Leader.{find_broker}
use aero_mq.Script.Passes.{
  bind-passes, fatal_if-passes, failing_as-passes, act-passes, fatal_if-last,
}
use aero_mq.Client.Integration.Surroundings.{
  Lab, message_text, text_of, after_failover, kill_broker, produce_on, fetch_on,
}
use aero_mq.Client.Integration.{
  integration_test, test_topic, ask_metadata, create_test_topic, resolve_roles, produce_messages,
  check_segments, check_retrieval, check_blocking, check_unblocked, check_failover, await_election,
}
use aero_mq.Client.Integration.Answers.{Roles, address_of, current_leader}
use aero_mq.Client.Integration.Elected.{polled}
use aero_mq.Client.Integration.Steps.{
  Resolved, Rolled, Blocked, text_of-some, is_some_data-some, resolve_roles-passes,
  check_segments-passes, check_retrieval-passes, check_blocking-passes,
}
use aero_mq.Client.Integration.Unblocked.{Unblocked, check_unblocked-passes}

module _ {World : Type 0} (lab : Lab World) (topic : Text) (p : ℕ) where
  -- One of the rounds has got an answer in which the follower leads and is listed at this address.
  abbrev pub Promoted : ℕ → ℕ → World → Text → Type 0
  Promoted rounds follower w a =
      (k : ℕ) × (meta : MetadataResponse) × (b : BrokerInfo) × (k < rounds)
      × (polled lab topic p follower k w ≡ value meta)
      × (current_leader topic p meta.topics ≡ follower)
      × (find_broker follower meta.brokers ≡ some b)
      × (a ≡ address_of b)

  Promoted-later :
      (rounds follower : ℕ) (w : World) (a : Text)
      → Promoted rounds follower (ask_metadata lab topic (lab.sleep 1000 w)).1 a
      → Promoted (suc rounds) follower w a
  unfolding polled
  Promoted-later rounds follower w a (k, meta, b, l, e, f, g, h) =
      (suc k, meta, b, omega (arith, l), e, f, g, h)

  pub await_election-Promoted :
      (rounds follower : ℕ) (w : World) (a : Text)
      → (await_election lab rounds topic p follower w).0 ≡ value (some a)
      → Promoted rounds follower w a
  unfolding await_election polled
  await_election-Promoted zero follower w a h = absurd (ground (arith, h))
  await_election-Promoted (suc rounds) follower w a h =
      let again =
        await_election-Promoted rounds follower (ask_metadata lab topic (lab.sleep 1000 w)).1 a in
      elim (Result-cases (ask_metadata lab topic (lab.sleep 1000 w)).0) [
        | inl (e, q) ↦ Promoted-later rounds follower w a (again (ground (arith, q, h)))
        | inr (meta, q) ↦ elim (Bool-cases (current_leader topic p meta.topics == follower)) [
          | inr n ↦ Promoted-later rounds follower w a (again (ground (arith, q, n, h)))
          | inl y ↦ elim (Option-cases (find_broker follower meta.brokers)) [
            | inl f ↦ absurd (ground (arith, q, y, f, h))
            | inr (b, f) ↦ (
              0,
              meta,
              b,
              omega arith,
              q,
              (nat_beq_iff _ follower).0 y,
              f,
              ground (arith, q, y, f, h),
            )
          ]
        ]
      ]

  -- From this world on, the connection stores the message and gives it back.
  abbrev pub Stores : World → Conn → Text → Type 0
  Stores w c message =
      (offset : ℕ) × (c' : Conn) × (c'' : Conn) × ((produce_on lab topic p message c w).0
        ≡ value (offset, c'))
      × ((fetch_on lab topic p offset c' (produce_on lab topic p message c w).1).0
          ≡ value (some message, c''))

  -- With the follower promoted, a connection to its address stores a message.
  abbrev pub FailedOver : World → ℕ → Type 0
  FailedOver w follower =
      let elected = (await_election lab 20 topic p follower w).1 in
      (a : Text) × (c : Conn) × Promoted 20 follower w a
      × ((lab.connect a elected).0 ≡ value c)
      × Stores (lab.connect a elected).1 c after_failover

  pub check_failover-passes :
      (w : World) (leader follower : ℕ)
      → (check_failover lab topic p leader follower w).0 ≡ value tt
      → FailedOver (lab.run_command (kill_broker leader) w) follower
  unfolding check_failover
  check_failover-passes w leader follower h = act-passes _ _ _ h λ h1.
      bind-passes _ _ _ h1 λ elected e h2. fatal_if-passes _ _ _ _ h2 λ f h3.
        failing_as-passes _ _ _ _ h3 λ c g h4. failing_as-passes _ _ _ _ h4 λ t i h5.
          failing_as-passes _ _ _ _ h5 λ r j h6. (
            text_of elected,
            c,
            await_election-Promoted 20 follower _ _ (e ∙ ap value (is_some_data-some elected f)),
            g,
            (
              t.0,
              t.1,
              r.1,
              i,
              j ∙ ap (λ bytes. value (bytes, r.1)) (text_of-some r.0 _ _ (fatal_if-last _ _ _ h6)),
            ),
          )

module _ {World : Type 0} (lab : Lab World) (topic : Text) where
  -- What is seen in a run that reads these roles and addresses, that leaves the first connection to
  -- the leader as `c'` and the second as `d'` after its fetch of record 0.
  abbrev pub Seen : World → Roles × Text × Text → Conn → Conn → Conn → Conn → Type 0
  Seen w t c c' d d' =
      let w1 = lab.sleep 3000 (create_test_topic lab topic w).1 in
      let w2 = (resolve_roles lab topic 0 w1).1 in
      let w3 = (lab.connect t.1 w2).1 in
      let w4 = lab.sleep 3000 (produce_messages lab topic 0 0 6 c w3).1 in
      let w5 = (check_segments lab t.0.leader_id topic 0 w4).1 in
      let w6 = (lab.connect t.1 w5).1 in
      let w7 = (check_retrieval lab topic 0 d w6).1 in
      let w8 = (check_blocking lab topic 0 t.0.follower_id d' w7).1 in
      let w9 = (check_unblocked lab topic 0 t.0.follower_id t.1 w8).1 in
      Resolved lab topic 0 w1 t
      × ((lab.connect t.1 w2).0 ≡ value c)
      × ((produce_messages lab topic 0 0 6 c w3).0 ≡ value c')
      × Rolled lab topic 0 w4 t.0.leader_id
      × ((lab.connect t.1 w5).0 ≡ value d)
      × ((fetch_on lab topic 0 0 d w6).0 ≡ value (some (message_text 0), d'))
      × Blocked lab topic 0 w7 t.0.follower_id d'
      × Unblocked lab topic 0 w8 t.0.follower_id t.1
      × FailedOver lab topic 0 (lab.run_command (kill_broker t.0.leader_id) w9) t.0.follower_id

  test_topic-passed :
      (w : World)
      → (test_topic lab topic w).0 ≡ value tt
      → (t : Roles × Text × Text) × (c : Conn) × (c' : Conn) × (d : Conn) × (d' : Conn) × Seen w t c
          c' d d'
  unfolding test_topic
  test_topic-passed w h = bind-passes _ _ _ h λ _ _ h1. act-passes _ _ _ h1 λ h2.
      bind-passes _ _ _ h2 λ t e h3. failing_as-passes _ _ _ _ h3 λ c f h4.
        bind-passes _ _ _ h4 λ c' g h5. act-passes _ _ _ h5 λ h6. bind-passes _ _ _ h6 λ _ i h7.
          failing_as-passes _ _ _ _ h7 λ d j h8. bind-passes _ _ _ h8 λ d' k h9.
            bind-passes _ _ _ h9 λ _ l h10. bind-passes _ _ _ h10 λ _ m h11. (
              t,
              c,
              c',
              d,
              d',
              (
                resolve_roles-passes lab topic 0 _ t e,
                f,
                g,
                check_segments-passes lab topic 0 _ t.0.leader_id i,
                j,
                check_retrieval-passes lab topic 0 _ d d' k,
                check_blocking-passes lab topic 0 _ t.0.follower_id d' l,
                check_unblocked-passes lab topic 0 _ t.0.follower_id t.1 m,
                check_failover-passes lab topic 0 _ t.0.leader_id t.0.follower_id h11,
              ),
            )

-- Where the integration test passes, it has seen in its run that: an answer lists the partition of its
-- topic, with the leader and the follower that it takes; the leader takes six messages, and three
-- seconds later the files of a rollover are there; record 0 is the first message; a second after the
-- command that kills the follower, the leader takes another message and gives no data for record 6; the
-- consumer that runs in the background from then on reads that message as record 6, before the
-- follower is started again or within the time that the test waits after that; and after the command
-- that kills the leader, an answer within twenty rounds names the follower as the leader, and the
-- connection to its address stores a message and gives it back.
pub integration_test-passed :
    {World : Type 0} (lab : Lab World) (w : World)
    → (integration_test lab w).0 ≡ value tt
    → let topic = codes "test-integration-" ++ decimal_ℕ (lab.unix_time w) in
      (t : Roles × Text × Text) × (c : Conn) × (c' : Conn) × (d : Conn) × (d' : Conn) × Seen lab
        topic w t c c' d d'
unfolding integration_test
integration_test-passed lab w h =
    test_topic-passed lab (codes "test-integration-" ++ decimal_ℕ (lab.unix_time w)) w h
