-- ===== src/Client/Integration/Elected.antt =====
-- The integration test finds the new leader after a failover.
use mathlib.Core.Option
use mathlib.Core.Path.{subst}
use aero_mq.Prelude.{
  ℕ, zero, suc, ◌<◌, Bool, true, false, not, ◌≡◌, ◌≢◌, refl, sym, ap, ◌∙◌, inl, inr, some, [], ◌∷◌,
  Text, nat_key, text_key, ◌==◌, arith, nat_beq_iff,
}
use aero_mq.Prelude.Map.{lookup}
use aero_mq.Fsm.State.{BrokerStatus, PartitionState, ClusterState, Env}
use aero_mq.Fsm.State.Lookup.{find_partition}
use aero_mq.Fsm.Failover.{is_expired, clean_inactive}
use aero_mq.Fsm.Failover.Sweep.{Sound}
use aero_mq.Fsm.Failover.Promotion.{clean_inactive-promotes}
use aero_mq.Fsm.WellFormed.{IsWellFormed}
use aero_mq.Fsm.WellFormed.Steps.{clean_inactive-IsWellFormed}
use aero_mq.Fsm.Metadata.Copy.{with_made}
use aero_mq.Server.Messages.{BrokerInfo, MetadataResponse}
use aero_mq.Server.Listing.{Orders}
use aero_mq.Server.Handlers.{metadata_response}
use aero_mq.Script.{Result, value, failure, Result-cases}
use aero_mq.Client.Leader.{find_broker}
use aero_mq.Client.Leader.Found.{listed_broker}
use aero_mq.Client.Leader.Listed.{info_of}
use aero_mq.Client.Integration.Surroundings.{Lab}
use aero_mq.Client.Integration.{ask_metadata, await_election}
use aero_mq.Client.Integration.Answers.{address_of, current_leader}
use aero_mq.Client.Integration.Listed.{stepped, over_topics-get_metadata}

-- The leader that the test reads in the controller's answer.
pub current_leader-metadata_response :
    (o : Orders) (s : ClusterState) (topic : Text) (p : ℕ) (ps : PartitionState)
    → IsWellFormed s
    → find_partition topic p s.topics ≡ some ps
    → current_leader topic p (metadata_response o (record { topics = topic ∷ [] }) s).topics
      ≡ ps.leader_id
unfolding current_leader metadata_response
current_leader-metadata_response o s topic p ps w e =
    over_topics-get_metadata (λ _ q. q.leader_id) o s topic p 0 w
    ∙ ap (λ x. stepped (λ _ q. q.leader_id) p 0 (Option.map with_made x)) e

not-true : (b : Bool) → not b ≡ true → b ≡ false
not-true true h = sym h
not-true false h = refl

module _ {World : Type 0} (lab : Lab World) (topic : Text) (partition follower : ℕ) where
  -- The answer to the question that the loop asks after `k` others.
  unfoldable pub polled : ℕ → World → Result MetadataResponse
  polled zero w = (ask_metadata lab topic (lab.sleep 1000 w)).0
  polled (suc k) w = polled k (ask_metadata lab topic (lab.sleep 1000 w)).1

  -- An answer after which the loop goes on: an error, or another leader.
  abbrev pub goes_on : Result MetadataResponse → Bool
  goes_on (failure e) = true
  goes_on (value meta) = not (current_leader topic partition meta.topics == follower)

  await_election-goes_on :
      (rounds : ℕ) (w : World)
      → goes_on (polled zero w) ≡ true
      → (await_election lab (suc rounds) topic partition follower w).0
        ≡ (await_election lab rounds topic partition follower
            (ask_metadata lab topic (lab.sleep 1000 w)).1).0
  unfolding await_election polled
  await_election-goes_on rounds w h =
      elim (Result-cases (ask_metadata lab topic (lab.sleep 1000 w)).0) [
        | inl (e, q) ↦ rw (q, await_election) refl
        | inr (meta, q) ↦
            let other : (current_leader topic partition meta.topics == follower) ≡ false =
              not-true (current_leader topic partition meta.topics == follower)
                (subst (λ r. goes_on r ≡ true) q h) in
            rw (q, await_election, other) refl
      ]

  await_election-found :
      (rounds : ℕ) (w : World) (meta : MetadataResponse) (b : BrokerInfo)
      → polled zero w ≡ value meta
      → current_leader topic partition meta.topics ≡ follower
      → find_broker follower meta.brokers ≡ some b
      → (await_election lab (suc rounds) topic partition follower w).0 ≡ value (some (address_of b))
  unfolding await_election polled
  await_election-found rounds w meta b e l f =
      rw (e, l, (nat_beq_iff follower follower).1 refl, f, await_election) refl

  polled-suc :
      (k : ℕ) (w : World)
      → polled (suc k) w ≡ polled k (ask_metadata lab topic (lab.sleep 1000 w)).1
  unfolding polled
  polled-suc k w = refl

  await_election-polled :
      (rounds k : ℕ) (w : World) (meta : MetadataResponse) (b : BrokerInfo)
      → k < rounds
      → ((j : ℕ) → j < k → goes_on (polled j w) ≡ true)
      → polled k w ≡ value meta
      → current_leader topic partition meta.topics ≡ follower
      → find_broker follower meta.brokers ≡ some b
      → (await_election lab rounds topic partition follower w).0 ≡ value (some (address_of b))
  await_election-polled zero k w meta b h a e l f = absurd (omega arith)
  await_election-polled (suc rounds) zero w meta b h a e l f =
      await_election-found rounds w meta b e l f
  await_election-polled (suc rounds) (suc k) w meta b h a e l f =
      await_election-goes_on rounds w (a 0 (omega arith))
      ∙ await_election-polled rounds k (ask_metadata lab topic (lab.sleep 1000 w)).1 meta b
          (omega (arith, h))
          (λ j q. subst (λ r. goes_on r ≡ true) (polled-suc j w) (a (suc j) (omega (arith, q))))
          (sym (polled-suc k w) ∙ e) l f

  -- In a well-formed and sound state a partition has two replicas, its leader, which is known and has
  -- expired, and the follower, which is known, active and not expired, and neither has the id 0. If the
  -- k-th answer within the rounds is the controller's about the state after its sweep, and each answer
  -- before it is an error or names another leader, then the test's loop ends with the address that the
  -- follower was registered with.
  pub follower-elected :
      (rounds k : ℕ) (w : World) (o : Orders) (env : Env) (s : ClusterState) (ps : PartitionState)
      (leader follower_status : BrokerStatus)
      → IsWellFormed s
      → Sound s
      → find_partition topic partition s.topics ≡ some ps
      → ps.replica_ids ≡ ps.leader_id ∷ follower ∷ []
      → ps.leader_id ≢ 0
      → follower ≢ 0
      → lookup ps.leader_id s.brokers ≡ some leader
      → is_expired env.now leader ≡ true
      → lookup follower s.brokers ≡ some follower_status
      → follower_status.active ≡ true
      → is_expired env.now follower_status ≡ false
      → k < rounds
      → ((j : ℕ) → j < k → goes_on (polled j w) ≡ true)
      → polled k w
        ≡ value (metadata_response o (record { topics = topic ∷ [] }) (clean_inactive env s))
      → (await_election lab rounds topic partition follower w).0
        ≡ value (some (address_of (info_of follower_status)))
  unfolding metadata_response
  follower-elected rounds k w o env s ps bl bf wf v found two lz fz led x kept active fresh less a
        e =
      let (qs, at, leads, there) =
        clean_inactive-promotes env s topic partition ps follower bl bf v found two lz fz led x kept
          active fresh in
      let after = clean_inactive-IsWellFormed env s wf in
      await_election-polled rounds k w _ (info_of bf) less a e
        (current_leader-metadata_response o (clean_inactive env s) topic partition qs after at
          ∙ leads)
        (listed_broker o (clean_inactive env s) (topic ∷ []) follower bf after there active)
