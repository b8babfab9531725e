-- ===== src/Client/Integration/Unblocked.antt =====
-- The consumer in the background of the integration test: where the step that waits for it passes, it
-- has read the record.
use mathlib.Core.Path.{subst}
use aero_mq.Prelude.{refl, sym, ◌⊎◌, ℕ, ◌≡◌, ap, ◌∙◌, inl, inr, some, Text, nat_key, text_key, sym}
use aero_mq.Script.{value}
use aero_mq.Script.Passes.{bind-passes, fatal_if-passes, check-passes, fatal_if-last}
use aero_mq.Client.Integration.Surroundings.{Lab, uncommitted, restart_broker, broker_log}
use aero_mq.Client.Integration.{check_unblocked, meanwhile, Option, none}
use aero_mq.Client.Integration.Steps.{value_inj, Reads, meanwhile-Reads, text_of-some}

module _ {World : Type 0} (lab : Lab World) (topic : Text) (p : ℕ) where
  -- The worlds once the log file has been opened and the follower started again, where the consumer
  -- in the background has found nothing by then.
  abbrev pub log_opened : ℕ → Text → World → World
  log_opened follower addr w =
      (lab.open_log (broker_log follower) (meanwhile lab addr topic p none w).1).1

  abbrev pub restarted : ℕ → Text → World → World
  restarted follower addr w =
      (lab.start_command (restart_broker follower) (broker_log follower)
        (meanwhile lab addr topic p none (log_opened follower addr w)).1).1

  -- The consumer in the background reads the message as record 6: before the log file is opened,
  -- before the follower is started again, or after that and within the time that the test waits.
  abbrev pub Unblocked : World → ℕ → Text → Type 0
  Unblocked w follower addr =
      Reads lab topic p addr w uncommitted
      ⊎ (Reads lab topic p addr (log_opened follower addr w) uncommitted
          ⊎ Reads lab topic p addr (restarted follower addr w) uncommitted)

  meanwhile-found :
      (addr : Text) (bytes : Text) (w : World)
      → (meanwhile lab addr topic p (some bytes) w).0 ≡ value (some bytes)
  unfolding meanwhile
  meanwhile-found addr bytes w = refl

  kept_bytes :
      (addr : Text) (bytes : Text) (r : Option Text) (w : World)
      → (meanwhile lab addr topic p (some bytes) w).0 ≡ value r
      → some bytes ≡ r
  kept_bytes addr bytes r w h = value_inj (sym (meanwhile-found addr bytes w) ∙ h)

  kept_bytes_twice :
      (addr : Text) (bytes : Text) (r q : Option Text) (w v : World)
      → (meanwhile lab addr topic p (some bytes) w).0 ≡ value r
      → (meanwhile lab addr topic p r v).0 ≡ value q
      → some bytes ≡ q
  kept_bytes_twice addr bytes r q w v h k = kept_bytes addr bytes q v (
      subst (λ x. (meanwhile lab addr topic p x v).0 ≡ value q) (sym (kept_bytes addr bytes r w h))
        k)

  -- What the consumer has found at the end was found in one of the three stages.
  found-Unblocked :
      (w : World) (follower : ℕ) (addr : Text) (early later : Option Text)
      → (meanwhile lab addr topic p none w).0 ≡ value early
      → (meanwhile lab addr topic p early (log_opened follower addr w)).0 ≡ value later
      → (meanwhile lab addr topic p later
          (lab.start_command
            (restart_broker follower)
            (broker_log follower)
            (meanwhile lab addr topic p early (log_opened follower addr w)).1).1).0
        ≡ value (some uncommitted)
      → Unblocked w follower addr
  found-Unblocked w follower addr (some b) later e1 e2 e3 = inl (
      meanwhile-Reads lab topic p addr w uncommitted
        (e1 ∙ ap value (kept_bytes_twice addr b later (some uncommitted) _ _ e2 e3)))
  found-Unblocked w follower addr none (some b) e1 e2 e3 = inr (
      inl (
        meanwhile-Reads lab topic p addr _ uncommitted
          (e2 ∙ ap value (kept_bytes addr b (some uncommitted) _ e3))))
  found-Unblocked w follower addr none none e1 e2 e3 =
      inr (inr (meanwhile-Reads lab topic p addr _ uncommitted e3))

  pub check_unblocked-passes :
      (w : World) (follower : ℕ) (leader_addr : Text)
      → (check_unblocked lab topic p follower leader_addr w).0 ≡ value tt
      → Unblocked w follower leader_addr
  unfolding check_unblocked
  check_unblocked-passes w follower leader_addr h = bind-passes _ _ _ h λ early e1 h1.
      bind-passes _ _ _ h1 λ opened _ h2. check-passes _ _ _ _ h2 λ h3.
        bind-passes _ _ _ h3 λ later e2 h4. bind-passes _ _ _ h4 λ started _ h5.
          check-passes _ _ _ _ h5 λ h6. bind-passes _ _ _ h6 λ read e3 h7.
            fatal_if-passes _ _ _ _ h7 λ _ h8.
              found-Unblocked w follower leader_addr early later e1 e2
                (e3 ∙ ap value (text_of-some read _ _ (fatal_if-last _ _ _ h8)))
