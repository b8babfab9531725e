-- ===== src/Client/Integration/Steps.antt =====
-- What each step of the integration test has seen where it passes.
use mathlib.Core.Path.{subst}
use aero_mq.Prelude.{
  Option-cases, ℕ, zero, suc, ◌<◌, Bool, true, false, not, ◌≡◌, refl, sym, ap, ◌∙◌, inl, inr,
  Option, none, some, [], ◌∷◌, ◌++◌, Text, nat_key, text_key, ◌==◌, arith, text_beq_iff,
}
use aero_mq.Server.Messages.{MetadataResponse}
use aero_mq.Script.{Result-cases, value}
use aero_mq.Client.Exchange.{Conn}
use aero_mq.Script.{Script, ◌>>=◌, ◌>>◌}
use aero_mq.Script.Passes.{fatal_if-passes, failing_as-passes, act-passes, fatal_if-last}
use aero_mq.Client.Integration.Surroundings.{
  Lab, message_text, text_of, is_some_data, uncommitted, kill_broker, cold_log_path, cold_idx_path,
  active_log_path, produce_on, fetch_on,
}
use aero_mq.Client.Integration.{
  ask_metadata, fatal_if_missing, resolve_roles, check_segments, check_retrieval, check_blocking,
  attempt, await_record, meanwhile,
}
use aero_mq.Client.Integration.Answers.{Roles, find_roles, last_address}

pub value_inj : {A : Type 0} {a b : A} → value a ≡ value b → a ≡ b
value_inj h = ground (arith, h)

-- A text that is not empty is that of data.
pub text_of-some :
    (o : Option Text) (c : ℕ) (t : Text) → not (text_of o == c ∷ t) ≡ false → o ≡ some (c ∷ t)
text_of-some none c t h = absurd (ground (arith, h))
text_of-some (some s) c t h = ap some ((text_beq_iff s (c ∷ t)).0 (ground (arith, h)))

not-false : (b : Bool) → not b ≡ false → b ≡ true
not-false true h = refl
not-false false h = sym h

is_some_data-none : (o : Option Text) → is_some_data o ≡ false → o ≡ none
is_some_data-none none h = refl
is_some_data-none (some s) h = absurd (ground (arith, h))

pub is_some_data-some : (o : Option Text) → not (is_some_data o) ≡ false → o ≡ some (text_of o)
is_some_data-some none h = absurd (ground (arith, h))
is_some_data-some (some s) h = refl

module _ {World : Type 0} (lab : Lab World) (topic : Text) (p : ℕ) where
  -- An answer that lists the partition, with the roles and the addresses that are read in it.
  abbrev pub Resolved : World → Roles × Text × Text → Type 0
  Resolved w t =
      (meta : MetadataResponse) × ((ask_metadata lab topic w).0 ≡ value meta)
      × (t.0 ≡ find_roles topic p meta.topics)
      × (t.0.found ≡ true)
      × (t.1 ≡ last_address t.0.leader_id [] meta.brokers)
      × (t.2 ≡ last_address t.0.follower_id [] meta.brokers)

  pub resolve_roles-passes :
      (w : World) (t : Roles × Text × Text)
      → (resolve_roles lab topic p w).0 ≡ value t
      → Resolved w t
  unfolding resolve_roles
  resolve_roles-passes w t h = failing_as-passes _ _ _ w h λ meta e h1.
      fatal_if-passes _ _ _ _ h1 λ f h2.
        fatal_if-passes _ _ _ _ h2 λ g h3.
          subst (λ x. Resolved w x) (value_inj h3) (meta, e, refl, not-false _ f, refl, refl)

  fatal_if_missing-passes :
      {B C : Type 0} (message path : Text) (k : Script World B) (w : World) {x : B}
      → ((fatal_if_missing lab message path >> k) w).0 ≡ value x
      → (lab.is_missing path w ≡ false → (k w).0 ≡ value x → C)
      → C
  unfolding ◌>>=◌ fatal_if_missing
  fatal_if_missing-passes message path k w h next =
      fatal_if-passes (lab.is_missing path w) (message ++ path) k w h next

  fatal_if_missing-last :
      (message path : Text) (w : World)
      → (fatal_if_missing lab message path w).0 ≡ value tt
      → lab.is_missing path w ≡ false
  unfolding fatal_if_missing
  fatal_if_missing-last message path w h = fatal_if-last _ _ w h

  -- The files that are there after the rollover.
  abbrev pub Rolled : World → ℕ → Type 0
  Rolled w leader =
      (lab.is_missing (cold_log_path leader topic p) w ≡ false)
      × (lab.is_missing (cold_idx_path leader topic p) w ≡ false)
      × (lab.is_missing (active_log_path leader topic p) w ≡ false)

  pub check_segments-passes :
      (w : World) (leader : ℕ)
      → (check_segments lab leader topic p w).0 ≡ value tt
      → Rolled w leader
  unfolding check_segments
  check_segments-passes w leader h =
      fatal_if_missing-passes _ _ _ w h
        λ a h1. fatal_if_missing-passes _ _ _ w h1 λ b h2. (a, b, fatal_if_missing-last _ _ w h2)

  pub check_retrieval-passes :
      (w : World) (c d : Conn)
      → (check_retrieval lab topic p c w).0 ≡ value d
      → (fetch_on lab topic p 0 c w).0 ≡ value (some (message_text 0), d)
  unfolding check_retrieval
  check_retrieval-passes w c d h = failing_as-passes _ _ _ w h λ t e h1.
      fatal_if-passes _ _ _ _ h1 λ f h2.
        e
        ∙ ap (λ bytes. value (bytes, t.1)) (text_of-some t.0 _ _ f)
        ∙ ap (λ x. value (some (message_text 0), x)) (value_inj h2)

  -- A second after the follower has been killed, the leader takes the message, and gives no data for
  -- record 6.
  abbrev pub Blocked : World → ℕ → Conn → Type 0
  Blocked w follower c =
      let killed = lab.sleep 1000 (lab.run_command (kill_broker follower) w) in
      (offset : ℕ) × (c' : Conn) × (c'' : Conn) × ((produce_on lab topic p uncommitted c killed).0
        ≡ value (offset, c'))
      × ((fetch_on lab topic p 6 c' (produce_on lab topic p uncommitted c killed).1).0
          ≡ value (none, c''))

  pub check_blocking-passes :
      (w : World) (follower : ℕ) (c : Conn)
      → (check_blocking lab topic p follower c w).0 ≡ value tt
      → Blocked w follower c
  unfolding check_blocking
  check_blocking-passes w follower c h = act-passes _ _ w h λ h1. act-passes _ _ _ h1 λ h2.
      failing_as-passes _ _ _ _ h2 λ t e h3. failing_as-passes _ _ _ _ h3 λ r f h4. (
        t.0,
        t.1,
        r.1,
        e,
        f ∙ ap (λ bytes. value (bytes, r.1)) (is_some_data-none r.0 (fatal_if-last _ _ _ h4)),
      )

  -- The world that the k-th attempt of the consumer in the background starts from.
  unfoldable pub retried : ℕ → Text → World → World
  retried zero addr w = w
  retried (suc k) addr w = retried k addr (lab.sleep 100 (attempt lab addr topic p 6 w).1)

  -- An attempt that has got these bytes as record 6.
  abbrev pub Gets : Text → World → Text → Type 0
  Gets addr w bytes =
      (c : Conn) × (d : Conn) × ((lab.connect addr w).0 ≡ value c)
      × ((fetch_on lab topic p 6 c (lab.connect addr w).1).0 ≡ value (some bytes, d))

  attempt-Gets :
      (addr : Text) (w : World) (bytes : Text)
      → (attempt lab addr topic p 6 w).0 ≡ some bytes
      → Gets addr w bytes
  unfolding attempt
  attempt-Gets addr w bytes h = elim (Result-cases (lab.connect addr w).0) [
    | inl (e, q) ↦ absurd (ground (arith, q, h))
    | inr (c, q) ↦ elim (Result-cases (fetch_on lab topic p 6 c (lab.connect addr w).1).0) [
      | inl (e, r) ↦ absurd (ground (arith, q, r, h))
      | inr ((answer, d), r) ↦ (c, d, q, r ∙ ap (λ x. value (x, d)) (ground (arith, q, r, h)))
    ]
  ]

  -- One of the attempts from this world on, within those that there is time for, gets these bytes.
  abbrev pub Reads : Text → World → Text → Type 0
  Reads addr w bytes = (k : ℕ) × (k < lab.tries w) × Gets addr (retried k addr w) bytes

  await_record-Gets :
      (rounds : ℕ) (addr : Text) (w : World) (bytes : Text)
      → (await_record lab rounds addr topic p 6 w).0 ≡ some bytes
      → (k : ℕ) × (k < rounds) × Gets addr (retried k addr w) bytes
  unfolding await_record retried
  await_record-Gets zero addr w bytes h = absurd (ground (arith, h))
  await_record-Gets (suc rounds) addr w bytes h =
      elim (Option-cases (attempt lab addr topic p 6 w).0) [
        | inr (got, r) ↦ (0, omega arith, attempt-Gets addr w bytes (r ∙ ground (arith, r, h)))
        | inl r ↦
            let (k, l, found) =
              await_record-Gets rounds addr (lab.sleep 100 (attempt lab addr topic p 6 w).1) bytes
                (ground (arith, r, h)) in
            (suc k, omega (arith, l), found)
      ]

  pub meanwhile-Reads :
      (addr : Text) (w : World) (bytes : Text)
      → (meanwhile lab addr topic p none w).0 ≡ value (some bytes)
      → Reads addr w bytes
  unfolding meanwhile
  meanwhile-Reads addr w bytes h = await_record-Gets (lab.tries w) addr w bytes (value_inj h)
