-- ===== src/Fsm/Topics/Placement.antt =====
-- Where `create_topic` puts the replicas of a partition.
use Prim.Native.Nat.{min}
use native.Mathlib.Nat.{mod-lt, mod-eq_of_lt, div-add-mod, mul-le-mul_left, add-zero}
use mathlib.Core.Bool.{false≢true}
use native.Mathlib.Decide.{dec_lt}
use aero_mq.Prelude.{
  ℕ, zero, suc, ◌+◌, ◌%◌, ◌*◌, ◌/◌, ◌≤◌, ◌<◌, ◌≡◌, ◌≢◌, refl, ap, ◌∙◌, true, false, List, [], ◌∷◌,
  length, get_or, contains, Distinct, nat_key, nat_beq_iff, lt→ltb, arith, contains-get_or,
}
use aero_mq.Fsm.State.{uint32_mod}
use aero_mq.Fsm.Topics.{nth_broker, pick_replicas, choose_leader_id, choose_replicas, new_partition}

-- Distinct places of a list without repetition hold distinct elements.
get_or_inj :
    (ids : List ℕ) (j k : ℕ)
    → Distinct ids
    → j < length ids
    → k < length ids
    → get_or ids j 0 ≡ get_or ids k 0
    → j ≡ k
get_or_inj [] j k d hj hk e = absurd (omega arith)
get_or_inj (x ∷ xs) zero zero d hj hk e = refl
get_or_inj (x ∷ xs) zero (suc k) d hj hk e =
    ground (arith, contains-get_or xs k 0, ap (λ a. contains a xs) e)
get_or_inj (x ∷ xs) (suc j) zero d hj hk e =
    ground (arith, contains-get_or xs j 0, ap (λ a. contains a xs) e)
get_or_inj (x ∷ xs) (suc j) (suc k) d hj hk e =
    ap suc (get_or_inj xs j k d.1 (omega arith) (omega arith) e)

length-pick_replicas :
    (ids : List ℕ) (i rounds r : ℕ) → length (pick_replicas ids i rounds r) ≡ rounds
unfolding pick_replicas
length-pick_replicas ids i zero r = refl
length-pick_replicas ids i (suc rounds) r = ap suc (length-pick_replicas ids i rounds (suc r))

quotients_apart : (n p q r : ℕ) → n * p + r < n * q + r → n * q + r < n * p + r + n → ⊥
quotients_apart n p q r h k = elim (dec_lt p q) [
  | yes l ↦ omega (arith, mul-le-mul_left {m = suc p} {n = q} n l)
  | no g ↦ omega (arith, mul-le-mul_left {m = q} {n = p} n (omega arith))
]

-- Two numbers less than `n` apart have different remainders by `n`.
mod_apart : (a b n : ℕ) → a < b → b < a + n → a % n ≢ b % n
mod_apart a b n h k e =
    quotients_apart n (a / n) (b / n) (a % n) (omega (arith, div-add-mod a n, div-add-mod b n, e))
      (omega (arith, div-add-mod a n, div-add-mod b n, e))

module _ (ids : List ℕ) where
  nth_broker-mem : (j : ℕ) → 0 < length ids → contains (nth_broker ids j) ids ≡ true
  nth_broker-mem j h = contains-get_or ids (j % length ids) 0 (mod-lt j h)

  nth_broker_apart :
      (a b : ℕ)
      → Distinct ids
      → 0 < length ids
      → a < b
      → b < a + length ids
      → nth_broker ids a ≢ nth_broker ids b
  nth_broker_apart a b d h l k e =
      mod_apart a b (length ids) l k
        (get_or_inj ids (a % length ids) (b % length ids) d (mod-lt a h) (mod-lt b h) e)

  -- The replicas from `r` on are placed later than any broker of an earlier round.
  pick_replicas_apart :
      (i rounds r q : ℕ)
      → Distinct ids
      → 0 < length ids
      → q < r
      → r + rounds ≤ q + length ids
      → contains (nth_broker ids (i + q)) (pick_replicas ids i rounds r) ≡ false
  unfolding pick_replicas
  pick_replicas_apart i zero r q d h l k = refl
  pick_replicas_apart i (suc rounds) r q d h l k = ground (
    arith,
    nat_beq_iff (nth_broker ids (i + q)) (nth_broker ids (i + r)),
    nth_broker_apart (i + q) (i + r) d h (omega arith) (omega arith),
    pick_replicas_apart i rounds (suc r) q d h (omega arith) (omega arith),
  )

  pick_replicas-Distinct :
      (i rounds r : ℕ)
      → Distinct ids
      → 0 < length ids
      → rounds ≤ length ids
      → Distinct (pick_replicas ids i rounds r)
  unfolding pick_replicas
  pick_replicas-Distinct i zero r d h k = tt
  pick_replicas-Distinct i (suc rounds) r d h k = (
    pick_replicas_apart i rounds (suc r) r d h (omega arith) (omega arith),
    pick_replicas-Distinct i rounds (suc r) d h (omega arith),
  )

  pick_replicas-mem :
      (i rounds r q : ℕ)
      → 0 < length ids
      → contains q (pick_replicas ids i rounds r) ≡ true
      → contains q ids ≡ true
  unfolding pick_replicas
  pick_replicas-mem i zero r q h m = absurd (false≢true m)
  pick_replicas-mem i (suc rounds) r q h m = ground (
    arith,
    nat_beq_iff q (nth_broker ids (i + r)),
    nth_broker-mem (i + r) h,
    pick_replicas-mem i rounds (suc r) q h,
  )

-- A placement of `factor` replicas on the brokers `ids`: as many as asked for, or one on each broker
-- if there are fewer; no broker twice; all of them among `ids`; the leader among `ids`, and the
-- first replica if there is one.
pub record IsPlaced (ids : List ℕ) (factor leader : ℕ) (replicas : List ℕ) : Type 0 where
  pub number : length replicas ≡ min factor (length ids)
  pub distinct : Distinct replicas
  pub known : (q : ℕ) → contains q replicas ≡ true → contains q ids ≡ true
  pub leads : contains leader ids ≡ true
  pub first : 0 < factor → (rest : List ℕ) × (replicas ≡ leader ∷ rest)

first_replica :
    (ids : List ℕ) (i rounds : ℕ)
    → 0 < rounds
    → (rest : List ℕ) × (pick_replicas ids i rounds 0 ≡ nth_broker ids i ∷ rest)
unfolding pick_replicas
first_replica ids i zero h = absurd (omega arith)
first_replica ids i (suc rounds) h = (pick_replicas ids i rounds 1, rw (add-zero i))

pub new_partition-IsPlaced :
    (ids : List ℕ) (factor i : ℕ)
    → Distinct ids
    → 0 < length ids
    → length ids < uint32_mod
    → let p = new_partition ids factor i in IsPlaced ids factor p.leader_id p.replica_ids
unfolding new_partition choose_replicas choose_leader_id
new_partition-IsPlaced ids factor i d h small =
    let rounds : ℕ = min factor (length ids % uint32_mod) in
    let n : rounds ≡ min factor (length ids) = ap (min factor) (mod-eq_of_lt small) in
    let le : rounds ≤ length ids = omega (arith, n) in
    rw (lt→ltb 0 (length ids) h) (record {
      number = length-pick_replicas ids i rounds 0 ∙ n;
      distinct = pick_replicas-Distinct ids i rounds 0 d h le;
      known = λ q m. pick_replicas-mem ids i rounds 0 q h m;
      leads = nth_broker-mem ids i h;
      first = λ f. first_replica ids i rounds (omega (arith, n));
    })
