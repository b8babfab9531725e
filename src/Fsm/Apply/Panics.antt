-- ===== src/Fsm/Apply/Panics.antt =====
-- Which commands end the process.
use aero_mq.Prelude.{
  zero, suc, ℕ, ◌≡◌, refl, ◌↔◌, Option, none, some, List, [], ◌∷◌, Bool, true, false, arith,
  Option-cases, inl, inr, text_key, suc, ◌∙◌,
}
use aero_mq.Prelude.Map.{Map, lookup}
use aero_mq.Prelude.Range.{Order, place, arrange}
use aero_mq.Fsm.State.{PartitionState, ClusterState, Env}
use aero_mq.Fsm.Topics.{assign_all, assign_partitions}
use aero_mq.Fsm.Apply.{Op, assign, panicked, execute}

-- Some partition of a payload is nil.
abbrev pub has_nil : List (ℕ × Option PartitionState) → Bool
has_nil [] = false
has_nil ((id, none) ∷ rest) = true
has_nil ((id, some p) ∷ rest) = has_nil rest

-- The command assigns a nil partition to a topic that exists.
abbrev pub assigns_nil : Op → ClusterState → Bool
assigns_nil (assign payload) s = elim (lookup payload.topic s.topics) [
  | none ↦ false
  | some _ ↦ has_nil payload.partitions
]
assigns_nil _ s = false

has_nil-place :
    (n : ℕ) (e : ℕ × Option PartitionState) (xs : List (ℕ × Option PartitionState))
    → has_nil (place n e xs) ≡ has_nil (e ∷ xs)
unfolding place
has_nil-place zero e xs = refl
has_nil-place (suc n) e [] = refl
has_nil-place (suc n) (i, none) ((j, none) ∷ ys) = refl
has_nil-place (suc n) (i, some p) ((j, none) ∷ ys) = refl
has_nil-place (suc n) (i, none) ((j, some q) ∷ ys) = has_nil-place n (i, none) ys
has_nil-place (suc n) (i, some p) ((j, some q) ∷ ys) = has_nil-place n (i, some p) ys

has_nil-arrange :
    (o : Order) (xs : List (ℕ × Option PartitionState)) → has_nil (arrange o xs) ≡ has_nil xs
unfolding arrange
has_nil-arrange [] xs = refl
has_nil-arrange (n ∷ ns) [] = refl
has_nil-arrange (n ∷ ns) ((i, none) ∷ xs) = has_nil-place n (i, none) (arrange ns xs)
has_nil-arrange (n ∷ ns) ((i, some p) ∷ xs) =
    has_nil-place n (i, some p) (arrange ns xs) ∙ has_nil-arrange ns xs

assign_all-none :
    (xs : List (ℕ × Option PartitionState)) (m : Map ℕ PartitionState)
    → (assign_all xs m ≡ none) ↔ (has_nil xs ≡ true)
unfolding assign_all
assign_all-none [] m = ground arith
assign_all-none ((i, none) ∷ xs) m = ground arith
assign_all-none ((i, some p) ∷ xs) m = assign_all-none xs _

-- A command ends the process exactly when it is an `assign_partitions` for a topic that exists with
-- a nil partition in its payload, in whatever order the payload is visited.
pub execute-panicked_iff :
    (env : Env) (op : Op) (s : ClusterState)
    → (execute env op s ≡ panicked) ↔ (assigns_nil op s ≡ true)
unfolding execute assign_partitions
execute-panicked_iff env (assign payload) s = elim (Option-cases (lookup payload.topic s.topics)) [
  | inl e ↦ ground (arith, e)
  | inr (t, e) ↦ ground (
    arith,
    e,
    has_nil-arrange env.payload_order payload.partitions,
    assign_all-none (arrange env.payload_order payload.partitions) t.partitions,
  )
]
execute-panicked_iff env _ s = ground arith
