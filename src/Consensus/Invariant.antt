-- ===== src/Consensus/Invariant.antt =====
-- What holds of the replicated state after a proposal.
use aero_mq.Prelude.{Bool-cases, inl, inr, Option, none, some, ◌≡◌, Text, arith, ◌∷◌, []}
use aero_mq.Json.{Json}
use aero_mq.Fsm.State.{ClusterState, Env}
use aero_mq.Fsm.Apply.{apply}
use aero_mq.Fsm.Replay.{replay, after}
use aero_mq.Fsm.WellFormed.{IsWellFormed}
use aero_mq.Fsm.WellFormed.Replay.{replay-IsWellFormed}
use aero_mq.Consensus.{Raft, Future, failed, responded, propose, future_error}
use aero_mq.Consensus.Encode.{write_command}
use aero_mq.Consensus.Log.{Applied, Submitted, Replicates}

one_step :
    (env : Env) (entry : Json) (s s' : ClusterState)
    → after s (apply env (some entry) s) ≡ some s'
    → replay ((env, some entry) ∷ []) s ≡ some s'
unfolding replay
one_step env entry s s' h = rw (h, replay)

module _ {World : Type 0} (raft : Raft World) where
  Applied-IsWellFormed :
      (entry : Json) (w w' : World) (r : Option Text)
      → Applied raft entry w r w'
      → IsWellFormed (raft.state w)
      → IsWellFormed (raft.state w')
  Applied-IsWellFormed entry w w' r a h =
      replay-IsWellFormed a.behind a.to (raft.state w')
        (replay-IsWellFormed ((a.env, some entry) ∷ []) a.from a.to
          (replay-IsWellFormed a.before (raft.state w) a.from h a.reached)
          (one_step a.env entry a.from a.to a.applied))
        a.continued

  Submitted-IsWellFormed :
      (entry : Json) (w : World) (s : Future × World)
      → Submitted raft entry w s
      → IsWellFormed (raft.state w)
      → IsWellFormed (raft.state s.1)
  Submitted-IsWellFormed entry w (failed e, w') (inl (entries, reached)) h =
      replay-IsWellFormed entries (raft.state w) (raft.state w') h reached
  Submitted-IsWellFormed entry w (failed e, w') (inr (r, a)) h =
      Applied-IsWellFormed entry w w' r a h
  Submitted-IsWellFormed entry w (responded r, w') a h = Applied-IsWellFormed entry w w' r a h

  pub propose-IsWellFormed :
      (op : Text) (payload : Json) (w : World)
      → Replicates raft
      → IsWellFormed (raft.state w)
      → IsWellFormed (raft.state (propose raft op payload w).1)
  unfolding propose
  propose-IsWellFormed op payload w law h = elim (Bool-cases (raft.is_leader w)) [
    | inl e ↦
        rw (e, propose)
          (Submitted-IsWellFormed (write_command op payload) w
            (raft.submit (write_command op payload) w) (law (write_command op payload) w) h)
    | inr n ↦ rw (n, propose) h
  ]

  Submitted-Applied :
      (entry : Json) (w : World) (s : Future × World)
      → Submitted raft entry w s
      → future_error s.0 ≡ none
      → Applied raft entry w none s.1
  Submitted-Applied entry w (failed e, w') a h = cc
  Submitted-Applied entry w (responded none, w') a h = a
  Submitted-Applied entry w (responded (some r), w') a h = cc

  -- A proposal with no error has been applied, and `Apply` has returned no error.
  pub propose-Applied :
      (op : Text) (payload : Json) (w : World)
      → Replicates raft
      → (propose raft op payload w).0 ≡ none
      → Applied raft (write_command op payload) w none (propose raft op payload w).1
  unfolding propose
  propose-Applied op payload w law h = elim (Bool-cases (raft.is_leader w)) [
    | inl e ↦
        rw (e, propose)
          (Submitted-Applied (write_command op payload) w (raft.submit (write_command op payload) w)
            (law (write_command op payload) w) (ground (arith, e, h)))
    | inr n ↦ absurd (ground (arith, n, h))
  ]
