-- ===== src/Fsm/Replay/Induction.antt =====
-- Invariants of a log: what every entry keeps holds after the whole log.
use mathlib.Core.Path.{subst}
use aero_mq.Prelude.{
  Bool, true, none, All, ◌≡◌, Option, some, List, [], ◌∷◌, Option-cases, inl, inr, some_inj, arith,
}
use aero_mq.Json.{Json, ◌>>=◌}
use aero_mq.Fsm.State.{ClusterState, Env}
use aero_mq.Fsm.Commands.{Command, read_command}
use aero_mq.Fsm.Apply.{Op, op_of, Outcome, done, refused, panicked, execute, apply}
use aero_mq.Fsm.Replay.{replay, after}

module _ (P : ClusterState → Type 0) where
  -- The state that an outcome leaves, if it leaves a new one.
  abbrev pub Leaves : Outcome → Type 0
  Leaves (done s) = P s
  Leaves refused = Unit
  Leaves panicked = Unit

  after_inv : (o : Outcome) (s s' : ClusterState) → P s → Leaves o → after s o ≡ some s' → P s'
  after_inv (done r) s s' w k h = subst P (some_inj h) k
  after_inv refused s s' w k h = subst P (some_inj h) w
  after_inv panicked s s' w k h = cc

module _ (P : ClusterState → Type 0) (Q : Op → Type 0) (reads : (cmd : Command) → Q (op_of cmd))
    (keep : (env : Env) (op : Op) (s : ClusterState)
      → Q op
      → P s
      → Leaves P (execute env op s)) where
  apply_inv :
      (env : Env) (entry : Option Json) (s : ClusterState) → P s → Leaves P (apply env entry s)
  unfolding apply
  apply_inv env entry s w = elim (Option-cases (entry >>= read_command)) [
    | inl e ↦ rw (e, apply) tt
    | inr (cmd, e) ↦ rw (e, apply) (keep env (op_of cmd) s (reads cmd) w)
  ]

  -- What every command keeps that a log entry can hold, every log keeps.
  pub replay_inv :
      (log : List (Env × Option Json)) (s s' : ClusterState) → P s → replay log s ≡ some s' → P s'
  unfolding replay
  replay_inv [] s s' w h = subst P (some_inj h) w
  replay_inv ((env, entry) ∷ rest) s s' w h = elim (Option-cases (after s (apply env entry s))) [
    | inl e ↦ cc (h, e)
    | inr (r, e) ↦
        replay_inv rest r s' (after_inv P (apply env entry s) s r w (apply_inv env entry s w) e)
          (ground (arith, e, h))
  ]

-- A test on what an entry asks for; an entry that is no command passes.
unfoldable pub entry_passes : (Op → Bool) → Option Json → Bool
entry_passes q entry = elim (entry >>= read_command) [ none ↦ true | some cmd ↦ q (op_of cmd) ]

module _ (P : ClusterState → Type 0) (q : Op → Bool)
    (keep : (env : Env) (op : Op) (s : ClusterState)
      → q op ≡ true
      → P s
      → Leaves P (execute env op s)) where
  passing_inv :
      (env : Env) (entry : Option Json) (s : ClusterState)
      → entry_passes q entry ≡ true
      → P s
      → Leaves P (apply env entry s)
  unfolding apply entry_passes
  passing_inv env entry s h w = elim (Option-cases (entry >>= read_command)) [
    | inl e ↦ rw (e, apply) tt
    | inr (cmd, e) ↦ rw (e, apply) (keep env (op_of cmd) s (ground (arith, e, h)) w)
  ]

  -- What every command that passes the test keeps, a log of such entries keeps.
  pub replay_passing_inv :
      (log : List (Env × Option Json)) (s s' : ClusterState)
      → All (λ e. entry_passes q e.1 ≡ true) log
      → P s
      → replay log s ≡ some s'
      → P s'
  unfolding replay
  replay_passing_inv [] s s' a w h = subst P (some_inj h) w
  replay_passing_inv ((env, entry) ∷ rest) s s' a w h =
      elim (Option-cases (after s (apply env entry s))) [
        | inl e ↦ cc (h, e)
        | inr (r, e) ↦
            replay_passing_inv rest r s' a.1
              (after_inv P (apply env entry s) s r w (passing_inv env entry s a.0 w) e)
              (ground (arith, e, h))
      ]
