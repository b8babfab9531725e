-- ===== src/Fsm/Replay/Appended.antt =====
-- A log that follows another.
use aero_mq.Prelude.{
  Option, Option-cases, inl, inr, some, List, [], ◌∷◌, ◌++◌, ◌≡◌, some_inj, ap, arith,
}
use aero_mq.Json.{Json}
use aero_mq.Fsm.State.{ClusterState, Env}
use aero_mq.Fsm.Apply.{apply}
use aero_mq.Fsm.Replay.{replay, after}

pub replay-append :
    (a b : List (Env × Option Json)) (s s' : ClusterState)
    → replay a s ≡ some s'
    → replay (a ++ b) s ≡ replay b s'
unfolding replay
replay-append [] b s s' h = ap (replay b) (some_inj h)
replay-append ((env, entry) ∷ rest) b s s' h = elim (Option-cases (after s (apply env entry s))) [
  | inl e ↦ absurd (ground (arith, e, h))
  | inr (r, e) ↦ rw (e, replay) (replay-append rest b r s' (ground (arith, e, h)))
]
