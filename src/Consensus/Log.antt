-- ===== src/Consensus/Log.antt =====
-- What the raft library promises of a proposal.
use aero_mq.Prelude.{Option, none, some, List, Text, ◌≡◌, ◌⊎◌}
use aero_mq.Json.{Json}
use aero_mq.Fsm.State.{ClusterState, Env}
use aero_mq.Fsm.Apply.{Outcome, done, refused, panicked, apply}
use aero_mq.Fsm.Replay.{replay, after}
use aero_mq.Consensus.{Raft, Future, failed, responded}

abbrev pub Entry : Type 0
Entry = Env × Option Json

-- What `Apply` returned in a run.
abbrev pub Responds : Outcome → Option Text → Type 0
Responds (done s) none = Unit
Responds (done s) (some e) = ⊥
Responds refused none = ⊥
Responds refused (some e) = Unit
Responds panicked e = ⊥

module _ {World : Type 0} (raft : Raft World) where
  -- The entry was applied, after some others and before some others.
  pub record Applied (entry : Json) (w : World) (response : Option Text) (w' : World) : Type 0 where
    pub before : List Entry
    pub env : Env
    pub behind : List Entry
    pub from : ClusterState
    pub to : ClusterState
    pub reached : replay before (raft.state w) ≡ some from
    pub responds : Responds (apply env (some entry) from) response
    pub applied : after from (apply env (some entry) from) ≡ some to
    pub continued : replay behind to ≡ some (raft.state w')

  -- Entries other than the proposal were applied.
  abbrev pub Overtaken : World → World → Type 0
  Overtaken w w' = (entries : List Entry) × (replay entries (raft.state w) ≡ some (raft.state w'))

  abbrev pub Submitted : Json → World → Future × World → Type 0
  Submitted entry w (failed e, w') = (Overtaken w w' ⊎ ((r : Option Text) × Applied entry w r w'))
  Submitted entry w (responded r, w') = Applied entry w r w'

  -- A proposal that is answered has been applied, with that answer; one whose future fails may have
  -- been. The state changes by what is applied alone.
  abbrev pub Replicates : Type 0
  Replicates = (entry : Json) (w : World) → Submitted entry w (raft.submit entry w)
