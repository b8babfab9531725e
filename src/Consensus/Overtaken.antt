-- ===== src/Consensus/Overtaken.antt =====
-- What the node's calls of the raft library do to the state: they apply entries of a log.
use aero_mq.Prelude.{Bool-cases, inl, inr, Option, some, ◌≡◌, refl, ◌∙◌, Text, [], ◌∷◌, ◌++◌}
use aero_mq.Json.{Json}
use aero_mq.Fsm.State.{ClusterState, Env}
use aero_mq.Fsm.Apply.{apply}
use aero_mq.Fsm.Replay.{replay, after}
use aero_mq.Fsm.Replay.Appended.{replay-append}
use aero_mq.Consensus.{Raft, Future, failed, responded, propose, join_node}
use aero_mq.Consensus.Encode.{write_command}
use aero_mq.Consensus.Log.{Applied, Submitted, Replicates, Overtaken}

pub replay-one :
    (env : Env) (entry : Json) (s s' : ClusterState)
    → after s (apply env (some entry) s) ≡ some s'
    → replay ((env, some entry) ∷ []) s ≡ some s'
unfolding replay
replay-one env entry s s' h = rw (h, replay) refl

module _ {World : Type 0} (raft : Raft World) where
  -- What the library promises of `AddVoter`: the state changes only by entries that are applied.
  abbrev pub AddsByLog : Type 0
  AddsByLog = (id addr : Text) (w : World) → Overtaken raft w (raft.add_voter id addr w).1

  pub Overtaken-refl : (w : World) → Overtaken raft w w
  unfolding replay
  Overtaken-refl w = ([], refl)

  pub Overtaken-trans :
      (w w' w'' : World) → Overtaken raft w w' → Overtaken raft w' w'' → Overtaken raft w w''
  Overtaken-trans w w' w'' (a, h) (b, k) =
      (a ++ b, replay-append a b (raft.state w) (raft.state w') h ∙ k)

  Applied-Overtaken :
      (entry : Json) (w w' : World) (r : Option Text)
      → Applied raft entry w r w'
      → Overtaken raft w w'
  Applied-Overtaken entry w w' r a = (
    a.before ++ (((a.env, some entry) ∷ []) ++ a.behind),
    replay-append a.before _ (raft.state w) a.from a.reached
        ∙ replay-append ((a.env, some entry) ∷ []) a.behind a.from a.to
            (replay-one a.env entry a.from a.to a.applied)
        ∙ a.continued,
  )

  Submitted-Overtaken :
      (entry : Json) (w : World) (s : Future × World)
      → Submitted raft entry w s
      → Overtaken raft w s.1
  Submitted-Overtaken entry w (failed e, w') (inl o) = o
  Submitted-Overtaken entry w (failed e, w') (inr (r, a)) = Applied-Overtaken entry w w' r a
  Submitted-Overtaken entry w (responded r, w') a = Applied-Overtaken entry w w' r a

  pub propose-Overtaken :
      (op : Text) (payload : Json) (w : World)
      → Replicates raft
      → Overtaken raft w (propose raft op payload w).1
  unfolding propose
  propose-Overtaken op payload w law = elim (Bool-cases (raft.is_leader w)) [
    | inl e ↦
        rw (e, propose)
          (Submitted-Overtaken (write_command op payload) w
            (raft.submit (write_command op payload) w) (law (write_command op payload) w))
    | inr n ↦ rw (n, propose) (Overtaken-refl w)
  ]

  pub join_node-Overtaken :
      (id addr : Text) (w : World) → AddsByLog → Overtaken raft w (join_node raft id addr w).1
  unfolding join_node
  join_node-Overtaken id addr w law = elim (Bool-cases (raft.is_leader w)) [
    | inl e ↦ rw (e, join_node) (law id addr w)
    | inr n ↦ rw (n, join_node) (Overtaken-refl w)
  ]
