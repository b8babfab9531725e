-- ===== src/Controller.antt =====
-- go-controller/cmd/controller/main.go: the handlers of the controller's HTTP API.
pub mod Startup
pub mod Joining
pub mod Runs
pub mod Durable
use aero_mq.Prelude.{
  ℕ, ◌||◌, none, some, [], length, ◌++◌, Text, codes, text_key, ◌==◌, if◌then◌else◌,
}
use aero_mq.Prelude.Decimal.{decimal_ℕ}
use aero_mq.Fsm.Metadata.{get_metadata}
use aero_mq.Consensus.{Raft, join_node}

-- The status code and the body.
pub record HttpReply : Type 0 where
  pub code : ℕ
  pub body : Text

module _ {World : Type 0} (raft : Raft World) where
  -- `/join`, from the two parameters of the query; one that is missing is empty. `http.Error` ends
  -- the body with a new line.
  unfoldable pub handle_join : Text → Text → World → HttpReply × World
  handle_join id addr w =
      let added = join_node raft id addr w in
      if id == [] || addr == []
      then (record { code = 400; body = codes "missing id or addr parameters\n" }, w)
      else elim added.0 [
        | some e ↦ (record { code = 500; body = e ++ codes "\n" }, added.1)
        | none ↦ (record { code = 200; body = codes "joined successfully" }, added.1)
      ]

  -- The two counts that `/status` prints.
  unfoldable pub status_counts : World → ℕ × ℕ
  status_counts w =
      let meta = get_metadata [] (raft.state w) in (length meta.brokers, length meta.topics)

  -- The body of `/status`, from the node's id and what the library calls its state.
  unfoldable pub show_status : Text → (World → Text) → World → Text
  unfolding status_counts decimal_ℕ
  show_status node_id state_name w =
      let (brokers, topics) = status_counts w in
      codes "{\n  \"node_id\": \""
      ++ (node_id
          ++ (codes "\",\n  \"state\": \""
              ++ (state_name w
                  ++ (codes "\",\n  \"leader\": \""
                      ++ (raft.leader w
                          ++ (codes "\",\n  \"brokers_count\": "
                              ++ (decimal_ℕ brokers
                                  ++ (codes ",\n  \"topics_count\": "
                                      ++ (decimal_ℕ topics ++ codes "\n}\n")))))))))
